-- ===== src/Database/Exec/Laws.antt =====
-- How a sequence of methods runs, when the outcome of the first is known.
use fuze.Prelude.{◌≡◌, ap, refl}
use fuze.Core.Errors.{Error}
use fuze.Core.Result.{Result, ok, err}
use fuze.Database.Tables.{Db}
use fuze.Database.Exec.{Exec, ◌>>=◌, ◌>>◌, on_integrity_error, handle_integrity, rollback_on_error}

-- the continuation of a method, on its outcome
abbrev pub resume {ℓ κ} : {A : Type ℓ} {B : Type κ} → (A → Exec B) → Result A × Db → Result B × Db
resume f (r, d) = elim r [ ok a ↦ f a d | err x ↦ (err x, d) ]

module _ {ℓ κ} {A : Type ℓ} {B : Type κ} where
  -- where the whole succeeds, the method did and so did its continuation
  pub resume_won :
      (f : A → Exec B) (out : Result A × Db) (b : B)
      → (resume f out).0 ≡ ok b
      → (a : A) × (out.0 ≡ ok a) × ((f a out.1).0 ≡ ok b)
  resume_won f (ok a, d) b won = (a, refl, won)
  resume_won f (err x, d) b won = absurd (cc)

  pub bind-ok :
      (m : Exec A) (f : A → Exec B) (d d' : Db) (a : A) → m d ≡ (ok a, d') → (m >>= f) d ≡ f a d'
  bind-ok m f d d' a e = ap (resume f) e

  pub bind-err :
      (m : Exec A) (f : A → Exec B) (d d' : Db) (x : Error)
      → m d ≡ (err x, d')
      → (m >>= f) d ≡ (err x, d')
  bind-err m f d d' x e = ap (resume f) e

module _ {ℓ} {B : Type ℓ} where
  pub seq-ok :
      (m : Exec (Unit {0})) (k : Exec B) (d d' : Db) → m d ≡ (ok tt, d') → (m >> k) d ≡ k d'
  seq-ok m k d d' e = ap (resume (λ _. k)) e

  -- what `on_integrity_error` makes of an outcome
  abbrev pub handled : Error → Result B × Db → Result B × Db
  handled e (r, d) = elim r [ ok a ↦ (ok a, d) | err x ↦ handle_integrity x e d ]

  pub guarded-ok :
      (m : Exec B) (e : Error) (d d' : Db) (b : B)
      → m d ≡ (ok b, d')
      → on_integrity_error m e d ≡ (ok b, d')
  guarded-ok m e d d' b h = ap (handled e) h

  pub seq-err :
      (m : Exec (Unit {0})) (k : Exec B) (d d' : Db) (x : Error)
      → m d ≡ (err x, d')
      → (m >> k) d ≡ (err x, d')
  seq-err m k d d' x e = ap (resume (λ _. k)) e

  -- what `rollback_on_error` makes of an outcome
  abbrev pub rolled : Result B × Db → Result B × Db
  rolled (r, d) = elim r [ ok a ↦ (ok a, d) | err x ↦ (err x, record d { current = d.committed }) ]

  pub rolled-ok :
      (m : Exec B) (d d' : Db) (b : B) → m d ≡ (ok b, d') → rollback_on_error m d ≡ (ok b, d')
  rolled-ok m d d' b h = ap rolled h

  pub rolled-err :
      (m : Exec B) (d d' : Db) (x : Error)
      → m d ≡ (err x, d')
      → rollback_on_error m d ≡ (err x, record d' { current = d'.committed })
  rolled-err m d d' x h = ap rolled h

  pub guarded-err :
      (m : Exec B) (e : Error) (d d' : Db)
      → m d ≡ (err Error.integrity_error, d')
      → on_integrity_error m e d ≡ (err e, record d' { current = d'.committed })
  guarded-err m e d d' h = ap (handled e) h
