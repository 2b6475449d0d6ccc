-- ===== src/Database/Exec.antt =====
-- A method that works on a database session and may raise. What was written before a raise stays in

-- the session, so the state comes back beside the error too.
pub mod Laws
use fuze.Prelude.{ℕ, suc, Bool, Option, none, some, if◌then◌else◌}
use fuze.Core.Errors.{Error}
use fuze.Core.Result.{Result, ok, err}
use fuze.Database.Tables.{Tables, Db}

abbrev pub Exec {ℓ} : Type ℓ → Type ℓ
Exec A = Db → Result A × Db

module _ {ℓ} {A : Type ℓ} where
  abbrev pub pure : A → Exec A
  pure a d = (ok a, d)

  abbrev pub raise : Error → Exec A
  raise e d = (err e, d)

  abbrev pub lift : Result A → Exec A
  lift r d = (r, d)

  abbrev pub gets : (Tables → A) → Exec A
  gets f d = (ok (f d.current), d)

  abbrev pub or_raise : Option A → Error → Exec A
  or_raise none e = raise e
  or_raise (some a) e = pure a

infixl 5 ◌>>=◌ ◌>>◌
abbrev pub ◌>>=◌ {ℓ κ} :
    {A : Type ℓ} {B : Type κ} → (Db → Result A × Db) → (A → Db → Result B × Db) → Db → Result B × Db
◌>>=◌ m f d = let (r, d') = m d in elim r [ ok a ↦ f a d' | err e ↦ (err e, d') ]

abbrev pub ◌>>◌ {ℓ} : {B : Type ℓ} → Exec (Unit {0}) → Exec B → Exec B
m >> k = m >>= λ _. k

abbrev pub raise_if : Bool → Error → Exec (Unit {0})
raise_if c e d = (if c then err e else ok tt, d)

abbrev pub modify : (Tables → Tables) → Exec (Unit {0})
modify f d = (ok tt, record d { current = f d.current })

abbrev pub commit : Exec (Unit {0})
commit d = (ok tt, record d { committed = d.current })

abbrev pub rollback : Exec (Unit {0})
rollback d = (ok tt, record d { current = d.committed })

-- a fresh identifier
abbrev pub next_id : Exec ℕ
next_id d = (ok d.sequence, record d { sequence = suc d.sequence })

-- the handler: only an IntegrityError is caught
abbrev pub handle_integrity {ℓ} : {A : Type ℓ} → Error → Error → Exec A
handle_integrity Error.integrity_error e d = (err e, record d { current = d.committed })
handle_integrity x e d = (err x, d)

-- `try: body except IntegrityError: await rollback(); raise e`
abbrev pub on_integrity_error {ℓ} : {A : Type ℓ} → Exec A → Error → Exec A
on_integrity_error m e d =
    let (r, d') = m d in elim r [ ok a ↦ (ok a, d') | err x ↦ handle_integrity x e d' ]

-- `try: body except Exception: await rollback(); raise`
abbrev pub rollback_on_error {ℓ} : {A : Type ℓ} → Exec A → Exec A
rollback_on_error m d =
    let (r, d') = m d in
    elim r [ ok a ↦ (ok a, d') | err x ↦ (err x, record d' { current = d'.committed }) ]

-- `try: body except Exception: handler`, where the handler also sees how the body ended
abbrev pub attempt {ℓ κ} : {A : Type ℓ} {B : Type κ} → Exec A → (Result A → Exec B) → Exec B
attempt m f d = let (r, d') = m d in f r d'
