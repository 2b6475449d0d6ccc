-- ===== src/Database/Quiet.antt =====
-- Methods that publish nothing to the broker, one rule for each way to build a method.
use fuze.Prelude.{◌≡◌, refl, Bool, Option, none, some}
use fuze.Core.Errors.{Error}
use fuze.Core.Result.{Result, ok, err}
use fuze.Database.Tables.{Tables, Db}
use fuze.Database.Exec.{Exec, pure, raise, lift, gets, or_raise, modify, raise_if, ◌>>=◌}

pub record Quiet {ℓ} {A : Type ℓ} (m : Exec A) : Type ℓ where
  pub at : (d : Db) → (m d).1.messages ≡ d.messages

module _ {ℓ} {A : Type ℓ} where
  pub Quiet-pure : (a : A) → Quiet (pure a)
  Quiet-pure a = record { at = λ d. refl }

  pub Quiet-raise : (e : Error) → Quiet (raise {A = A} e)
  Quiet-raise e = record { at = λ d. refl }

  pub Quiet-lift : (r : Result A) → Quiet (lift r)
  Quiet-lift r = record { at = λ d. refl }

  pub Quiet-gets : (f : Tables → A) → Quiet (gets f)
  Quiet-gets f = record { at = λ d. refl }

  pub Quiet-or_raise : (o : Option A) (e : Error) → Quiet (or_raise o e)
  Quiet-or_raise none e = Quiet-raise e
  Quiet-or_raise (some a) e = Quiet-pure a

pub Quiet-raise_if : (c : Bool) (e : Error) → Quiet (raise_if c e)
Quiet-raise_if c e = record { at = λ d. refl }

pub Quiet-modify : (f : Tables → Tables) → Quiet (modify f)
Quiet-modify f = record { at = λ d. refl }

-- After a quiet method the rest works on the same messages.
pub quiet-bind {ℓ κ μ} :
    {A : Type ℓ} {B : Type κ} (P : Db → Result B × Db → Type μ) (m : Exec A) (f : A → Exec B)
    → Quiet m
    → ((e : Error) (d d' : Db) → d'.messages ≡ d.messages → P d (err e, d'))
    → ((a : A) (d d' : Db) → d'.messages ≡ d.messages → P d (f a d'))
    → (d : Db) → P d ((m >>= f) d)
quiet-bind {A} {B} P m f quiet failed rest d = go (m d).0 (m d).1 (quiet.at d)
  where
    go :
        (r : Result A) (d' : Db)
        → d'.messages ≡ d.messages
        → P d (elim r [ ok a ↦ f a d' | err e ↦ (err e, d') ])
    go (ok a) d' same = rest a d d' same
    go (err e) d' same = failed e d d' same
