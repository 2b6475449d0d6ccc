-- ===== src/Cli/Command.antt =====
-- A command of the CLI: it works on the database and ends with what it printed, with `typer.Exit`, or
-- with an exception that nothing catches.
use fuze.Prelude.{ℕ, String, Bool, true, false, Option, none, some}
use fuze.Core.Errors.{Error}
use fuze.Core.Result.{Result, ok, err}
use fuze.Database.Tables.{Db}
use fuze.Database.Exec.{Exec}

pub data Ended {ℓ} (A : Type ℓ) : Type ℓ where
  done : A → Ended A
  -- the exit code, and the `code` that was printed
  exited : ℕ → String → Ended A
  crashed : Error → Ended A

abbrev pub Command {ℓ} : Type ℓ → Type ℓ
Command A = Db → Ended A × Db

infixl 5 ◌>>=◌ ◌>>◌
unfoldable pub ◌>>=◌ {ℓ κ} :
    {A : Type ℓ} {B : Type κ} → (Db → Ended A × Db) → (A → Db → Ended B × Db) → Db → Ended B × Db
◌>>=◌ m f d =
    let (r, d') = m d in
    elim r [ done a ↦ f a d' | exited code s ↦ (exited code s, d') | crashed e ↦ (crashed e, d') ]

abbrev pub ◌>>◌ {ℓ} : {B : Type ℓ} → Command (Unit {0}) → Command B → Command B
m >> k = m >>= λ _. k

module _ {ℓ} {A : Type ℓ} where
  abbrev pub pure : A → Command A
  pure a d = (done a, d)

  -- `out.fail(code, message, exit_code)`
  abbrev pub fail : String → ℕ → Command A
  fail code exit_code d = (exited exit_code code, d)

  abbrev pub or_fail : Option A → String → ℕ → Command A
  or_fail none code exit_code = fail code exit_code
  or_fail (some a) code exit_code = pure a

  abbrev ended : Result A → Ended A
  ended (ok a) = done a
  ended (err e) = crashed e

  -- a statement on the connection
  abbrev pub statement : Exec A → Command A
  statement m d = let (r, d') = m d in (ended r, d')

  abbrev settle : Ended A → Db → Ended A × Db
  settle (done a) d = (done a, record d { committed = d.current })
  settle (exited code s) d = (exited code s, record d { current = d.committed })
  settle (crashed e) d = (crashed e, record d { current = d.committed })

  -- `with engine.begin() as connection`: a connection of its own, which commits at the end of the
  -- block and rolls back when an exception leaves it
  unfoldable pub transaction : Command A → Command A
  transaction m d = let (r, d') = m (record d { current = d.committed }) in settle r d'

abbrev pub fail_if : Bool → String → ℕ → Command (Unit {0})
fail_if c code exit_code d = (elim c [ true ↦ exited exit_code code | false ↦ done tt ], d)

-- a command that failed has no result
abbrev pub HasFailed {ℓ} : {A : Type ℓ} → Ended A → Type 0
HasFailed (Ended.done _) = ⊥
HasFailed _ = Unit {0}
