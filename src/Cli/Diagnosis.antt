-- ===== src/Cli/Diagnosis.antt =====
-- cli/commands/rescue.py: `db-status`, `config-show` and `doctor`. What the probes of the infrastructure
-- answer is an argument; a command returns what it emitted beside how it ended.
use fuze.Prelude.{
  ℕ, String, Bool, true, false, ◌&&◌, not, Option, none, some, List, [], ◌∷◌, ◌++◌, ◌==◌, map,
  string_eq, if◌then◌else◌,
}
use fuze.Database.Exec.{gets}
use fuze.Core.Config.{FuzeConfig}
use fuze.Admin.Service.{configured, secret_names}
use fuze.Cli.Command.{Command, Ended, pure, or_fail, statement, ◌>>=◌}

-- what a command emitted, by the "status" and the "code" of each document
abbrev pub Emitted : Type 0
Emitted = List (String × String)

abbrev pub Run : Type 0
Run = Emitted × Ended (Unit {0})

-- `out.fail(code, message, exit_code)` after what was emitted already
abbrev pub failed : Emitted → String → ℕ → Run
failed before code exit_code = (before ++ ("error", code) ∷ [], Ended.exited exit_code code)

-- `except Exception`, which catches `typer.Exit` too: it is a RuntimeError
abbrev pub catching : Run → String → ℕ → Run
catching (before, Ended.done a) code exit_code = (before, Ended.done a)
catching (before, _) code exit_code = failed before code exit_code

-- the body of the `try` in `db_status`: the query may raise, and the head of the migrations may not be
-- found
unfoldable pub compare_revisions : Option (Option String) → Option String → Run
compare_revisions none head = ([], Ended.exited 1 "exception")
compare_revisions (some current) none = ([], Ended.exited 1 "exception")
compare_revisions (some none) (some head) = (("drift", "") ∷ [], Ended.exited 5 "drift")
compare_revisions (some (some current)) (some head) =
    if current == head
    then (("ok", "") ∷ [], Ended.done tt)
    else (("drift", "") ∷ [], Ended.exited 5 "drift")

unfoldable pub db_status : Option (Option String) → Option String → Run
unfolding compare_revisions
db_status current head = catching (compare_revisions current head) "database_unavailable" 4

-- what `config_show` prints of the instance: no secret is read
pub record Shown : Type 0 where
  pub config_version : ℕ
  pub settings : FuzeConfig
  pub credentials : List (String × Bool)

unfoldable pub config_show : Command Shown
config_show = do
  found ← statement (gets (λ s. s.instance_settings))
  row ← or_fail found "config_unavailable" 4
  secrets ← statement (gets (λ s. s.instance_secrets))
  pure (record {
    config_version = row.version;
    settings = row.settings;
    credentials = map (λ name. (name, configured name secrets)) secret_names;
  })

-- the probes of `doctor`
pub record Probes : Type 0 where
  -- SELECT 1 succeeds
  pub database : Bool
  -- every ciphertext can be decrypted
  pub secrets : Bool
  pub redis : Bool
  pub minio : Bool
  pub worker : Bool

pub record Checks : Type 0 where
  pub database : Bool
  pub config : Bool
  pub redis : Bool
  pub minio : Bool
  pub worker : Bool

-- the checks that are "ok"
unfoldable pub run_checks : Probes → Checks
run_checks p = record {
  database = p.database;
  config = p.database && p.secrets;
  redis = p.redis;
  minio = p.minio;
  worker = p.worker;
}

abbrev pub all_ok : Checks → Bool
all_ok c = c.database && (c.config && (c.redis && (c.minio && c.worker)))

unfoldable pub doctor_status : Checks → String
doctor_status c =
    if all_ok c then "healthy" else if not c.database then "unavailable" else "degraded"

unfoldable pub doctor : Probes → Run
unfolding run_checks doctor_status
doctor p =
    let status = doctor_status (run_checks p) in
    (
      (status, "") ∷ [],
      elim (status == "healthy") [
        | true ↦ Ended.done tt
        | false ↦ Ended.exited (if status == "unavailable" then 4 else 5) status
      ],
    )
