-- ===== src/Cli/Tests.antt =====
-- Commands on a small instance.
use fuze.Prelude.{◌≡◌, refl, String, true, false, Option, none, some, [], ◌∷◌, arith}
use fuze.Prelude.Texts.{lower, strip, count_chars}
use fuze.Database.Tables.{Db}
use fuze.Database.Sql.{select_one, exists_row}
use fuze.Users.Repository.{is_active_admin}
use fuze.Core.Errors.{Error}
use fuze.Core.Result.{err}
use fuze.Auth.Repository.{is_session}
use fuze.Auth.Service.{Context, rotate}
use fuze.Auth.Access.{current_active_user, unauthorized}
use fuze.Auth.Models.{AuthSession, AccessKey}
use fuze.Cli.Command.{Ended, ◌>>=◌, transaction}
use fuze.Cli.Rescue.{
  Typed, bootstrap_admin, reset_admin_password, reset_access_key, promote_user, read_password,
  revoke_sessions,
}
use fuze.Cli.Keys.{revoke_key}
use fuze.Cli.Legacy.{import_legacy_config}
use fuze.Cli.Diagnosis.{db_status}
use fuze.Cli.Recovery.{
  PasswordReset, KeyReset, reset_admin_password-PasswordReset, reset_access_key-KeyReset,
}
use fuze.Cli.Governed.{Runs, Step, Runs-IsGoverned}
use fuze.Cli.Bootstrap.{Bootstrap, bootstrap_admin-Bootstrap}
use fuze.Cli.Env.{read_entry}
use fuze.Cli.Exits.{db_status_lem, revoke_key_locks_out}
use fuze.Cli.Import.{Import, import_legacy_config-Import}
use fuze.Users.Managed.{IsGoverned}
use fuze.Fixtures.{no_rows, settled_db, config, crypto, admin, listener}

abbrev session : AuthSession
session = record {
  id = 40;
  user_id = 1;
  access_key_id = some 7;
  refresh_jti_hash = "a";
  expires_at = 5000;
  revoked_at = none;
  replaced_by = none;
}

abbrev key : AccessKey
key = record {
  id = 7;
  user_id = 1;
  label = "first";
  key_hash = "h";
  last_used_at = none;
  revoked_at = none;
}

abbrev context : Context
context = record {
  config = config;
  crypto = crypto;
  now = 1000;
  refresh_days = 7;
  session_id = 50;
  refresh_jti = "b";
}

abbrev store : Db
store = settled_db 20 (record no_rows {
  users = admin ∷ listener ∷ [];
  access_keys = key ∷ [];
  auth_sessions = session ∷ [];
  instance_settings = some (record { version = 4; settings = config; updated_by = none });
})

abbrev mail : String → Option String
mail s = some s

reset_one :
    (reset_admin_password mail crypto 900 "Root@Fuze" (Typed.line "new-secret") store).0
    ≡ Ended.done admin
unfolding reset_admin_password read_password count_chars lower select_one revoke_sessions
    transaction ◌>>=◌
reset_one = refl

reset_admin_password-PasswordReset_example :
    PasswordReset mail crypto.hash 900 "root@fuze"
      (Typed.line "new-secret")
      store
      (reset_admin_password mail crypto 900 "root@fuze" (Typed.line "new-secret") store)
reset_admin_password-PasswordReset_example =
    reset_admin_password-PasswordReset mail crypto 900 "root@fuze" (Typed.line "new-secret") store

reset_access_key-KeyReset_example :
    KeyReset crypto 900 1 store (reset_access_key crypto 900 8 "token" 1 "recovery" true store)
reset_access_key-KeyReset_example =
    reset_access_key-KeyReset crypto 900 8 "token" 1 "recovery" true store

revoked_one : (revoke_key 900 7 store).0 ≡ Ended.done tt
unfolding revoke_key select_one transaction ◌>>=◌
revoked_one = refl

found_one : select_one (is_session 40) store.committed.auth_sessions ≡ some session
unfolding select_one
found_one = refl

revoke_key_locks_out_example :
    ((current_active_user 950
        (record { sub = some 1; sid = some 40; jti = "a" })
        (revoke_key 900 7 store).1).0
      ≡ err unauthorized)
    × ((rotate context
          (record { sub = some 1; sid = some 40; jti = "a" })
          (revoke_key 900 7 store).1).0
        ≡ err Error.invalid_auth_credentials)
revoke_key_locks_out_example =
    revoke_key_locks_out 900 7 store 1 40 950 "a" context session found_one refl revoked_one

import_legacy_config-Import_example :
    Import
      (λ s. s)
      (some config)
      (("YANDEX_ACCESS_TOKEN", "t") ∷ [])
      false
      store
      (import_legacy_config
        (λ s. s)
        (some config)
        (("YANDEX_ACCESS_TOKEN", "t") ∷ [])
        false
        false
        store)
import_legacy_config-Import_example =
    import_legacy_config-Import (λ s. s) (some config) (("YANDEX_ACCESS_TOKEN", "t") ∷ []) false
      false store

abbrev fresh : Db
fresh = settled_db 1 no_rows

bootstrap_admin-Bootstrap_example :
    Bootstrap mail crypto.hash "root@fuze" " Root "
      (Typed.line "new-secret")
      fresh
      (bootstrap_admin mail crypto "root@fuze" " Root " (Typed.line "new-secret") fresh)
bootstrap_admin-Bootstrap_example =
    bootstrap_admin-Bootstrap mail crypto "root@fuze" " Root " (Typed.line "new-secret") fresh
      (record { ids = tt; drawn = tt })

store-IsGoverned : IsGoverned store
unfolding exists_row is_active_admin
store-IsGoverned = record {
  accounts = record {
    managed = refl;
    ids = (refl, (refl, tt));
    drawn = (omega arith, (omega arith, tt));
  };
  saved = refl;
}

Runs-IsGoverned_example : IsGoverned (promote_user "ann@fuze" true (revoke_key 900 7 store).1).1
Runs-IsGoverned_example =
    Runs-IsGoverned store-IsGoverned
      (Runs.next (Runs.next Runs.here (Step.revoke 900 7)) (Step.promote "ann@fuze" true))

db_status_lem_example : db_status (some (some "b")) (some "a") ≡ (
  ("drift", "") ∷ ("error", "database_unavailable") ∷ [],
  Ended.exited 4 "database_unavailable",
)
db_status_lem_example = db_status_lem (some "b") "a"

quoted_entry : read_entry " A = 'x y' " ≡ some ("A", "x y")
unfolding read_entry strip
quoted_entry = refl
