-- ===== src/Cli/Legacy.antt =====
-- cli/commands/rescue.py: `import-legacy-config`. The TOML file is given as pydantic reads it.
use fuze.Prelude.{
  ℕ, suc, String, Bool, true, ◌&&◌, not, Option, none, some, List, [], ◌∷◌, ◌++◌, length, ◌==◌,
  nat_eq, string_eq, if◌then◌else◌, map,
}
use fuze.Prelude.Texts.{is_empty}
use fuze.Core.Config.{FuzeConfig}
use fuze.Core.Errors.{Error}
use fuze.Database.Exec.{gets, modify}
use fuze.Database.Sql.{update_where}
use fuze.Admin.Json.{Change}
use fuze.Admin.Models.{InstanceSettings, InstanceSecret}
use fuze.Admin.Service.{has_name, configured}
use fuze.Cli.Command.{Command, Ended, pure, fail_if, or_fail, statement, transaction, ◌>>=◌, ◌>>◌}

-- `result[key]`, where the last line with the key counts
unfoldable pub env_value : String → List (String × String) → Option String
env_value key [] = none
env_value key ((k, v) ∷ env) = elim (env_value key env) [
  | some w ↦ some w
  | none ↦ if k == key then some v else none
]

-- INSERT … ON CONFLICT (name) DO UPDATE
unfoldable pub upsert_secret : String → String → List InstanceSecret → List InstanceSecret
upsert_secret name ciphertext secrets =
    if configured name secrets
    then update_where (has_name name) (λ s. record s { ciphertext = ciphertext }) secrets
    else secrets ++ record { name = name; ciphertext = ciphertext } ∷ []

-- the loop over the credentials: the secrets, and the names that were imported
unfoldable pub import_secrets :
    (String → String)
    → List (String × Option String)
    → List InstanceSecret
    → List InstanceSecret × List String
unfolding upsert_secret
import_secrets encrypt [] secrets = (secrets, [])
import_secrets encrypt ((name, none) ∷ cs) secrets = import_secrets encrypt cs secrets
import_secrets encrypt ((name, some value) ∷ cs) secrets =
    let stored = if is_empty value then secrets else upsert_secret name (encrypt value) secrets in
    let (after, imported) = import_secrets encrypt cs stored in
    (after, if is_empty value then imported else name ∷ imported)

abbrev pub legacy_credentials : List (String × String) → List (String × Option String)
legacy_credentials env =
    ("yandex_token", env_value "YANDEX_ACCESS_TOKEN" env)
    ∷ ("spotify_client_id", env_value "SPOTIFY_CLIENT_ID" env)
    ∷ ("spotify_client_secret", env_value "SPOTIFY_CLIENT_SECRET" env)
    ∷ []

-- `{"legacy_import": True, **{name: "credential_added" for name in imported}}`
abbrev pub import_diff : List String → List (String × Change)
import_diff imported =
    ("legacy_import", Change.noted true)
    ∷ map (λ name. (name, Change.event "credential_added")) imported

-- UPDATE instance_settings, which leaves `updated_by` alone
abbrev pub next_settings : InstanceSettings → FuzeConfig → InstanceSettings
next_settings row config = record row { version = suc row.version; settings = config }

abbrev or_crash {ℓ} : {A : Type ℓ} → Option A → Command A
or_crash none d = (Ended.crashed Error.value_error, d)
or_crash (some a) d = pure a d

unfoldable pub import_legacy_config :
    (String → String)
    → Option FuzeConfig
    → List (String × String)
    → Bool
    → Bool
    → Command (ℕ × List String)
unfolding import_secrets env_value
import_legacy_config encrypt toml env replace confirmed = do
  fail_if (replace && not confirmed) "cancelled" 2
  config ← or_fail toml "invalid_legacy_config" 2
  transaction (do
    found ← statement (gets (λ s. s.instance_settings))
    audits ← statement (gets (λ s. s.audits))
    fail_if (not (length audits == 0) && not replace) "already_configured" 3
    row ← or_crash found
    let next_version = suc row.version
    statement (modify λ s. record s { instance_settings = some (next_settings row config) })
    secrets ← statement (gets (λ s. s.instance_secrets))
    let imported = import_secrets encrypt (legacy_credentials env) secrets
    statement (
        modify λ s. record s {
          instance_secrets = imported.0;
          audits =
              s.audits
              ++ record {
                actor_id = none;
                config_version = next_version;
                diff = import_diff imported.1;
              }
                ∷ [];
        })
    pure (next_version, imported.1))
