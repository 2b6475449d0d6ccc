-- ===== src/Admin/Service.antt =====
-- modules/admin/service.py: `ConfigService`, with the cache of the process. The clock counts
-- milliseconds; Fernet's encryption is an argument.
use fuze.Prelude.{
  ℕ, suc, String, Bool, ◌&&◌, not, Option, none, some, List, [], ◌∷◌, ◌++◌, map, take, length, ◌==◌,
  nat_eq, string_eq, if◌then◌else◌,
}
use fuze.Prelude.Texts.{strip}
use fuze.Core.Config.{AuthConfig, FeaturesConfig, ProvidersConfig, FuzeConfig, validate_config}
use fuze.Core.Errors.{Error}
use fuze.Core.Result.{Result, ok, err}
use fuze.Database.Exec.{
  Exec, pure, raise, lift, gets, or_raise, raise_if, modify, commit, rollback, ◌>>=◌, ◌>>◌,
}
use fuze.Database.Sql.{update_where, delete_where, select_where, exists_row}
use fuze.Users.Repository.{is_active_admin}
use fuze.Admin.Json.{Change}
use fuze.Admin.Models.{InstanceSettings, InstanceSecret, InstanceSettingsAudit}
use fuze.Admin.Diff.{safe_diff, model_dump}

abbrev pub secret_names : List String
secret_names = "yandex_token" ∷ "spotify_client_id" ∷ "spotify_client_secret" ∷ []

-- `CredentialWrite`: the outer option says whether a field was set
pub record CredentialWrite : Type 0 where
  pub yandex_token : Option (Option String)
  pub spotify_client_id : Option (Option String)
  pub spotify_client_secret : Option (Option String)

pub record SettingsWrite : Type 0 where
  pub version : ℕ
  pub instance_name : String
  pub auth : AuthConfig
  pub features : FeaturesConfig
  pub providers : ProvidersConfig
  pub credentials : Option CredentialWrite

-- `app_config()`, with the validators of the parts, which the parts have passed with the body of the
-- request and pass again
unfoldable pub app_config : SettingsWrite → Option FuzeConfig
unfolding validate_config
app_config p = validate_config (record {
  instance_name = p.instance_name;
  auth = p.auth;
  features = p.features;
  providers = p.providers;
})

pub record SettingsRead : Type 0 where
  pub version : ℕ
  pub updated_by : Option ℕ
  pub config : FuzeConfig
  pub credentials : List (String × Bool)

abbrev pub has_name : String → InstanceSecret → Bool
has_name name s = s.name == name

abbrev pub configured : String → List InstanceSecret → Bool
configured name = exists_row (has_name name)

abbrev pub not_initialized : Error
not_initialized = Error.runtime_error

unfoldable pub read : Exec SettingsRead
unfolding validate_config
read = do
  found ← gets (λ s. s.instance_settings)
  row ← or_raise found not_initialized
  config ← or_raise (validate_config row.settings) Error.value_error
  secrets ← gets (λ s. s.instance_secrets)
  pure (record {
    version = row.version;
    updated_by = row.updated_by;
    config = config;
    credentials = map (λ name. (name, configured name secrets)) secret_names;
  })

-- the secrets and the events, in the order of SECRET_NAMES
abbrev pub Pending : Type 0
Pending = List InstanceSecret × List (String × Change)

-- one turn of the loop over the credentials
unfoldable pub write_credential :
    (String → String) → String → Option (Option String) → Pending → Pending
write_credential encrypt name none (secrets, events) = (secrets, events)
write_credential encrypt name (some none) (secrets, events) =
    if configured name secrets
    then (
      delete_where (has_name name) secrets,
      events ++ (name, Change.event "credential_removed") ∷ [],
    )
    else (secrets, events)
write_credential encrypt name (some (some value)) (secrets, events) =
    if configured name secrets
    then (
      update_where (has_name name) (λ s. record s { ciphertext = encrypt (strip value) }) secrets,
      events ++ (name, Change.event "credential_replaced") ∷ [],
    )
    else (
      secrets ++ record { name = name; ciphertext = encrypt (strip value) } ∷ [],
      events ++ (name, Change.event "credential_added") ∷ [],
    )

unfoldable pub write_credentials :
    (String → String) → Option CredentialWrite → List InstanceSecret → Pending
unfolding write_credential
write_credentials encrypt none secrets = (secrets, [])
write_credentials encrypt (some c) secrets =
    write_credential encrypt "spotify_client_secret" c.spotify_client_secret (
      write_credential encrypt "spotify_client_id" c.spotify_client_id
        (write_credential encrypt "yandex_token" c.yandex_token (secrets, [])))

abbrev pub version_conflict : Error
version_conflict = Error.http_exception 409 "settings_version_conflict"

-- a provider that is switched on has its credentials
unfoldable pub has_credentials : ProvidersConfig → List InstanceSecret → Result (Unit {0})
has_credentials p secrets =
    if p.yandex && not (configured "yandex_token" secrets)
    then err (Error.http_exception 422 "yandex_credentials_required")
    else if p.spotify
        && not
            (configured "spotify_client_id" secrets && configured "spotify_client_secret" secrets)
    then err (Error.http_exception 422 "spotify_credentials_required")
    else ok tt

-- the row that the UPDATE meets: another transaction may have written it since it was read
unfoldable pub write_settings : ℕ → ℕ → FuzeConfig → Option InstanceSettings → Exec (Unit {0})
write_settings actor_id version config none = do rollback; raise version_conflict
write_settings actor_id version config (some row) =
    if row.version == version
    then modify (λ s. record s {
      instance_settings =
          some (record { version = suc version; settings = config; updated_by = some actor_id });
    })
    else (do rollback; raise version_conflict)

-- the UPDATE under its version, the audit record and the commit
unfoldable pub store_settings : ℕ → ℕ → FuzeConfig → List (String × Change) → Exec (Unit {0})
store_settings actor_id version config diff = do
  row ← gets (λ s. s.instance_settings)
  write_settings actor_id version config row
  modify (λ s. record s {
    audits =
        s.audits
        ++ record { actor_id = some actor_id; config_version = suc version; diff = diff } ∷ [];
  })
  commit

unfoldable pub apply_update :
    (String → String) → SettingsWrite → ℕ → InstanceSettings → FuzeConfig → Exec SettingsRead
unfolding write_credentials
apply_update encrypt payload actor_id row config = do
  secrets ← gets (λ s. s.instance_secrets)
  modify (λ s. record s {
    instance_secrets = (write_credentials encrypt payload.credentials secrets).0;
  })
  lift (has_credentials config.providers (write_credentials encrypt payload.credentials secrets).0)
  store_settings actor_id payload.version config (
      safe_diff (model_dump row.settings) (model_dump config)
      ++ (write_credentials encrypt payload.credentials secrets).1)
  read

unfoldable pub update : (String → String) → SettingsWrite → ℕ → Exec SettingsRead
update encrypt payload actor_id = do
  found ← gets (λ s. s.instance_settings)
  row ← or_raise found not_initialized
  raise_if (not (row.version == payload.version)) version_conflict
  config ← or_raise (app_config payload) Error.value_error
  apply_update encrypt payload actor_id row config

-- the newest records first
abbrev pub reversed {ℓ} : {A : Type ℓ} → List A → List A
reversed [] = []
reversed (x ∷ xs) = reversed xs ++ x ∷ []

unfoldable pub history : ℕ → Exec (List InstanceSettingsAudit)
history limit = gets (λ s. take limit (reversed s.audits))

unfoldable pub setup_required : Exec Bool
setup_required = gets (λ s. length (select_where is_active_admin s.users) == 0)
