-- ===== src/Core/Settings.antt =====
-- core/settings.py: the validators of `Settings` and of `TestSettings`, over the environment's
-- values, and the values that the program derives from them.
pub mod Hardening
use fuze.Prelude.{
  ℕ, String, Bool, true, false, not, ◌&&◌, ◌||◌, Option, none, some, List, [], ◌∷◌, ltb, ◌==◌,
  string_eq, if◌then◌else◌, or_else,
}
use fuze.Prelude.Sets.{contains}
use fuze.Prelude.Texts.{
  strip, lower, count_chars, is_empty, join, text_or, occurs, starts_with, after_last, before_first,
  str,
}
use fuze.Core.Config.{FuzeConfig}
use fuze.Core.Errors.{Error}
use fuze.Core.Result.{Result, ok, err}
use fuze.Integrations.Storage.{Endpoints}

-- the file of CONFIG_ENCRYPTION_KEY_FILE: its text, or none where it cannot be read
abbrev pub KeyFile : Type 0
KeyFile = Option String

pub record Settings : Type 0 where
  pub environment : String
  pub db_user : String
  pub db_password : String
  pub db_host : String
  pub db_port : ℕ
  pub db_name : String
  pub yandex_access_token : Option String
  pub spotify_client_id : Option String
  pub spotify_client_secret : Option String
  pub redis_url : String
  pub jwt_security_key : String
  pub config_encryption_key : Option String
  pub config_encryption_key_file : Option KeyFile
  pub cors_origins : List String
  pub cors_allow_credentials : Bool
  pub cookie_secure : Bool
  pub cookie_samesite : String
  pub minio_access_key : String
  pub minio_secret_key : String
  pub minio : Endpoints
  pub celery_broker_url : Option String
  pub debug : Bool

unfoldable pub check_default_key : String → Result String
check_default_key value = if value == "CHANGE-THIS-PLEASE" then err Error.value_error else ok value

unfoldable pub validate_cookie_samesite : String → Result String
unfolding strip lower
validate_cookie_samesite value =
    let normalized = lower (strip value) in
    if normalized == "lax" || (normalized == "strict" || normalized == "none")
    then ok normalized
    else err Error.value_error

abbrev pub external_secure : Endpoints → Bool
external_secure e = or_else e.external_secure e.secure

-- the endpoint without HTTPS
unfoldable pub insecure_endpoint : Endpoints → Bool
unfolding lower starts_with
insecure_endpoint e =
    let external = lower e.external_endpoint in
    starts_with "http://" external || not (starts_with "https://" external || external_secure e)

unfoldable pub unreachable_endpoint : Endpoints → Bool
unfolding lower occurs
unreachable_endpoint e =
    let external = lower e.external_endpoint in
    occurs "localhost" external || occurs "127.0.0.1" external

abbrev add_if : Bool → String → List String → List String
add_if b error errors = if b then error ∷ errors else errors

unfoldable pub production_errors : Settings → List String
unfolding insecure_endpoint unreachable_endpoint contains count_chars
production_errors s = add_if (not s.cookie_secure) "COOKIE_SECURE must be true" (
    add_if s.debug "DEBUG must be false" (
      add_if (ltb (count_chars s.jwt_security_key) 32)
        "JWT_SECURITY_KEY must contain at least 32 characters"
        (add_if (s.db_password == "postgres") "DB_PASSWORD must not use the development default" (
          add_if (s.minio_access_key == "minioadmin" || s.minio_secret_key == "minioadmin")
            "MinIO credentials must not use the development defaults"
            (add_if (unreachable_endpoint s.minio)
              "MINIO_EXTERNAL_ENDPOINT must be browser-reachable"
              (add_if (insecure_endpoint s.minio) "MINIO_EXTERNAL_ENDPOINT must use HTTPS" (
                add_if (s.cors_allow_credentials && contains "*" s.cors_origins)
                  "credentialed CORS cannot allow every origin" [])))))))

-- `if errors: raise`
abbrev pub no_errors : Settings → List String → Result Settings
no_errors s [] = ok s
no_errors s (_ ∷ _) = err Error.value_error

unfoldable pub enforce_production_security : Settings → Result Settings
unfolding production_errors
enforce_production_security s =
    if s.environment == "production" then no_errors s (production_errors s) else ok s

-- the model's validator, where those of the fields pass
unfoldable pub validated : Settings → Result String → Result String → Result Settings
unfolding enforce_production_security
validated s (ok key) (ok samesite) =
    enforce_production_security (record s { jwt_security_key = key; cookie_samesite = samesite })
validated s (ok key) (err e) = err e
validated s (err e) _ = err e

unfoldable pub validate : Settings → Result Settings
unfolding check_default_key validate_cookie_samesite validated
validate s =
    validated s (check_default_key s.jwt_security_key) (validate_cookie_samesite s.cookie_samesite)

unfoldable pub effective_celery_broker_url : Settings → String
effective_celery_broker_url s = text_or s.celery_broker_url s.redis_url

unfoldable pub url_with : String → Settings → String
unfolding join str
url_with scheme s = join scheme (
    join "://" (
      join s.db_user (
        join ":" (
          join s.db_password
            (join "@" (join s.db_host (join ":" (join (str s.db_port) (join "/" s.db_name)))))))))

unfoldable pub database_url : Settings → String
unfolding url_with
database_url s = url_with "postgresql+asyncpg" s

unfoldable pub alembic_database_url : Settings → String
unfolding url_with
alembic_database_url s = url_with "postgresql+psycopg" s

-- the key before its length is checked
unfoldable pub key_source : Settings → Result String
unfolding strip
key_source s = elim s.config_encryption_key_file [
  | some (some text) ↦ ok (strip text)
  | some none ↦ err Error.value_error
  | none ↦ elim s.config_encryption_key [
    | some key ↦ ok (strip key)
    | none ↦
        if not (s.environment == "production")
        then ok "development-only-config-key-change-me"
        else err Error.value_error
  ]
]

abbrev pub long_enough : Result String → Result String
unfolding count_chars
long_enough (ok value) = if ltb (count_chars value) 32 then err Error.value_error else ok value
long_enough (err e) = err e

unfoldable pub effective_config_encryption_key : Settings → Result String
unfolding key_source count_chars
effective_config_encryption_key s = long_enough (key_source s)

pub record TestSettings : Type 0 where
  pub test_database_url : String
  pub db_name : Option String

-- `url.rsplit("/", 1)[-1].split("?", 1)[0]`
unfoldable pub database_name : String → String
unfolding after_last before_first
database_name url = before_first b'?' (after_last b'/' url url)

unfoldable pub require_isolated_database : String → Result String
unfolding database_name lower occurs
require_isolated_database value =
    if not (occurs "test" (lower (database_name value))) then err Error.value_error else ok value

unfoldable pub reject_production_database : TestSettings → Result TestSettings
unfolding database_name lower
reject_production_database t = elim t.db_name [
  | none ↦ ok t
  | some name ↦
      if not (is_empty name) && lower (database_name t.test_database_url) == lower name
      then err Error.value_error
      else ok t
]

unfoldable pub validate_test : TestSettings → Result TestSettings
unfolding require_isolated_database reject_production_database
validate_test t = elim (require_isolated_database t.test_database_url) [
  | err e ↦ err e
  | ok _ ↦ reject_production_database t
]

-- a secret that is missing or blank
abbrev pub is_blank : Option String → Bool
unfolding strip
is_blank none = true
is_blank (some secret) = is_empty (strip secret)

unfoldable pub validate_fuze_credentials : Settings → FuzeConfig → Result (Unit {0})
unfolding strip
validate_fuze_credentials s config =
    if config.providers.spotify
      && (is_empty (text_or s.spotify_client_id "") || is_blank s.spotify_client_secret)
    then err Error.value_error
    else if config.providers.yandex && is_blank s.yandex_access_token
    then err Error.value_error
    else ok tt
