-- ===== src/Core/SettingsTests.antt =====
-- The settings of a production instance, and inputs at the edge of their validators.
use fuze.Prelude.{◌≡◌, refl, true, false, none, some, [], ◌∷◌, string_eq}
use fuze.Prelude.Texts.{lower, starts_with}
use fuze.Core.Result.{ok}
use fuze.Core.Settings.{
  Settings, validate, database_url, effective_config_encryption_key, database_name,
  insecure_endpoint,
}
use fuze.Core.Settings.Hardening.{validate-endpoint_url}
use fuze.Integrations.Storage.{Endpoints, endpoint_url}

abbrev minio : Endpoints
minio = record {
  endpoint = "minio:9000";
  external_endpoint = "https://media.fuze.example";
  secure = false;
  external_secure = none;
}

abbrev settings : Settings
settings = record {
  environment = "production";
  db_user = "fuze";
  db_password = "long-secret";
  db_host = "db";
  db_port = 5432;
  db_name = "fuze";
  yandex_access_token = none;
  spotify_client_id = none;
  spotify_client_secret = none;
  redis_url = "redis://redis:6379/0";
  jwt_security_key = "0123456789abcdef0123456789abcdef";
  config_encryption_key = some "  0123456789abcdef0123456789abcdef ";
  config_encryption_key_file = none;
  cors_origins = "https://fuze.example" ∷ [];
  cors_allow_credentials = true;
  cookie_secure = true;
  cookie_samesite = " Lax ";
  minio_access_key = "access";
  minio_secret_key = "secret";
  minio = minio;
  celery_broker_url = none;
  debug = false;
}

accepted : validate settings ≡ ok (record settings { cookie_samesite = "lax" })
unfolding validate
accepted = refl

lower_endpoint : lower minio.external_endpoint ≡ minio.external_endpoint
unfolding lower
lower_endpoint = refl

validate-endpoint_url_example :
    starts_with "https://" (endpoint_url (record settings { cookie_samesite = "lax" }).minio true)
    ≡ true
validate-endpoint_url_example =
    validate-endpoint_url settings (record settings { cookie_samesite = "lax" }) refl lower_endpoint
      accepted

database : database_url settings ≡ "postgresql+asyncpg://fuze:long-secret@db:5432/fuze"
unfolding database_url
database = refl

encryption_key : effective_config_encryption_key settings ≡ ok "0123456789abcdef0123456789abcdef"
unfolding effective_config_encryption_key
encryption_key = refl

-- The check of the scheme ignores case, and the endpoint's URL does not.
abbrev shouted : Endpoints
shouted = record minio { external_endpoint = "HTTPS://media.fuze.example" }

shouted_passes : insecure_endpoint shouted ≡ false
unfolding insecure_endpoint
shouted_passes = refl

shouted_url : endpoint_url shouted true ≡ "http://HTTPS://media.fuze.example"
unfolding endpoint_url
shouted_url = refl

-- A slash in the query hides the name of the database.
hidden_name : database_name "postgresql+asyncpg://db/fuze?sslrootcert=/etc/test" ≡ "test"
unfolding database_name
hidden_name = refl
