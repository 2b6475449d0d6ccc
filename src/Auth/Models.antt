-- ===== src/Auth/Models.antt =====
-- modules/auth/models.py: the `access_keys` and `auth_sessions` tables. A UUID is a number, and a
-- timestamp is a number of seconds.
use fuze.Prelude.{ℕ, String, Option}

pub record AccessKey : Type 0 where
  pub id : ℕ
  pub user_id : ℕ
  pub label : String
  pub key_hash : String
  pub last_used_at : Option ℕ
  pub revoked_at : Option ℕ

pub record AuthSession : Type 0 where
  pub id : ℕ
  pub user_id : ℕ
  pub access_key_id : Option ℕ
  pub refresh_jti_hash : String
  pub expires_at : ℕ
  pub revoked_at : Option ℕ
  pub replaced_by : Option ℕ
