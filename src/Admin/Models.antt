-- ===== src/Admin/Models.antt =====
-- modules/admin/models.py: the `instance_settings` row, the `instance_secrets` table and the audit
-- log.
use fuze.Prelude.{ℕ, String, Option, List}
use fuze.Core.Config.{FuzeConfig}
use fuze.Admin.Json.{Change}

pub record InstanceSettings : Type 0 where
  pub version : ℕ
  pub settings : FuzeConfig
  pub updated_by : Option ℕ

pub record InstanceSecret : Type 0 where
  pub name : String
  pub ciphertext : String

pub record InstanceSettingsAudit : Type 0 where
  pub actor_id : Option ℕ
  pub config_version : ℕ
  pub diff : List (String × Change)
