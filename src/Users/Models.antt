-- ===== src/Users/Models.antt =====
-- modules/users/models.py: the `users` table.
use fuze.Prelude.{ℕ, String, Bool, Option}
use fuze.Core.Config.{UserRole}

pub record User : Type 0 where
  pub id : ℕ
  pub role : UserRole
  pub email : Option String
  pub name : String
  pub password : Option String
  pub is_active : Bool
