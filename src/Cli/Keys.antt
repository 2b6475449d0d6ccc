-- ===== src/Cli/Keys.antt =====
-- cli/commands/users.py: the commands on users and their access keys.
use fuze.Prelude.{
  ℕ, String, Bool, true, false, ◌&&◌, not, Option, none, some, List, map, ltb, ◌==◌, is_none,
  is_some, nat_eq, string_eq,
}
use fuze.Prelude.Texts.{strip, join, count_chars}
use fuze.Core.Config.{UserRole}
use fuze.Database.Exec.{gets, modify}
use fuze.Database.Sql.{update_where, select_where, select_one}
use fuze.Users.Models.{User}
use fuze.Users.Repository
use fuze.Users.Repository.{is_user, create_access_key}
use fuze.Users.Service.{Crypto}
use fuze.Auth.Models.{AccessKey}
use fuze.Auth.Repository.{on_sessions, of_live_key}
use fuze.Cli.Command.{Command, pure, or_fail, fail_if, statement, transaction, ◌>>=◌, ◌>>◌}

-- `role.upper()`, after the test `role not in ("admin", "user")`
unfoldable pub read_role : String → Option UserRole
read_role role = elim (role == "admin") [
  | true ↦ some UserRole.admin
  | false ↦ elim (role == "user") [ true ↦ some UserRole.user | false ↦ none ]
]

-- `create`: the connection is committed by hand at the end
unfoldable pub create : Crypto → String → String → String → String → String → Command User
unfolding read_role
create c email role name password password_confirm = do
  checked ← or_fail (read_role role) "Role must be 'admin' or 'user'" 1
  fail_if (not (password == password_confirm)) "Passwords do not match" 1
  fail_if (ltb (count_chars password) 6) "Password must be at least 6 characters" 1
  transaction (do
    existing ← statement (Repository.get_user_by_email email)
    fail_if (is_some existing) "User already exists" 1
    statement (Repository.create_user (some email) name (some (c.hash password)) checked))

-- `typer.BadParameter` ends with the code 2
unfoldable pub create_key_user :
    Crypto → ℕ → String → String → String → String → Command (User × String)
unfolding read_role
create_key_user c key_id token name label role = do
  checked ← or_fail (read_role role) "Role must be 'admin' or 'user'" 2
  transaction (do
    user ← statement (Repository.create_user none (strip name) none checked)
    _ ← statement (create_access_key key_id user.id (strip label) (c.digest (join "fuze_" token)))
    pure (user, join "fuze_" token))

unfoldable pub issue_key : Crypto → ℕ → String → ℕ → String → Command (AccessKey × String)
issue_key c key_id token user_id label = transaction (do
  found ← statement (gets (λ s. select_one (is_user user_id) s.users))
  fail_if (is_none found) "User does not exist" 2
  key ← statement (create_access_key key_id user_id (strip label) (c.digest (join "fuze_" token)))
  pure (key, join "fuze_" token))

-- the columns that are printed: the digest is not among them
abbrev pub key_columns : AccessKey → ℕ × String × Option ℕ × Option ℕ
key_columns k = (k.id, k.label, k.last_used_at, k.revoked_at)

-- the rows in the order of their creation
unfoldable pub list_keys : ℕ → Command (List (ℕ × String × Option ℕ × Option ℕ))
list_keys user_id = statement (
    gets
      (λ s. map key_columns (select_where (λ (k : AccessKey). k.user_id == user_id) s.access_keys)))

-- id = :id AND revoked_at IS NULL
abbrev pub is_live_key : ℕ → AccessKey → Bool
is_live_key key_id k = k.id == key_id && is_none k.revoked_at

unfoldable pub revoke_key : ℕ → ℕ → Command (Unit {0})
unfolding of_live_key
revoke_key now key_id = transaction (do
  changed ← statement (gets (λ s. select_one (is_live_key key_id) s.access_keys))
  statement (
      modify λ s. record s {
        access_keys =
            update_where (is_live_key key_id) (λ k. record k { revoked_at = some now })
              s.access_keys;
      })
  fail_if (is_none changed) "Active access key not found" 2
  statement
      (on_sessions (update_where (of_live_key key_id) λ a. record a { revoked_at = some now })))
