-- ===== src/Cli/Rescue.antt =====
-- cli/commands/rescue.py: the commands that recover an instance. What the operator types, the libraries
-- and the clock are arguments; `valid_email` is pydantic's EmailStr.
use fuze.Prelude.{
  ℕ, String, Bool, false, ◌&&◌, not, Option, none, some, length, leb, ◌==◌, is_equal, is_none,
  nat_eq, string_eq, if◌then◌else◌,
}
use fuze.Prelude.Texts.{strip, lower, join, count_chars}
use fuze.Core.Config.{UserRole, is_admin}
use fuze.Database.Exec.{gets, modify}
use fuze.Database.Sql.{update_where, select_where, select_one}
use fuze.Users.Models.{User}
use fuze.Users.Repository
use fuze.Users.Repository.{is_user, on_users, is_active_admin, create_access_key}
use fuze.Users.Service.{Crypto}
use fuze.Auth.Models.{AccessKey, AuthSession}
use fuze.Auth.Repository.{on_sessions}
use fuze.Cli.Command.{Command, pure, or_fail, fail_if, statement, transaction, ◌>>=◌, ◌>>◌}

-- what `_password` reads: a line of the standard input, or the answers to its two prompts
pub data Typed : Type 0 where
  line : String → Typed
  prompted : String → String → Typed

abbrev in_range : ℕ → ℕ → String → Option String
in_range least most value =
    if leb least (count_chars value) && leb (count_chars value) most then some value else none

-- `_password`; the line comes without its end
unfoldable pub read_password : Typed → Option String
read_password (Typed.line value) = in_range 8 128 value
read_password (Typed.prompted value again) = if value == again then in_range 8 128 value else none

-- the display name of `bootstrap_admin`, and the label of `reset_access_key`
unfoldable pub trimmed : String → Option String
trimmed value = in_range 1 100 (strip value)

unfoldable pub bootstrap_admin :
    (String → Option String) → Crypto → String → String → Typed → Command User
bootstrap_admin valid_email c email name typed = do
  address ← or_fail (valid_email email) "invalid_input" 2
  display_name ← or_fail (trimmed name) "invalid_input" 2
  password ← or_fail (read_password typed) "invalid_input" 2
  transaction (do
    count ← statement (gets (λ s. length (select_where is_active_admin s.users)))
    fail_if (not (count == 0)) "admin_exists" 3
    statement (
        Repository.create_user (some (lower address)) display_name (some (c.hash password))
          UserRole.admin))

-- UPDATE auth_sessions SET revoked_at=now() WHERE user_id=:user_id AND revoked_at IS NULL
abbrev pub of_user : ℕ → AuthSession → Bool
of_user user_id a = a.user_id == user_id && is_none a.revoked_at

unfoldable pub revoke_sessions : ℕ → ℕ → Command (Unit {0})
revoke_sessions now user_id =
    statement (on_sessions (update_where (of_user user_id) λ a. record a { revoked_at = some now }))

-- email=:email AND role='ADMIN' AND is_active
abbrev pub is_admin_named : String → User → Bool
is_admin_named email u = is_equal u.email email && (is_admin u.role && u.is_active)

unfoldable pub reset_admin_password :
    (String → Option String) → Crypto → ℕ → String → Typed → Command User
unfolding revoke_sessions
reset_admin_password valid_email c now email typed = do
  address ← or_fail (valid_email email) "invalid_input" 2
  password ← or_fail (read_password typed) "invalid_input" 2
  transaction (do
    found ← statement (gets (λ s. select_one (is_admin_named (lower address)) s.users))
    statement (
        on_users (
          update_where (is_admin_named (lower address))
            λ u. record u { password = some (c.hash password) }))
    user ← or_fail found "admin_not_found" 3
    revoke_sessions now user.id
    pure user)

-- UPDATE access_keys SET revoked_at=now() WHERE user_id=:user_id AND revoked_at IS NULL
unfoldable pub revoke_keys : ℕ → ℕ → Command (Unit {0})
revoke_keys now user_id = statement (
    modify λ s. record s {
      access_keys =
          update_where (λ (k : AccessKey). k.user_id == user_id && is_none k.revoked_at)
            (λ k. record k { revoked_at = some now }) s.access_keys;
    })

-- the statements of `reset_access_key` once the user was found: the key, and its secret
unfoldable pub replace_key : Crypto → ℕ → ℕ → String → ℕ → String → Command (AccessKey × String)
unfolding revoke_keys revoke_sessions
replace_key c now key_id token user_id label = do
  revoke_keys now user_id
  revoke_sessions now user_id
  key ← statement (create_access_key key_id user_id label (c.digest (join "fuze_" token)))
  pure (key, join "fuze_" token)

-- `token` is what `secrets.token_urlsafe(32)` gives
unfoldable pub reset_access_key :
    Crypto → ℕ → ℕ → String → ℕ → String → Bool → Command (AccessKey × String)
reset_access_key c now key_id token user_id label confirmed = do
  name ← or_fail (trimmed label) "invalid_input" 2
  fail_if (not confirmed) "cancelled" 2
  transaction (do
    found ← statement (gets (λ s. select_one (is_user user_id) s.users))
    user ← or_fail found "user_not_found" 3
    fail_if (not user.is_active) "user_inactive" 3
    replace_key c now key_id token user_id name)

-- lower(email)=lower(:email) AND is_active
abbrev pub is_active_named : String → User → Bool
is_active_named email u =
    elim u.email [ none ↦ false | some e ↦ lower e == lower email ] && u.is_active

unfoldable pub promote_user : String → Bool → Command User
promote_user email confirmed = do
  fail_if (not confirmed) "cancelled" 2
  transaction (do
    found ← statement (gets (λ s. select_one (is_active_named email) s.users))
    statement
        (on_users (update_where (is_active_named email) λ u. record u { role = UserRole.admin }))
    or_fail found "user_not_found" 3)
