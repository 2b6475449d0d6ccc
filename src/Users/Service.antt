-- ===== src/Users/Service.antt =====
-- modules/users/service.py: `UserService`. Argon2, SHA-256, the random secret and ILIKE are arguments.
use fuze.Prelude.{
  ℕ, ◌*◌, ◌-◌, String, Bool, true, false, ◌&&◌, ◌||◌, not, Option, none, some, List, length, leb,
  is_some,
}
use fuze.Prelude.Texts.{join, strip, lower, take_chars}
use fuze.Core.Config.{UserRole, is_admin}
use fuze.Core.Errors.{Error}
use fuze.Database.Exec.{Exec, pure, raise_if, commit, on_integrity_error, ◌>>=◌, ◌>>◌}
use fuze.Tracks.Rows.{contains_id}
use fuze.Users.Models.{User}
use fuze.Users.Repository
use fuze.Users.Repository.{
  is_active_admin, get_user_by_id, lock_active_admin_ids, create_access_key,
}

-- what the service takes from the libraries
pub record Crypto : Type 0 where
  -- `hash_password`: Argon2
  pub hash : String → String
  -- `_ph.verify`
  pub verify : String → String → Bool
  -- `sha256(…).hexdigest()`
  pub digest : String → String

unfoldable pub normalize_email : String → String
normalize_email email = lower (strip email)

unfoldable pub get_user_by_email : String → Exec (Option User)
unfolding normalize_email
get_user_by_email email = Repository.get_user_by_email (normalize_email email)

-- `(page - 1) * size`; the router has checked that the page is at least 1
unfoldable pub list_users : (String → String → Bool) → ℕ → ℕ → String → Exec (List User × ℕ)
list_users ilike page size search = do
  let text = take_chars 100 (strip search)
  users ← Repository.get_users ilike ((page - 1) * size) size text
  total ← Repository.count_users ilike text
  pure (users, total)

unfoldable pub create_with : Crypto → String → String → String → UserRole → Exec User
create_with c email name password role =
    on_integrity_error
      (do
        user ← Repository.create_user (some email) (strip name) (some (c.hash password)) role
        commit
        pure user)
      Error.user_already_exists

unfoldable pub create_user : Crypto → String → String → String → UserRole → Exec User
unfolding normalize_email
create_user c email name password role = do
  user_exists ← Repository.get_user_by_email (normalize_email email)
  raise_if (is_some user_exists) Error.user_already_exists
  create_with c (normalize_email email) name password role

unfoldable pub register : Crypto → String → String → String → Exec User
register c email name password = create_user c email name password UserRole.user

-- `token` is what `secrets.token_urlsafe(32)` gives
unfoldable pub create_key_user :
    Crypto → ℕ → String → String → UserRole → String → Exec (User × String)
create_key_user c uuid token name role label =
    on_integrity_error
      (do
        let secret = join "fuze_" token
        user ← Repository.create_user none (strip name) none role
        _ ← create_access_key uuid user.id (strip label) (c.digest secret)
        commit
        pure (user, secret))
      Error.user_already_exists

-- `UserUpdate`: the outer option says whether a field was set, the inner one whether it is None
pub record UserUpdate : Type 0 where
  pub name : Option (Option String)
  pub email : Option (Option String)
  pub password : Option (Option String)
  pub role : Option (Option UserRole)
  pub is_active : Option (Option Bool)

-- update_data.get("role", ADMIN) != ADMIN
abbrev pub drops_role : Option (Option UserRole) → Bool
drops_role none = false
drops_role (some none) = true
drops_role (some (some role)) = not (is_admin role)

-- update_data.get("is_active", True) is False
abbrev pub deactivates : Option (Option Bool) → Bool
deactivates (some (some false)) = true
deactivates _ = false

unfoldable pub removes_admin : User → UserUpdate → Bool
unfolding is_active_admin
removes_admin u fields =
    is_active_admin u && (drops_role fields.role || deactivates fields.is_active)

unfoldable pub ensure_not_last_active_admin : ℕ → Exec (Unit {0})
ensure_not_last_active_admin user_id = do
  active_admin_ids ← lock_active_admin_ids
  raise_if (contains_id active_admin_ids user_id && leb (length active_admin_ids) 1)
      (Error.http_exception 409 "The last active administrator cannot be changed")

-- `if value is not None: setattr(user, key, value)`
abbrev pub set_to {ℓ} : {A : Type ℓ} → Option (Option A) → A → A
set_to (some (some new)) old = new
set_to _ old = old

-- the same for a nullable column, through `f`
abbrev pub set_some : (String → String) → Option (Option String) → Option String → Option String
set_some f (some (some new)) old = some (f new)
set_some f _ old = old

unfoldable pub changed_user : Crypto → UserUpdate → User → User
unfolding normalize_email
changed_user c fields u = record u {
  role = set_to fields.role u.role;
  email = set_some normalize_email fields.email u.email;
  name = set_to fields.name u.name;
  password = set_some c.hash fields.password u.password;
  is_active = set_to fields.is_active u.is_active;
}

-- `if condition: await …`
abbrev pub only_if : Bool → Exec (Unit {0}) → Exec (Unit {0})
only_if true m = m
only_if false m = pure tt

unfoldable pub update_found : Crypto → UserUpdate → Option User → Exec (Option User)
update_found c fields none = pure none
update_found c fields (some u) = do
  only_if (removes_admin u fields) (ensure_not_last_active_admin u.id)
  on_integrity_error
      (do
        Repository.update_user (changed_user c fields u)
        commit
        pure (some (changed_user c fields u)))
      Error.user_already_exists

unfoldable pub update_user : Crypto → ℕ → UserUpdate → Exec (Option User)
update_user c user_id fields = do user ← get_user_by_id user_id; update_found c fields user

unfoldable pub delete_found : Option User → Exec Bool
delete_found none = pure false
delete_found (some u) = do
  only_if (is_active_admin u) (ensure_not_last_active_admin u.id)
  Repository.delete_user u
  commit
  pure true

unfoldable pub delete_user : ℕ → Exec Bool
delete_user user_id = do user ← get_user_by_id user_id; delete_found user
