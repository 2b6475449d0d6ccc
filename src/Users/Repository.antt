-- ===== src/Users/Repository.antt =====
-- modules/users/repository.py: the methods of `UserRepository`. None commits by itself. Rows are in the
-- order of their identifiers, which a sequence draws. How ILIKE compares a column with a pattern is an
-- argument, and so is the random identifier of an access key.
use fuze.Prelude.{
  ℕ, String, Bool, true, false, ◌&&◌, ◌||◌, not, Option, none, some, List, [], ◌∷◌, ◌++◌, map,
  length, take, drop, ◌==◌, is_equal, nat_eq, string_eq, if◌then◌else◌,
}
use fuze.Prelude.Texts.{is_empty, join}
use fuze.Core.Config.{UserRole, is_admin}
use fuze.Core.Errors.{Error}
use fuze.Database.Exec.{Exec, pure, gets, raise_if, modify, next_id, ◌>>=◌, ◌>>◌}
use fuze.Database.Sql.{update_where, delete_where, select_where, select_one, exists_row}
use fuze.Auth.Models.{AccessKey, AuthSession}
use fuze.Admin.Models.{InstanceSettings, InstanceSettingsAudit}
use fuze.Playlists.Models.{Playlist, PlaylistItem}
use fuze.Users.Models.{User}

abbrev pub on_users : (List User → List User) → Exec (Unit {0})
on_users f = modify (λ s. record s { users = f s.users })

abbrev pub is_user : ℕ → User → Bool
is_user i u = u.id == i

abbrev pub has_email : String → User → Bool
has_email email u = is_equal u.email email

unfoldable pub get_user_by_email : String → Exec (Option User)
get_user_by_email email = gets (λ s. select_one (has_email email) s.users)

unfoldable pub get_user_by_id : ℕ → Exec (Option User)
get_user_by_id user_id = gets (λ s. select_one (is_user user_id) s.users)

-- `column ILIKE pattern`, where the column may be NULL
abbrev pub ilike_column : (String → String → Bool) → Option String → String → Bool
ilike_column ilike none pattern = false
ilike_column ilike (some s) pattern = ilike s pattern

-- the WHERE clause of `get_users` and `count_users`
unfoldable pub matches : (String → String → Bool) → String → User → Bool
matches ilike search u =
    is_empty search
    || (ilike u.name (join "%" (join search "%"))
        || ilike_column ilike u.email (join "%" (join search "%")))

unfoldable pub get_users : (String → String → Bool) → ℕ → ℕ → String → Exec (List User)
unfolding matches
get_users ilike skip limit search =
    gets (λ s. take limit (drop skip (select_where (matches ilike search) s.users)))

unfoldable pub count_users : (String → String → Bool) → String → Exec ℕ
unfolding matches
count_users ilike search = gets (λ s. length (select_where (matches ilike search) s.users))

-- the unique index on `email`, which NULL passes
abbrev pub email_taken : Option String → List User → Bool
email_taken none us = false
email_taken (some e) us = exists_row (has_email e) us

unfoldable pub create_user : Option String → String → Option String → UserRole → Exec User
create_user email name password role = do
  id ← next_id
  let new_user : User = record {
    id = id;
    role = role;
    email = email;
    name = name;
    password = password;
    is_active = true;
  }
  taken ← gets (λ s. email_taken email s.users)
  raise_if taken Error.integrity_error
  on_users (λ us. us ++ new_user ∷ [])
  pure new_user

-- the primary key, the unique hash and the foreign key are checked by the flush
unfoldable pub create_access_key : ℕ → ℕ → String → String → Exec AccessKey
create_access_key uuid user_id label key_hash = do
  let access_key : AccessKey = record {
    id = uuid;
    user_id = user_id;
    label = label;
    key_hash = key_hash;
    last_used_at = none;
    revoked_at = none;
  }
  taken ←
      gets
        (λ s. exists_row (λ (k : AccessKey). k.id == uuid || k.key_hash == key_hash) s.access_keys)
  owner ← gets (λ s. exists_row (is_user user_id) s.users)
  raise_if (taken || not owner) Error.integrity_error
  modify (λ s. record s { access_keys = s.access_keys ++ access_key ∷ [] })
  pure access_key

-- the flush of a user that was changed: the row is written, its e-mail address under the unique index
unfoldable pub update_user : User → Exec (Unit {0})
update_user user = do
  taken ← gets (λ s. email_taken user.email (delete_where (is_user user.id) s.users))
  raise_if taken Error.integrity_error
  on_users (update_where (is_user user.id) λ _. user)

-- ON DELETE SET NULL of a reference to a user
abbrev pub cleared : ℕ → Option ℕ → Option ℕ
cleared user_id none = none
cleared user_id (some i) = if i == user_id then none else some i

abbrev pub clear_settings : ℕ → Option InstanceSettings → Option InstanceSettings
clear_settings user_id none = none
clear_settings user_id (some s) = some (record s { updated_by = cleared user_id s.updated_by })

-- an item of a playlist that the user owns
abbrev pub in_owned : ℕ → List Playlist → PlaylistItem → Bool
in_owned user_id ps it = exists_row (λ p. p.owner_id == user_id && p.id == it.playlist_id) ps

-- DELETE of a user, with what its foreign keys cascade to
unfoldable pub delete_user : User → Exec (Unit {0})
delete_user user = modify λ s. record s {
  users = delete_where (is_user user.id) s.users;
  access_keys = delete_where (λ (k : AccessKey). k.user_id == user.id) s.access_keys;
  auth_sessions = delete_where (λ (a : AuthSession). a.user_id == user.id) s.auth_sessions;
  playlists = delete_where (λ (p : Playlist). p.owner_id == user.id) s.playlists;
  playlist_items = delete_where (in_owned user.id s.playlists) s.playlist_items;
  instance_settings = clear_settings user.id s.instance_settings;
  audits =
      map (λ (a : InstanceSettingsAudit). record a { actor_id = cleared user.id a.actor_id })
        s.audits;
}

-- role = ADMIN and is_active
unfoldable pub is_active_admin : User → Bool
is_active_admin u = is_admin u.role && u.is_active

abbrev pub user_ids : List User → List ℕ
user_ids = map (λ u. u.id)

unfoldable pub lock_active_admin_ids : Exec (List ℕ)
unfolding is_active_admin
lock_active_admin_ids = gets (λ s. user_ids (select_where is_active_admin s.users))
