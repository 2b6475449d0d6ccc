-- ===== src/Users/Outcomes.antt =====
-- How the statements of modules/users/repository.py and the guard of the administrators end.
use fuze.Prelude.{
  ◌&&◌, ℕ, suc, String, ◌≡◌, refl, Bool, true, false, ◌||◌, not, Option, none, List, [], ◌∷◌, ◌++◌,
  inl, inr, ◌⊎◌, ◌==◌, nat_eq, string_eq,
}
use fuze.Core.Config.{UserRole}
use fuze.Core.Errors.{Error}
use fuze.Core.Result.{ok, err}
use fuze.Database.Tables.{Tables, Db}
use fuze.Database.Sql.{update_where, delete_where, exists_row}
use fuze.Users.Models.{User}
use fuze.Auth.Models.{AccessKey}
use fuze.Users.Repository
use fuze.Users.Repository.{is_user, lock_active_admin_ids, create_access_key}
use fuze.Users.Service.{ensure_not_last_active_admin, only_if}
use fuze.Users.Admins.{is_last}

-- the account that an INSERT adds
abbrev pub new_user : ℕ → Option String → String → Option String → UserRole → User
new_user id email name password role = record {
  id = id;
  role = role;
  email = email;
  name = name;
  password = password;
  is_active = true;
}

-- the database with new rows in `users` and the next identifier drawn
abbrev pub with_user : Db → List User → Db
with_user d us = record d { sequence = suc d.sequence; current = record d.current { users = us } }

module _ (email : Option String) (name : String) (password : Option String) (role : UserRole)
    (d : Db) where
  pub insert-free :
      Repository.email_taken email d.current.users ≡ false
      → Repository.create_user email name password role d ≡ (
        ok (new_user d.sequence email name password role),
        with_user d (d.current.users ++ new_user d.sequence email name password role ∷ []),
      )
  unfolding Repository.create_user
  insert-free free = rw free refl

  pub insert-taken :
      Repository.email_taken email d.current.users ≡ true
      → Repository.create_user email name password role d
        ≡ (err Error.integrity_error, record d { sequence = suc d.sequence })
  unfolding Repository.create_user
  insert-taken taken = rw taken refl

module _ (v : User) (d : Db) where
  pub write-free :
      Repository.email_taken v.email (delete_where (is_user v.id) d.current.users) ≡ false
      → Repository.update_user v d ≡ (
        ok tt,
        record d {
          current = record d.current {
            users = update_where (is_user v.id) (λ _. v) d.current.users;
          };
        },
      )
  unfolding Repository.update_user
  write-free free = rw free refl

  pub write-taken :
      Repository.email_taken v.email (delete_where (is_user v.id) d.current.users) ≡ true
      → Repository.update_user v d ≡ (err Error.integrity_error, d)
  unfolding Repository.update_user
  write-taken taken = rw taken refl

-- the INSERT of an access key conflicts
abbrev pub key_clash : ℕ → ℕ → String → Tables → Bool
key_clash uuid user_id key_hash s =
    exists_row (λ (k : AccessKey). k.id == uuid || k.key_hash == key_hash) s.access_keys
    || not (exists_row (is_user user_id) s.users)

abbrev pub new_key : ℕ → ℕ → String → String → AccessKey
new_key uuid user_id label key_hash = record {
  id = uuid;
  user_id = user_id;
  label = label;
  key_hash = key_hash;
  last_used_at = none;
  revoked_at = none;
}

module _ (uuid user_id : ℕ) (label key_hash : String) (d : Db) where
  pub key-free :
      key_clash uuid user_id key_hash d.current ≡ false
      → create_access_key uuid user_id label key_hash d ≡ (
        ok (new_key uuid user_id label key_hash),
        record d {
          current = record d.current {
            access_keys = d.current.access_keys ++ new_key uuid user_id label key_hash ∷ [];
          };
        },
      )
  unfolding create_access_key
  key-free free = rw free refl

  pub key-taken :
      key_clash uuid user_id key_hash d.current ≡ true
      → create_access_key uuid user_id label key_hash d ≡ (err Error.integrity_error, d)
  unfolding create_access_key
  key-taken taken = rw taken refl

-- `_ensure_not_last_active_admin`, where it is called
abbrev pub last_admin : Error
last_admin = Error.http_exception 409 "The last active administrator cannot be changed"

pub guard-passed :
    (b : Bool) (u : User) (d : Db)
    → (b && is_last u d.current.users) ≡ false
    → only_if b (ensure_not_last_active_admin u.id) d ≡ (ok tt, d)
unfolding ensure_not_last_active_admin lock_active_admin_ids
guard-passed true u d h = rw h refl
guard-passed false u d h = refl

pub guard-failed :
    (b : Bool) (u : User) (d : Db)
    → (b && is_last u d.current.users) ≡ true
    → only_if b (ensure_not_last_active_admin u.id) d ≡ (err last_admin, d)
unfolding ensure_not_last_active_admin lock_active_admin_ids
guard-failed true u d h = rw h refl
guard-failed false u d h = absurd (cc)

pub passed : (b l : Bool) → (b && l) ≡ false → (b ≡ false) ⊎ (l ≡ false)
passed true l h = inr h
passed false l h = inl refl
