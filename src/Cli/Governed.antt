-- ===== src/Cli/Governed.antt =====
-- The accounts of an instance under the commands of the CLI and the requests of the service, in any
-- order.
use fuze.Prelude.{
  ℕ, String, refl, Bool, true, false, Option, none, some, arith, ltb, not, ◌==◌, nat_eq, string_eq,
}
use fuze.Core.Config.{UserRole}
use fuze.Prelude.Texts.{lower, count_chars}
use fuze.Database.Tables.{Db}
use fuze.Users.Models.{User}
use fuze.Users.Repository
use fuze.Users.Repository.{is_active_admin}
use fuze.Users.Service.{Crypto}
use fuze.Users.Managed
use fuze.Users.Managed.{IsGoverned, Step-IsGoverned}
use fuze.Cli.Command.{Command, ◌>>=◌, ◌>>◌, or_fail, fail_if}
use fuze.Cli.Keeps.{
  update_where-IsManaged, bind-Keeps, pure-Keeps, fail_if-Keeps, or_fail-Keeps, gets-Keeps,
  modify-Keeps, on_users-Keeps, create_user-Keeps, create_access_key-Keeps, transaction-IsGoverned,
}
use fuze.Cli.Rescue.{
  Typed, bootstrap_admin, reset_admin_password, reset_access_key, promote_user, read_password,
  trimmed, is_admin_named, is_active_named, revoke_sessions, revoke_keys, replace_key,
}
use fuze.Cli.Keys
use fuze.Cli.Keys.{issue_key, revoke_key, read_role}

-- a step that ends early leaves the database alone
module _ {ℓ κ} {A : Type ℓ} {B : Type κ} (d : Db) (h : IsGoverned d) where
  or_fail-IsGoverned :
      (o : Option A) (code : String) (n : ℕ) (k : A → Command B)
      → ((a : A) → IsGoverned (k a d).1)
      → IsGoverned ((or_fail o code n >>= k) d).1
  unfolding ◌>>=◌
  or_fail-IsGoverned none code n k next = h
  or_fail-IsGoverned (some a) code n k next = next a

module _ {κ} {B : Type κ} (d : Db) (h : IsGoverned d) where
  fail_if-IsGoverned :
      (c : Bool) (code : String) (n : ℕ) (k : Command B)
      → IsGoverned (k d).1
      → IsGoverned ((fail_if c code n >> k) d).1
  unfolding ◌>>=◌
  fail_if-IsGoverned true code n k next = h
  fail_if-IsGoverned false code n k next = next

module _ (d : Db) (h : IsGoverned d) where
  promote_user-IsGoverned :
      (email : String) (confirmed : Bool) → IsGoverned (promote_user email confirmed d).1
  unfolding promote_user is_active_admin
  promote_user-IsGoverned email confirmed = fail_if-IsGoverned d h (not confirmed) "cancelled" 2 _ (
      transaction-IsGoverned _ d
        (bind-Keeps _ _ (gets-Keeps _) λ found.
          bind-Keeps _ _
            (on_users-Keeps _ (
              update_where-IsManaged (is_active_named email)
                (λ (u : User). record u { role = UserRole.admin }) (λ u. refl)
                (λ u a. ground (arith, a))))
            λ _. or_fail-Keeps found "user_not_found" 3)
        h)

  bootstrap_admin-IsGoverned :
      (valid : String → Option String) (c : Crypto) (email name : String) (typed : Typed)
      → IsGoverned (bootstrap_admin valid c email name typed d).1
  unfolding bootstrap_admin
  bootstrap_admin-IsGoverned valid c email name typed =
      or_fail-IsGoverned d h (valid email) "invalid_input" 2 _ λ address.
        or_fail-IsGoverned d h (trimmed name) "invalid_input" 2 _ λ display_name.
          or_fail-IsGoverned d h (read_password typed) "invalid_input" 2 _ λ password.
            transaction-IsGoverned _ d
              (bind-Keeps _ _ (gets-Keeps _) λ n.
                bind-Keeps _ _ (fail_if-Keeps _ "admin_exists" 3)
                  λ _. create_user-Keeps _ display_name _ UserRole.admin)
              h

  reset_admin_password-IsGoverned :
      (valid : String → Option String) (c : Crypto) (now : ℕ) (email : String) (typed : Typed)
      → IsGoverned (reset_admin_password valid c now email typed d).1
  unfolding reset_admin_password revoke_sessions is_active_admin
  reset_admin_password-IsGoverned valid c now email typed =
      or_fail-IsGoverned d h (valid email) "invalid_input" 2 _ λ address.
        or_fail-IsGoverned d h (read_password typed) "invalid_input" 2 _ λ password.
          transaction-IsGoverned _ d
            (bind-Keeps _ _ (gets-Keeps _) λ found.
              bind-Keeps _ _
                (on_users-Keeps _ (
                  update_where-IsManaged (is_admin_named (lower address))
                    (λ (u : User). record u { password = some (c.hash password) }) (λ u. refl)
                    (λ u a. a)))
                λ _.
                  bind-Keeps _ _ (or_fail-Keeps found "admin_not_found" 3)
                    λ user. bind-Keeps _ _ (modify-Keeps _ (λ s. refl)) λ _. pure-Keeps user)
            h

  reset_access_key-IsGoverned :
      (c : Crypto) (now key_id : ℕ) (token : String) (user_id : ℕ) (label : String)
      (confirmed : Bool)
      → IsGoverned (reset_access_key c now key_id token user_id label confirmed d).1
  unfolding reset_access_key replace_key revoke_keys revoke_sessions
  reset_access_key-IsGoverned c now key_id token user_id label confirmed =
      or_fail-IsGoverned d h (trimmed label) "invalid_input" 2 _ λ name.
        fail_if-IsGoverned d h (not confirmed) "cancelled" 2 _ (
          transaction-IsGoverned _ d
            (bind-Keeps _ _ (gets-Keeps _) λ found.
              bind-Keeps _ _ (or_fail-Keeps found "user_not_found" 3) λ user.
                bind-Keeps _ _ (fail_if-Keeps _ "user_inactive" 3) λ _.
                  bind-Keeps _ _ (modify-Keeps _ (λ s. refl)) λ _.
                    bind-Keeps _ _ (modify-Keeps _ (λ s. refl)) λ _.
                      bind-Keeps _ _ (create_access_key-Keeps key_id user_id name _)
                        λ key. pure-Keeps _)
            h)

  create-IsGoverned :
      (c : Crypto) (email role name password again : String)
      → IsGoverned (Keys.create c email role name password again d).1
  unfolding Keys.create Repository.get_user_by_email
  create-IsGoverned c email role name password again =
      or_fail-IsGoverned d h (read_role role) _ 1 _ λ checked.
        fail_if-IsGoverned d h (not (password == again)) _ 1 _ (
          fail_if-IsGoverned d h (ltb (count_chars password) 6) _ 1 _ (
            transaction-IsGoverned _ d
              (bind-Keeps _ _ (gets-Keeps _) λ existing.
                bind-Keeps _ _ (fail_if-Keeps _ _ 1) λ _. create_user-Keeps _ name _ checked)
              h))

  create_key_user-IsGoverned :
      (c : Crypto) (key_id : ℕ) (token name label role : String)
      → IsGoverned (Keys.create_key_user c key_id token name label role d).1
  unfolding Keys.create_key_user
  create_key_user-IsGoverned c key_id token name label role =
      or_fail-IsGoverned d h (read_role role) _ 2 _ λ checked.
        transaction-IsGoverned _ d
          (bind-Keeps _ _ (create_user-Keeps none _ none checked)
            λ user. bind-Keeps _ _ (create_access_key-Keeps key_id user.id _ _) λ key. pure-Keeps _)
          h

  issue_key-IsGoverned :
      (c : Crypto) (key_id : ℕ) (token : String) (user_id : ℕ) (label : String)
      → IsGoverned (issue_key c key_id token user_id label d).1
  unfolding issue_key
  issue_key-IsGoverned c key_id token user_id label =
      transaction-IsGoverned _ d
        (bind-Keeps _ _ (gets-Keeps _) λ found.
          bind-Keeps _ _ (fail_if-Keeps _ _ 2)
            λ _. bind-Keeps _ _ (create_access_key-Keeps key_id user_id _ _) λ key. pure-Keeps _)
        h

  revoke_key-IsGoverned : (now key_id : ℕ) → IsGoverned (revoke_key now key_id d).1
  unfolding revoke_key
  revoke_key-IsGoverned now key_id =
      transaction-IsGoverned _ d
        (bind-Keeps _ _ (gets-Keeps _) λ changed.
          bind-Keeps _ _ (modify-Keeps _ (λ s. refl))
            λ _. bind-Keeps _ _ (fail_if-Keeps _ _ 2) λ _. modify-Keeps _ (λ s. refl))
        h

-- a request to the service, or a command of the CLI
pub data Step (d : Db) : Db → Type 0 where
  request : {e : Db} → Managed.Step d e → Step d e
  bootstrap :
      (valid : String → Option String) (c : Crypto) (email name : String) (typed : Typed)
      → Step d (bootstrap_admin valid c email name typed d).1
  reset_password :
      (valid : String → Option String) (c : Crypto) (now : ℕ) (email : String) (typed : Typed)
      → Step d (reset_admin_password valid c now email typed d).1
  reset_key :
      (c : Crypto) (now key_id : ℕ) (token : String) (user_id : ℕ) (label : String)
      (confirmed : Bool)
      → Step d (reset_access_key c now key_id token user_id label confirmed d).1
  promote : (email : String) (confirmed : Bool) → Step d (promote_user email confirmed d).1
  create :
      (c : Crypto) (email role name password again : String)
      → Step d (Keys.create c email role name password again d).1
  create_key_user :
      (c : Crypto) (key_id : ℕ) (token name label role : String)
      → Step d (Keys.create_key_user c key_id token name label role d).1
  issue :
      (c : Crypto) (key_id : ℕ) (token : String) (user_id : ℕ) (label : String)
      → Step d (issue_key c key_id token user_id label d).1
  revoke : (now key_id : ℕ) → Step d (revoke_key now key_id d).1

pub data Runs (d : Db) : Db → Type 0 where
  here : Runs d d
  next : {e f : Db} → Runs d e → Step e f → Runs d f

keeps_governed : {d e : Db} → Step d e → IsGoverned d → IsGoverned e
keeps_governed (request s) h = Step-IsGoverned s h
keeps_governed {d} (bootstrap valid c email name typed) h =
    bootstrap_admin-IsGoverned d h valid c email name typed
keeps_governed {d} (reset_password valid c now email typed) h =
    reset_admin_password-IsGoverned d h valid c now email typed
keeps_governed {d} (reset_key c now key_id token user_id label confirmed) h =
    reset_access_key-IsGoverned d h c now key_id token user_id label confirmed
keeps_governed {d} (promote email confirmed) h = promote_user-IsGoverned d h email confirmed
keeps_governed {d} (create c email role name password again) h =
    create-IsGoverned d h c email role name password again
keeps_governed {d} (create_key_user c key_id token name label role) h =
    create_key_user-IsGoverned d h c key_id token name label role
keeps_governed {d} (issue c key_id token user_id label) h =
    issue_key-IsGoverned d h c key_id token user_id label
keeps_governed {d} (revoke now key_id) h = revoke_key-IsGoverned d h now key_id

-- Whatever requests on users and commands of the CLI follow one another, with any arguments, an instance
-- with an active administrator keeps one, its users stay distinct, and nothing is left uncommitted.
pub Runs-IsGoverned : {d e : Db} → IsGoverned d → Runs d e → IsGoverned e
Runs-IsGoverned h here = h
Runs-IsGoverned h (next r s) = keeps_governed s (Runs-IsGoverned h r)
