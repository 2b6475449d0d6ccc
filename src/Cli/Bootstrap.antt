-- ===== src/Cli/Bootstrap.antt =====
-- What `bootstrap-admin` of cli/commands/rescue.py gives an instance without an administrator.
use fuze.Prelude.{
  suc, ◌<◌, String, ◌≡◌, refl, Bool, true, false, Option, none, some, ◌⊎◌, List, [], ◌∷◌, ◌++◌,
  arith, Bool-cases, Option-cases, inl, inr, All, length, ◌==◌, nat_eq,
}
use fuze.Prelude.Texts.{lower}
use fuze.Core.Config.{UserRole}
use fuze.Core.Errors.{Error}
use fuze.Database.Tables.{Db}
use fuze.Database.Sql.{select_where, exists_row}
use fuze.Database.Sql.Laws.{Distinct}
use fuze.Users.Models.{User}
use fuze.Users.Repository
use fuze.Users.Repository.{is_active_admin}
use fuze.Users.Service.{Crypto}
use fuze.Users.Counting.{same_user}
use fuze.Users.Outcomes.{new_user, insert-free, insert-taken}
use fuze.Users.Admins.{appended-IsManaged}
use fuze.Users.Managed.{IsGoverned}
use fuze.Cli.Command.{Ended, transaction, statement, ◌>>=◌}
use fuze.Cli.Rescue.{Typed, read_password, trimmed, bootstrap_admin}

none_counted :
    (p : User → Bool) (us : List User)
    → (length (select_where p us) == 0) ≡ true
    → exists_row p us ≡ false
unfolding select_where exists_row
none_counted p [] h = refl
none_counted p (u ∷ us) h = ground (arith, none_counted p us, h)

some_counted :
    (p : User → Bool) (us : List User)
    → (length (select_where p us) == 0) ≡ false
    → exists_row p us ≡ true
unfolding select_where exists_row
some_counted p [] h = absurd (ground (arith, h))
some_counted p (u ∷ us) h = ground (arith, some_counted p us, h)

-- the accounts before the first administrator
pub record IsSeeded (d : Db) : Type 0 where
  pub ids : Distinct same_user d.committed.users
  pub drawn : All (λ u. u.id < d.sequence) d.committed.users

-- how `bootstrap_admin` ended
pub data Bootstrap (valid : String → Option String) (hash : String → String) (email name : String)
    (typed : Typed) (d : Db) (out : Ended User × Db) : Type 0 where
  invalid :
      (valid email ≡ none) ⊎ ((trimmed name ≡ none) ⊎ (read_password typed ≡ none))
      → out ≡ (Ended.exited 2 "invalid_input", d)
      → Bootstrap valid hash email name typed d out
  governed_before :
      exists_row is_active_admin d.committed.users ≡ true
      → out.0 ≡ Ended.exited 3 "admin_exists"
      → out.1.committed ≡ d.committed
      → Bootstrap valid hash email name typed d out
  address_taken :
      (address : String)
      → valid email ≡ some address
      → Repository.email_taken (some (lower address)) d.committed.users ≡ true
      → exists_row is_active_admin d.committed.users ≡ false
      → out.0 ≡ Ended.crashed Error.integrity_error
      → out.1.committed ≡ d.committed
      → Bootstrap valid hash email name typed d out
  created :
      (address display_name password : String)
      → valid email ≡ some address
      → trimmed name ≡ some display_name
      → read_password typed ≡ some password
      → exists_row is_active_admin d.committed.users ≡ false
      → out.0
        ≡ Ended.done (
            new_user d.sequence
              (some (lower address))
              display_name
              (some (hash password))
              UserRole.admin)
      → out.1.committed.users
        ≡ d.committed.users
          ++ new_user d.sequence
              (some (lower address))
              display_name
              (some (hash password))
              UserRole.admin
            ∷ []
      → IsGoverned out.1
      → Bootstrap valid hash email name typed d out

module _ (valid : String → Option String) (c : Crypto) (email name : String) (typed : Typed)
    (d : Db) (h : IsSeeded d) where
  created-IsGoverned :
      (address display_name password : String)
      → let v = new_user d.sequence (some address) display_name (some password) UserRole.admin in
        let after = record d.committed { users = d.committed.users ++ v ∷ [] } in
        IsGoverned (record d { sequence = suc d.sequence; committed = after; current = after })
  unfolding is_active_admin
  created-IsGoverned address display_name password = record {
    accounts =
        appended-IsManaged d.committed.users
          (new_user d.sequence (some address) display_name (some password) UserRole.admin) h.ids
          h.drawn refl;
    saved = refl;
  }

  abbrev us : List User
  us = d.committed.users

  abbrev start : Db
  start = record d { current = d.committed }

  insert :
      (address display_name password : String)
      → valid email ≡ some address
      → trimmed name ≡ some display_name
      → read_password typed ≡ some password
      → exists_row is_active_admin us ≡ false
      → Bootstrap valid c.hash email name typed d (
          transaction
            (λ _.
              statement
                (Repository.create_user
                  (some (lower address))
                  display_name
                  (some (c.hash password))
                  UserRole.admin)
                start)
            d)
  unfolding transaction
  insert address display_name password good shown read nobody =
      let hashed = some (c.hash password) in
      let mail = some (lower address) in
      elim (Bool-cases (Repository.email_taken mail us)) [
        | inl taken ↦
            rw (insert-taken mail display_name hashed UserRole.admin start taken)
              (Bootstrap.address_taken address good taken nobody refl refl)
        | inr free ↦ rw (insert-free mail display_name hashed UserRole.admin start free) (
            Bootstrap.created address display_name password good shown read nobody refl refl
              (created-IsGoverned (lower address) display_name (c.hash password)))
      ]

  -- The bootstrap of an administrator, on accounts that are distinct and drawn from the sequence, refuses
  -- an input whose address, name or password is invalid and an instance that has an active administrator,
  -- and commits nothing then, nor when the address is taken, which raises; otherwise it adds the first
  -- administrator to the accounts, and the instance is governed.
  pub bootstrap_admin-Bootstrap :
      Bootstrap valid c.hash email name typed d (bootstrap_admin valid c email name typed d)
  unfolding bootstrap_admin ◌>>=◌ transaction
  bootstrap_admin-Bootstrap = elim (Option-cases (valid email)) [
    | inl bad ↦ rw bad (Bootstrap.invalid (inl bad) refl)
    | inr (address, good) ↦ elim (Option-cases (trimmed name)) [
      | inl bad ↦ rw (good, bad) (Bootstrap.invalid (inr (inl bad)) refl)
      | inr (display_name, shown) ↦ elim (Option-cases (read_password typed)) [
        | inl bad ↦ rw (good, shown, bad) (Bootstrap.invalid (inr (inr bad)) refl)
        | inr (password, read) ↦
            rw (good, shown, read)
              (elim (Bool-cases (length (select_where is_active_admin us) == 0)) [
                | inr one ↦
                    rw one
                      (Bootstrap.governed_before (some_counted is_active_admin us one) refl refl)
                | inl zero_ ↦ rw zero_ (
                    insert address display_name password good shown read
                      (none_counted is_active_admin us zero_))
              ])
      ]
    ]
  ]
