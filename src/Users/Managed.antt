-- ===== src/Users/Managed.antt =====
-- The operations of `UserService` as transactions, in any order.
use mathlib.Core.Path.{subst}
use fuze.Prelude.{
  ◌&&◌, arith, ℕ, suc, String, ◌≡◌, refl, ◌∙◌, ap, sym, true, false, Option, none, some, [], ◌∷◌,
  ◌++◌, is_some, Bool-cases, inl, inr, ◌⊎◌, nat_eq, string_eq,
}
use fuze.Core.Config.{UserRole}
use fuze.Core.Errors.{Error}
use fuze.Database.Tables.{Tables, Db}
use fuze.Database.Exec.{Exec, ◌>>=◌, ◌>>◌, on_integrity_error, commit, pure}
use fuze.Database.Exec.Laws.{seq-ok, seq-err, bind-ok, bind-err, guarded-ok, guarded-err}
use fuze.Prelude.Texts.{strip, join}
use fuze.Database.Sql.Laws.{select_one_sound}
use fuze.Database.Sql.{delete_where, select_one}
use fuze.Users.Models.{User}
use fuze.Auth.Models.{AccessKey}
use fuze.Users.Repository
use fuze.Users.Repository.{
  is_user, is_active_admin, get_user_by_id, has_email, create_access_key,
  get_user_by_email as email_lookup,
}
use fuze.Users.Service
use fuze.Users.Service.{
  Crypto, UserUpdate, create_with, create_user, create_key_user, update_found, update_user,
  changed_user, removes_admin, ensure_not_last_active_admin, only_if, delete_found, delete_user,
  normalize_email,
}
use fuze.Users.Outcomes.{
  new_user, with_user, insert-free, insert-taken, write-free, write-taken, key_clash, new_key,
  key-free, key-taken, last_admin, guard-passed, guard-failed, passed,
}
use fuze.Users.Admins.{
  IsManaged, is_last, written-IsManaged, removed-IsManaged, skipped-IsManaged, added-IsManaged,
}

-- between two requests: nothing is uncommitted, and the accounts are managed
pub record IsGoverned (d : Db) : Type 0 where
  pub accounts : IsManaged d.sequence d.current.users
  pub saved : d.committed ≡ d.current

-- a transaction that was rolled back, which may have drawn an identifier
rolled_back-IsGoverned :
    (d : Db)
    → IsGoverned d
    → IsGoverned (record d { sequence = suc d.sequence; current = d.committed })
rolled_back-IsGoverned d h = record {
  accounts =
      subst (λ (s : Tables). IsManaged (suc d.sequence) s.users) (sym h.saved)
        (skipped-IsManaged d.sequence d.current.users h.accounts);
  saved = refl;
}

undone-IsGoverned : (d : Db) → IsGoverned d → IsGoverned (record d { current = d.committed })
undone-IsGoverned d h = record {
  accounts = subst (λ (s : Tables). IsManaged d.sequence s.users) (sym h.saved) h.accounts;
  saved = refl;
}

module _ (d : Db) (h : IsGoverned d) where
  found_by_id :
      (i : ℕ) (u : User)
      → select_one (is_user i) d.current.users ≡ some u
      → select_one (is_user u.id) d.current.users ≡ some u
  found_by_id i u e =
      let fits = select_one_sound (is_user i) d.current.users u e in
      let same : u.id ≡ i = ground (arith, fits) in
      ap (λ k. select_one (is_user k) d.current.users) same ∙ e

  delete_found-IsGoverned :
      (i : ℕ) (o : Option User)
      → select_one (is_user i) d.current.users ≡ o
      → IsGoverned (delete_found o d).1
  unfolding delete_found Repository.delete_user
  delete_found-IsGoverned i none e = h
  delete_found-IsGoverned i (some u) e =
      let b = is_active_admin u in
      let guard = only_if b (ensure_not_last_active_admin u.id) in
      let rest = Repository.delete_user u >> (commit >> pure true) in
      elim (Bool-cases (b && is_last u d.current.users)) [
        | inl last ↦
            subst (λ out. IsGoverned out.1)
              (sym (seq-err guard rest d d last_admin (guard-failed b u d last))) h
        | inr more ↦
            subst (λ out. IsGoverned out.1) (sym (seq-ok guard rest d d (guard-passed b u d more)))
              (record {
                accounts =
                    removed-IsManaged d.sequence u d.current.users h.accounts (found_by_id i u e)
                      (passed b (is_last u d.current.users) more);
                saved = refl;
              })
      ]

module _ (c : Crypto) (d : Db) (h : IsGoverned d) where
  create_with-IsGoverned :
      (email name password : String) (role : UserRole)
      → IsGoverned (create_with c email name password role d).1
  unfolding create_with
  create_with-IsGoverned email name password role =
      let hashed = some (c.hash password) in
      let insert = Repository.create_user (some email) (strip name) hashed role in
      let body = insert >>= λ user. commit >> pure user in
      let us = d.current.users in
      let v = new_user d.sequence (some email) (strip name) hashed role in
      elim (Bool-cases (Repository.email_taken (some email) us)) [
        | inl taken ↦
            subst (λ out. IsGoverned out.1)
              (sym (
                guarded-err body Error.user_already_exists d
                  (record d { sequence = suc d.sequence })
                  (bind-err insert (λ user. commit >> pure user) d
                    (record d { sequence = suc d.sequence }) Error.integrity_error
                    (insert-taken (some email) (strip name) hashed role d taken))))
              (rolled_back-IsGoverned d h)
        | inr free ↦
            subst (λ out. IsGoverned out.1)
              (sym (
                guarded-ok body Error.user_already_exists d _ v (
                  bind-ok insert (λ user. commit >> pure user) d (with_user d (us ++ v ∷ [])) v
                    (insert-free (some email) (strip name) hashed role d free))))
              (record { accounts = added-IsManaged us v h.accounts; saved = refl })
      ]

  create_user-IsGoverned :
      (email name password : String) (role : UserRole)
      → IsGoverned (create_user c email name password role d).1
  unfolding create_user email_lookup
  create_user-IsGoverned email name password role =
      elim (Bool-cases (is_some (select_one (has_email (normalize_email email)) d.current.users))) [
        | inl taken ↦ rw taken h
        | inr free ↦ rw free (create_with-IsGoverned (normalize_email email) name password role)
      ]

  write-IsGoverned :
      (fields : UserUpdate) (u : User)
      → select_one (is_user u.id) d.current.users ≡ some u
      → ((removes_admin u fields ≡ false) ⊎ (is_last u d.current.users ≡ false))
      → IsGoverned
          (on_integrity_error
            (do
              Repository.update_user (changed_user c fields u)
              commit
              pure (some (changed_user c fields u)))
            Error.user_already_exists
            d).1
  unfolding changed_user
  write-IsGoverned fields u found why =
      let v = changed_user c fields u in
      let end_ = commit >> pure (some v) in
      let us = d.current.users in
      elim (Bool-cases (Repository.email_taken v.email (delete_where (is_user v.id) us))) [
        | inl taken ↦
            subst (λ out. IsGoverned out.1)
              (sym (
                guarded-err (Repository.update_user v >> end_) Error.user_already_exists d d (
                  seq-err (Repository.update_user v) end_ d d Error.integrity_error
                    (write-taken v d taken))))
              (undone-IsGoverned d h)
        | inr free ↦
            subst (λ out. IsGoverned out.1)
              (sym (
                guarded-ok (Repository.update_user v >> end_) Error.user_already_exists d _ (some v)
                  (seq-ok (Repository.update_user v) end_ d _ (write-free v d free))))
              (record {
                accounts = written-IsManaged d.sequence c fields u us h.accounts found why;
                saved = refl;
              })
      ]

  update_found-IsGoverned :
      (fields : UserUpdate) (i : ℕ) (o : Option User)
      → select_one (is_user i) d.current.users ≡ o
      → IsGoverned (update_found c fields o d).1
  unfolding update_found
  update_found-IsGoverned fields i none e = h
  update_found-IsGoverned fields i (some u) e =
      let b = removes_admin u fields in
      let guard = only_if b (ensure_not_last_active_admin u.id) in
      let rest =
        on_integrity_error
          (Repository.update_user (changed_user c fields u)
            >> (commit >> pure (some (changed_user c fields u))))
          Error.user_already_exists in
      elim (Bool-cases (b && is_last u d.current.users)) [
        | inl last ↦
            subst (λ out. IsGoverned out.1)
              (sym (seq-err guard rest d d last_admin (guard-failed b u d last))) h
        | inr more ↦
            subst (λ out. IsGoverned out.1) (sym (seq-ok guard rest d d (guard-passed b u d more)))
              (write-IsGoverned fields u (found_by_id d h i u e)
                (passed b (is_last u d.current.users) more))
      ]

  -- the access key of a new account
  create_key_user-IsGoverned :
      (uuid : ℕ) (token name : String) (role : UserRole) (label : String)
      → IsGoverned (create_key_user c uuid token name role label d).1
  unfolding create_key_user
  create_key_user-IsGoverned uuid token name role label =
      let v = new_user d.sequence none (strip name) none role in
      let d' = with_user d (d.current.users ++ v ∷ []) in
      let secret = join "fuze_" token in
      let insert = Repository.create_user none (strip name) none role in
      let rest : User → Exec (User × String) = λ user.
        create_access_key uuid user.id (strip label) (c.digest secret) >>= λ _.
        commit >> pure (user, secret) in
      let key = create_access_key uuid v.id (strip label) (c.digest secret) in
      let then_ : AccessKey → Exec (User × String) = λ _. commit >> pure (v, secret) in
      let inserted = insert-free none (strip name) none role d refl in
      elim (Bool-cases (key_clash uuid v.id (c.digest secret) d'.current)) [
        | inl taken ↦
            subst (λ out. IsGoverned out.1)
              (sym (
                guarded-err (insert >>= rest) Error.user_already_exists d d' (
                  bind-ok insert rest d d' v inserted
                  ∙ bind-err key then_ d' d' Error.integrity_error
                      (key-taken uuid v.id (strip label) (c.digest secret) d' taken))))
              (rolled_back-IsGoverned d h)
        | inr free ↦
            subst (λ out. IsGoverned out.1)
              (sym (
                guarded-ok (insert >>= rest) Error.user_already_exists d _ (v, secret)
                  (bind-ok insert rest d d' v inserted
                    ∙ bind-ok key then_ d' _ (new_key uuid v.id (strip label) (c.digest secret))
                        (key-free uuid v.id (strip label) (c.digest secret) d' free))))
              (record { accounts = added-IsManaged d.current.users v h.accounts; saved = refl })
      ]

-- A request to `UserService` that may write, as one transaction.
pub data Step (d : Db) : Db → Type 0 where
  register :
      (c : Crypto) (email name password : String)
      → Step d (Service.register c email name password d).1
  create :
      (c : Crypto) (email name password : String) (role : UserRole)
      → Step d (create_user c email name password role d).1
  create_key :
      (c : Crypto) (uuid : ℕ) (token name : String) (role : UserRole) (label : String)
      → Step d (create_key_user c uuid token name role label d).1
  update :
      (c : Crypto) (user_id : ℕ) (fields : UserUpdate) → Step d (update_user c user_id fields d).1
  delete : (user_id : ℕ) → Step d (delete_user user_id d).1

pub data Reach (d : Db) : Db → Type 0 where
  here : Reach d d
  next : {e f : Db} → Reach d e → Step e f → Reach d f

pub Step-IsGoverned : {d e : Db} → Step d e → IsGoverned d → IsGoverned e
unfolding update_user delete_user get_user_by_id Service.register
Step-IsGoverned {d} (register c email name password) h =
    create_user-IsGoverned c d h email name password UserRole.user
Step-IsGoverned {d} (create c email name password role) h =
    create_user-IsGoverned c d h email name password role
Step-IsGoverned {d} (create_key c uuid token name role label) h =
    create_key_user-IsGoverned c d h uuid token name role label
Step-IsGoverned {d} (update c user_id fields) h =
    update_found-IsGoverned c d h fields user_id (select_one (is_user user_id) d.current.users) refl
Step-IsGoverned {d} (delete user_id) h =
    delete_found-IsGoverned d h user_id (select_one (is_user user_id) d.current.users) refl

-- Whatever registrations, creations, updates and deletions of users follow one another, with any
-- arguments, an instance with an active administrator keeps one; the identifiers of its users stay
-- distinct and drawn from the sequence, and nothing is left uncommitted.
pub Reach-IsGoverned : {d e : Db} → IsGoverned d → Reach d e → IsGoverned e
Reach-IsGoverned h here = h
Reach-IsGoverned h (next r s) = Step-IsGoverned s (Reach-IsGoverned h r)
