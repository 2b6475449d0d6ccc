-- ===== src/Users/Admins.antt =====
-- The administrators: every operation of `UserService` leaves one who is active.
use fuze.Prelude.{
  ℕ, suc, ◌≤◌, ◌<◌, ◌≡◌, refl, Bool, true, false, ◌&&◌, some, List, [], ◌∷◌, ◌++◌, arith, All,
  nat_eq, leb, length, beq_comm, Bool-cases, inl, inr, ◌⊎◌,
}
use fuze.Database.Sql.{update_where, delete_where, select_where, select_one, exists_row}
use fuze.Database.Sql.Laws.{Distinct, All-update_where}
use fuze.Database.Sql.Insert.{All-append, Distinct-append}
use fuze.Database.Sql.Unique.{Distinct-delete_where, All-delete_where}
use fuze.Tracks.Rows.{contains_id}
use fuze.Users.Models.{User}
use fuze.Users.Repository.{is_user, is_active_admin, user_ids}
use fuze.Users.Service.{Crypto, UserUpdate, changed_user, removes_admin}
use fuze.Users.Counting.{
  same_user, count, count-update, count-delete, count-exists, exists_row-write, exists_row-remove,
  contains_id-found, length-locked, Distinct-named,
}

-- the accounts of an instance
pub record IsManaged (next : ℕ) (us : List User) : Type 0 where
  -- an administrator who is active
  pub managed : exists_row is_active_admin us ≡ true
  pub ids : Distinct same_user us
  pub drawn : All (λ u. u.id < next) us

-- the guard of `update_user` and `delete_user`
abbrev pub is_last : User → List User → Bool
is_last u us =
    contains_id (user_ids (select_where is_active_admin us)) u.id
    && leb (length (user_ids (select_where is_active_admin us))) 1

not_last-count :
    (u : User) (us : List User)
    → select_one (is_user u.id) us ≡ some u
    → is_active_admin u ≡ true
    → is_last u us ≡ false
    → 2 ≤ count is_active_admin us
not_last-count u us found admin other = ground (
  arith,
  other,
  contains_id-found is_active_admin u.id u us found admin,
  length-locked is_active_admin us,
)

changed_user-id :
    (c : Crypto) (fields : UserUpdate) (u : User) → (changed_user c fields u).id ≡ u.id
unfolding changed_user
changed_user-id c fields u = refl

-- an update that does not remove an administrator keeps one
changed_user-admin :
    (c : Crypto) (fields : UserUpdate) (u : User)
    → removes_admin u fields ≡ false
    → is_active_admin u ≡ true
    → is_active_admin (changed_user c fields u) ≡ true
unfolding removes_admin is_active_admin changed_user
changed_user-admin c fields u stays admin = ground (arith, stays, admin)

written_managed :
    (n : ℕ) (c : Crypto) (fields : UserUpdate) (u : User) (us : List User)
    → IsManaged n us
    → select_one (is_user u.id) us ≡ some u
    → ((removes_admin u fields ≡ false) ⊎ (is_last u us ≡ false))
    → exists_row is_active_admin (update_where (is_user u.id) (λ _. changed_user c fields u) us)
      ≡ true
written_managed n c fields u us h found (inl stays) =
    exists_row-write is_active_admin u.id u (changed_user c fields u)
      (changed_user-admin c fields u stays) us h.ids found h.managed
written_managed n c fields u us h found (inr more) = elim (Bool-cases (is_active_admin u)) [
  | inl admin ↦
      count-exists is_active_admin (update_where (is_user u.id) (λ _. changed_user c fields u) us) (
        omega (
          arith,
          not_last-count u us found admin more,
          count-update is_active_admin u.id (changed_user c fields u) us h.ids,
        ))
  | inr other ↦
      exists_row-write is_active_admin u.id u (changed_user c fields u)
        (λ admin. absurd (ground (arith, admin, other))) us h.ids found h.managed
]

-- the table after an update of `u`
pub written-IsManaged :
    (n : ℕ) (c : Crypto) (fields : UserUpdate) (u : User) (us : List User)
    → IsManaged n us
    → select_one (is_user u.id) us ≡ some u
    → ((removes_admin u fields ≡ false) ⊎ (is_last u us ≡ false))
    → IsManaged n (update_where (is_user u.id) (λ _. changed_user c fields u) us)
written-IsManaged n c fields u us h found why = record {
  managed = written_managed n c fields u us h found why;
  ids = Distinct-named u.id (changed_user c fields u) (changed_user-id c fields u) us h.ids;
  drawn =
      All-update_where (λ v. v.id < n) (is_user u.id) (λ _. changed_user c fields u)
        (λ v below here. ground (arith, below, here, changed_user-id c fields u)) us h.drawn;
}

removed_managed :
    (n : ℕ) (u : User) (us : List User)
    → IsManaged n us
    → select_one (is_user u.id) us ≡ some u
    → ((is_active_admin u ≡ false) ⊎ (is_last u us ≡ false))
    → exists_row is_active_admin (delete_where (is_user u.id) us) ≡ true
removed_managed n u us h found (inl other) =
    exists_row-remove is_active_admin u.id u other us h.ids found h.managed
removed_managed n u us h found (inr more) = elim (Bool-cases (is_active_admin u)) [
  | inr other ↦ exists_row-remove is_active_admin u.id u other us h.ids found h.managed
  | inl admin ↦ count-exists is_active_admin (delete_where (is_user u.id) us) (
      omega
        (arith, not_last-count u us found admin more, count-delete is_active_admin u.id u us h.ids))
]

-- the table after the deletion of `u`
pub removed-IsManaged :
    (n : ℕ) (u : User) (us : List User)
    → IsManaged n us
    → select_one (is_user u.id) us ≡ some u
    → ((is_active_admin u ≡ false) ⊎ (is_last u us ≡ false))
    → IsManaged n (delete_where (is_user u.id) us)
removed-IsManaged n u us h found why = record {
  managed = removed_managed n u us h found why;
  ids = Distinct-delete_where same_user (is_user u.id) us h.ids;
  drawn = All-delete_where (λ v. v.id < n) (is_user u.id) us h.drawn;
}

drawn-next : (n : ℕ) (us : List User) → All (λ u. u.id < n) us → All (λ u. u.id < suc n) us
drawn-next n [] h = tt
drawn-next n (u ∷ us) h = (omega (arith, h.0), drawn-next n us h.1)

-- a sequence that has advanced
pub skipped-IsManaged : (n : ℕ) (us : List User) → IsManaged n us → IsManaged (suc n) us
skipped-IsManaged n us h = record {
  managed = h.managed;
  ids = h.ids;
  drawn = drawn-next n us h.drawn;
}

exists_row-kept :
    (p : User → Bool) (us : List User) (v : User)
    → exists_row p us ≡ true
    → exists_row p (us ++ v ∷ []) ≡ true
unfolding exists_row
exists_row-kept p [] v h = absurd (cc)
exists_row-kept p (u ∷ us) v h = ground (arith, h, exists_row-kept p us v)

same_user_none :
    (v : User) (us : List User) → All (λ u. u.id < v.id) us → exists_row (same_user v) us ≡ false
unfolding exists_row
same_user_none v [] h = refl
same_user_none v (u ∷ us) h = ground (arith, h.0, same_user_none v us h.1)

exists_row-last :
    (p : User → Bool) (us : List User) (v : User) → p v ≡ true → exists_row p (us ++ v ∷ []) ≡ true
unfolding exists_row
exists_row-last p [] v h = ground (arith, h)
exists_row-last p (u ∷ us) v h = ground (arith, exists_row-last p us v h)

-- the table with a new administrator, whatever it was before
pub appended-IsManaged :
    (us : List User) (v : User)
    → Distinct same_user us
    → All (λ u. u.id < v.id) us
    → is_active_admin v ≡ true
    → IsManaged (suc v.id) (us ++ v ∷ [])
appended-IsManaged us v ids drawn admin = record {
  managed = exists_row-last is_active_admin us v admin;
  ids = Distinct-append same_user us v (λ a b. beq_comm a.id b.id) (same_user_none v us drawn) ids;
  drawn = All-append (λ u. u.id < suc v.id) us v (drawn-next v.id us drawn) (omega arith);
}

-- the table with a new account
pub added-IsManaged :
    (us : List User) (v : User) → IsManaged v.id us → IsManaged (suc v.id) (us ++ v ∷ [])
added-IsManaged us v h = record {
  managed = exists_row-kept is_active_admin us v h.managed;
  ids =
      Distinct-append same_user us v (λ a b. beq_comm a.id b.id) (same_user_none v us h.drawn)
        h.ids;
  drawn = All-append (λ u. u.id < suc v.id) us v (drawn-next v.id us h.drawn) (omega arith);
}
