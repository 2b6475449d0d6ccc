-- ===== src/Users/Counting.antt =====
-- How many rows satisfy a condition when one row, named by its key, is written or deleted.
use fuze.Prelude.{
  ℕ, suc, ◌+◌, ◌≤◌, ◌≡◌, refl, ◌∙◌, ap, Bool, true, false, ◌&&◌, some, List, [], ◌∷◌, length, arith,
  nat_eq, Bool-cases, inl, inr,
}
use fuze.Database.Sql.{update_where, delete_where, select_where, select_one, exists_row}
use fuze.Database.Sql.Laws.{
  Distinct, update_where-none, select_one-none, exists_row-select_one, select_one_sound,
}
use fuze.Tracks.Rows.{contains_id}
use fuze.Users.Models.{User}
use fuze.Users.Repository.{is_user, user_ids}

abbrev pub same_user : User → User → Bool
same_user a b = is_user b.id a

abbrev pub count : (User → Bool) → List User → ℕ
count p us = length (select_where p us)

-- no row with the identifier of the first one comes after it
later_none :
    (i : ℕ) (r : User) (rs : List User)
    → is_user i r ≡ true
    → exists_row (same_user r) rs ≡ false
    → exists_row (is_user i) rs ≡ false
unfolding exists_row
later_none i r [] h apart = refl
later_none i r (s ∷ rs) h apart = ground (arith, h, apart, later_none i r rs)

delete_where-none :
    (q : User → Bool) (rs : List User) → exists_row q rs ≡ false → delete_where q rs ≡ rs
unfolding delete_where exists_row
delete_where-none q [] h = refl
delete_where-none q (r ∷ rs) h = elim (Bool-cases (q r)) [
  | inl hit ↦ absurd (ground (arith, hit))
  | inr miss ↦ rw (miss, delete_where-none q rs (rw miss at h)) refl
]

module _ (p : User → Bool) (i : ℕ) (v : User) where
  pub count-update :
      (us : List User)
      → Distinct same_user us
      → count p us ≤ count p (update_where (is_user i) (λ _. v) us) + 1
  unfolding select_where update_where
  count-update [] h = omega arith
  count-update (r ∷ us) h = elim (Bool-cases (is_user i r)) [
    | inl hit ↦
        rw
          (
            hit,
            update_where-none (is_user i) (λ _. v) us
                (select_one-none (is_user i) us (later_none i r us hit h.0)),
          )
          (ground arith)
    | inr miss ↦ rw miss (ground (arith, count-update us h.1))
  ]

  pub count-delete :
      (us : List User)
      → Distinct same_user us
      → count p us ≤ count p (delete_where (is_user i) us) + 1
  unfolding select_where delete_where
  count-delete [] h = omega arith
  count-delete (r ∷ us) h = elim (Bool-cases (is_user i r)) [
    | inl hit ↦
        rw (hit, delete_where-none (is_user i) us (later_none i r us hit h.0)) (ground arith)
    | inr miss ↦ rw miss (ground (arith, count-delete us h.1))
  ]

pub count-exists : (p : User → Bool) (us : List User) → 1 ≤ count p us → exists_row p us ≡ true
unfolding select_where exists_row
count-exists p [] h = absurd (omega arith)
count-exists p (r ∷ us) h = ground (arith, count-exists p us)

module _ (p : User → Bool) (i : ℕ) (u : User) where
  -- a write that loses nothing keeps a row that satisfies `p`
  pub exists_row-write :
      (v : User)
      → (p u ≡ true → p v ≡ true)
      → (us : List User) → Distinct same_user us
      → select_one (is_user i) us ≡ some u
      → exists_row p us ≡ true
      → exists_row p (update_where (is_user i) (λ _. v) us) ≡ true
  unfolding select_one exists_row update_where
  exists_row-write v keep [] h found old = absurd (cc)
  exists_row-write v keep (r ∷ us) h found old = elim (Bool-cases (is_user i r)) [
    | inl hit ↦
        let same : r ≡ u = ground (arith, hit) in
        rw
          (
            hit,
            update_where-none (is_user i) (λ _. v) us
                (select_one-none (is_user i) us (later_none i r us hit h.0)),
          )
          (ground (arith, keep, rw same at old))
    | inr miss ↦ rw miss (ground (arith, exists_row-write v keep us h.1 (rw miss at found), old))
  ]

  pub exists_row-remove :
      p u ≡ false
      → (us : List User) → Distinct same_user us
      → select_one (is_user i) us ≡ some u
      → exists_row p us ≡ true
      → exists_row p (delete_where (is_user i) us) ≡ true
  unfolding select_one exists_row delete_where
  exists_row-remove other [] h found old = absurd (cc)
  exists_row-remove other (r ∷ us) h found old = elim (Bool-cases (is_user i r)) [
    | inl hit ↦
        let same : r ≡ u = ground (arith, hit) in
        rw (hit, delete_where-none (is_user i) us (later_none i r us hit h.0))
          (ground (arith, other, rw same at old))
    | inr miss ↦ rw miss (ground (arith, exists_row-remove other us h.1 (rw miss at found), old))
  ]

length-user_ids : (us : List User) → length (user_ids us) ≡ length us
length-user_ids [] = refl
length-user_ids (u ∷ us) = ap suc (length-user_ids us)

contains_id-user_ids :
    (p : User → Bool) (i : ℕ) (us : List User)
    → contains_id (user_ids (select_where p us)) i ≡ exists_row (λ u. p u && is_user i u) us
unfolding contains_id select_where exists_row
contains_id-user_ids p i [] = refl
contains_id-user_ids p i (u ∷ us) = ground (arith, contains_id-user_ids p i us)

-- the identifiers that are locked name a row that satisfies the condition
pub contains_id-found :
    (p : User → Bool) (i : ℕ) (u : User) (us : List User)
    → select_one (is_user i) us ≡ some u
    → p u ≡ true
    → contains_id (user_ids (select_where p us)) i ≡ true
contains_id-found p i u us found fits =
    contains_id-user_ids p i us
    ∙ exists_row-select_one (is_user i) (λ r. p r && is_user i r) us u found
        (ground (arith, fits, select_one_sound (is_user i) us u found))

pub length-locked :
    (p : User → Bool) (us : List User) → length (user_ids (select_where p us)) ≡ count p us
length-locked p us = length-user_ids (select_where p us)

exists_row-same :
    (v r : User) (us : List User)
    → v.id ≡ r.id
    → exists_row (same_user v) us ≡ exists_row (same_user r) us
unfolding exists_row
exists_row-same v r [] e = refl
exists_row-same v r (s ∷ us) e = rw (e, exists_row-same v r us e) refl

-- a write that keeps the identifier keeps the identifiers distinct
module _ (i : ℕ) (v : User) (named : v.id ≡ i) where
  exists_row-named :
      (s : User) (us : List User)
      → exists_row (same_user s) (update_where (is_user i) (λ _. v) us)
        ≡ exists_row (same_user s) us
  unfolding exists_row update_where
  exists_row-named s [] = refl
  exists_row-named s (r ∷ us) = ground (arith, named, exists_row-named s us)

  pub Distinct-named :
      (us : List User)
      → Distinct same_user us
      → Distinct same_user (update_where (is_user i) (λ _. v) us)
  unfolding update_where
  Distinct-named [] h = tt
  Distinct-named (r ∷ us) h = elim (Bool-cases (is_user i r)) [
    | inl hit ↦ rw hit (
      exists_row-named v us ∙ exists_row-same v r us (ground (arith, named, hit)) ∙ h.0,
      Distinct-named us h.1,
    )
    | inr miss ↦ rw miss (exists_row-named r us ∙ h.0, Distinct-named us h.1)
  ]
