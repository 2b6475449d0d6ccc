-- ===== src/Database/Sql/Unique.antt =====
-- UPDATE under a unique index that is checked row by row: when it cannot conflict.
use mathlib.Core.Path.{subst}
use fuze.Prelude.{
  ◌≡◌, refl, ◌∙◌, ap, sym, Bool, true, false, some, List, [], ◌∷◌, ◌++◌, arith, All, Bool-cases,
  inl, inr,
}
use fuze.Database.Sql.{delete_where, update_where, exists_row, update_checked}
use fuze.Database.Sql.Laws.{updated, Distinct}

module _ {ℓ} {A : Type ℓ} where
  exists_row-++ :
      (q : A → Bool) (xs ys : List A)
      → exists_row q xs ≡ false
      → exists_row q ys ≡ false
      → exists_row q (xs ++ ys) ≡ false
  unfolding exists_row
  exists_row-++ q [] ys h k = k
  exists_row-++ q (x ∷ xs) ys h k = ground (arith, exists_row-++ q xs ys)

  exists_row_mid :
      (q : A → Bool) (xs : List A) (r : A) (ys : List A)
      → exists_row q (xs ++ r ∷ ys) ≡ false
      → q r ≡ false
  unfolding exists_row
  exists_row_mid q [] r ys h = ground arith
  exists_row_mid q (x ∷ xs) r ys h = exists_row_mid q xs r ys (ground arith)

  append_assoc : (xs : List A) (r : A) (ys : List A) → (xs ++ r ∷ []) ++ ys ≡ xs ++ r ∷ ys
  append_assoc [] r ys = refl
  append_assoc (x ∷ xs) r ys = ap (λ zs. x ∷ zs) (append_assoc xs r ys)

  append_nil : (xs : List A) → xs ++ [] ≡ xs
  append_nil [] = refl
  append_nil (x ∷ xs) = ap (λ zs. x ∷ zs) (append_nil xs)

  update_where-++ :
      (p : A → Bool) (f : A → A) (xs : List A) (r : A)
      → update_where p f (xs ++ r ∷ []) ≡ update_where p f xs ++ updated p f r ∷ []
  unfolding update_where
  update_where-++ p f [] r = refl
  update_where-++ p f (x ∷ xs) r = ap (λ zs. updated p f x ∷ zs) (update_where-++ p f xs r)

  All-first : (P : A → Type 0) (xs ys : List A) → All P (xs ++ ys) → All P xs × All P ys
  All-first P [] ys h = (tt, h)
  All-first P (x ∷ xs) ys h = let (a, b) = All-first P xs ys h.1 in ((h.0, a), b)

  Distinct_mid :
      (same : A → A → Bool) (xs : List A) (r : A) (ys : List A)
      → Distinct same (xs ++ r ∷ ys)
      → exists_row (same r) ys ≡ false
  Distinct_mid same [] r ys h = h.0
  Distinct_mid same (x ∷ xs) r ys h = Distinct_mid same xs r ys h.1

-- Rows of a table that are apart by `other`, and a row that is written agrees on the index `same`
-- neither with a row that was passed before nor with one that comes after.
module _ {ℓ} {A : Type ℓ} (same other : A → A → Bool) (p : A → Bool) (f : A → A) (Inv : A → Type 0)
    (passed : (s r : A)
      → Inv s
      → Inv r
      → other s r ≡ false
      → p r ≡ true
      → same (f r) (updated p f s) ≡ false)
    (ahead : (s r : A)
      → Inv s
      → Inv r
      → other s r ≡ false
      → p s ≡ true
      → same (f s) r ≡ false) where
  exists_row_passed :
      (ds : List A) (r : A) (rs : List A)
      → Distinct other (ds ++ r ∷ rs)
      → All Inv ds
      → Inv r
      → p r ≡ true
      → exists_row (same (f r)) (update_where p f ds) ≡ false
  unfolding exists_row update_where
  exists_row_passed [] r rs apart h k hit = refl
  exists_row_passed (s ∷ ds) r rs apart h k hit =
      rw
        (
          passed s r h.0 k (exists_row_mid (other s) ds r rs apart.0) hit,
          exists_row_passed ds r rs apart.1 h.1 k hit,
        )
        refl

  exists_row_ahead :
      (s : A) (rs : List A)
      → exists_row (other s) rs ≡ false
      → Inv s
      → All Inv rs
      → p s ≡ true
      → exists_row (same (f s)) rs ≡ false
  unfolding exists_row
  exists_row_ahead s [] apart k h hit = refl
  exists_row_ahead s (r ∷ rs) apart k h hit = elim (Bool-cases (other s r)) [
    | inl e ↦ absurd (ground (arith, e))
    | inr e ↦ rw (ahead s r k h.0 e hit, exists_row_ahead s rs (rw e at apart) k h.1 hit) refl
  ]

  update_checked_from :
      (ds rs : List A)
      → Distinct other (ds ++ rs)
      → All Inv (ds ++ rs)
      → update_checked same p f (update_where p f ds) rs ≡ some (update_where p f (ds ++ rs))
  unfolding update_checked
  update_checked_from ds [] apart h = ap (λ xs. some (update_where p f xs)) (sym (append_nil ds))
  update_checked_from ds (r ∷ rs) apart h =
      let next : update_checked same p f (update_where p f ds ++ updated p f r ∷ []) rs
          ≡ some (update_where p f (ds ++ r ∷ rs)) =
        rw (← update_where-++ p f ds r) (
          update_checked_from (ds ++ r ∷ []) rs
            (subst (Distinct other) (sym (append_assoc ds r rs)) apart)
            (subst (All Inv) (sym (append_assoc ds r rs)) h)
          ∙ ap (λ xs. some (update_where p f xs)) (append_assoc ds r rs)) in
      elim (Bool-cases (p r)) [
        | inl hit ↦
            let (before, (k, after)) = All-first Inv ds (r ∷ rs) h in
            let free : exists_row (same (f r)) (update_where p f ds ++ rs) ≡ false =
              exists_row-++ (same (f r)) (update_where p f ds) rs
                (exists_row_passed ds r rs apart before k hit)
                (exists_row_ahead r rs (Distinct_mid other ds r rs apart) k after hit) in
            rw (hit, free) (rw hit at next)
        | inr miss ↦ rw miss (rw miss at next)
      ]

  -- Then the UPDATE raises nothing and writes what it would without the index.
  pub update_checked-update_where :
      (rs : List A)
      → Distinct other rs
      → All Inv rs
      → update_checked same p f [] rs ≡ some (update_where p f rs)
  unfolding update_where
  update_checked-update_where rs apart h = update_checked_from [] rs apart h

  kept_apart :
      ((s r : A) → same s r ≡ same r s)
      → (r s : A) → Inv r
      → Inv s
      → other r s ≡ false
      → same r s ≡ false
      → same (updated p f r) (updated p f s) ≡ false
  kept_apart comm r s k h apart old = elim (Bool-cases (p s)) [
    | inl hit ↦ rw hit (comm _ _ ∙ passed r s k h apart hit)
    | inr miss ↦ elim (Bool-cases (p r)) [
      | inl hit ↦ rw (miss, hit) (ahead r s k h apart hit)
      | inr none ↦ rw (miss, none) old
    ]
  ]

  kept_from :
      ((s r : A) → same s r ≡ same r s)
      → (r : A) (rs : List A) → Inv r
      → All Inv rs
      → exists_row (other r) rs ≡ false
      → exists_row (same r) rs ≡ false
      → exists_row (same (updated p f r)) (update_where p f rs) ≡ false
  unfolding exists_row update_where
  kept_from comm r [] k h apart old = refl
  kept_from comm r (s ∷ rs) k h apart old = elim (Bool-cases (other r s)) [
    | inl e ↦ absurd (ground (arith, e))
    | inr e ↦ elim (Bool-cases (same r s)) [
      | inl e' ↦ absurd (ground (arith, e'))
      | inr e' ↦
          rw
            (
              kept_apart comm r s k h.0 e e',
              kept_from comm r rs k h.1 (rw e at apart) (rw e' at old),
            )
            refl
    ]
  ]

  -- and the index stays unique.
  pub Distinct-checked :
      ((s r : A) → same s r ≡ same r s)
      → (rs : List A) → Distinct other rs
      → All Inv rs
      → Distinct same rs
      → Distinct same (update_where p f rs)
  unfolding update_where
  Distinct-checked comm [] apart h old = tt
  Distinct-checked comm (r ∷ rs) apart h old =
      (kept_from comm r rs h.0 h.1 apart.0 old.0, Distinct-checked comm rs apart.1 h.1 old.1)

-- What a DELETE leaves.
module _ {ℓ} {A : Type ℓ} where
  exists_row-delete_where :
      (q p : A → Bool) (rs : List A)
      → exists_row q rs ≡ false
      → exists_row q (delete_where p rs) ≡ false
  unfolding exists_row delete_where
  exists_row-delete_where q p [] h = refl
  exists_row-delete_where q p (r ∷ rs) h = ground (arith, h, exists_row-delete_where q p rs)

  pub Distinct-delete_where :
      (same : A → A → Bool) (p : A → Bool) (rs : List A)
      → Distinct same rs
      → Distinct same (delete_where p rs)
  unfolding delete_where
  Distinct-delete_where same p [] h = tt
  Distinct-delete_where same p (r ∷ rs) h = elim (Bool-cases (p r)) [
    | inl gone ↦ rw gone (Distinct-delete_where same p rs h.1)
    | inr stays ↦
        rw stays (exists_row-delete_where (same r) p rs h.0, Distinct-delete_where same p rs h.1)
  ]

  pub All-delete_where {κ} :
      (P : A → Type κ) (p : A → Bool) (rs : List A) → All P rs → All P (delete_where p rs)
  unfolding delete_where
  All-delete_where P p [] h = tt
  All-delete_where P p (r ∷ rs) h = elim (Bool-cases (p r)) [
    | inl gone ↦ rw gone (All-delete_where P p rs h.1)
    | inr stays ↦ rw stays (h.0, All-delete_where P p rs h.1)
  ]
