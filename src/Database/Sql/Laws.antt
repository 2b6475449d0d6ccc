-- ===== src/Database/Sql/Laws.antt =====
-- What an UPDATE keeps, and what the SELECTs find after it.
use mathlib.Core.Option
use mathlib.Core.Path.{subst}
use fuze.Prelude.{
  ◌||◌, Option, is_some, ◌≡◌, refl, ◌∙◌, Bool, true, false, none, some, List, [], ◌∷◌, ◌++◌, arith,
  All, if◌then◌else◌, Bool-cases, inl, inr, nat_eq,
}
use fuze.Database.Sql.{update_where, select_one, exists_row}

-- a row after `UPDATE … SET f WHERE p`
abbrev pub updated {ℓ} : {A : Type ℓ} → (A → Bool) → (A → A) → A → A
updated p f r = if p r then f r else r

-- no two rows agree on a unique index
abbrev pub Distinct {ℓ} : {A : Type ℓ} → (A → A → Bool) → List A → Type 0
Distinct same [] = Unit
Distinct same (r ∷ rs) = (exists_row (same r) rs ≡ false) × Distinct same rs

module _ {ℓ} {A : Type ℓ} where
  pub All-update_where {κ} :
      (P : A → Type κ) (p : A → Bool) (f : A → A)
      → ((r : A) → P r → p r ≡ true → P (f r))
      → (rs : List A) → All P rs
      → All P (update_where p f rs)
  unfolding update_where
  All-update_where P p f keep [] h = h
  All-update_where P p f keep (r ∷ rs) (h, hs) =
      (step (p r) (keep r h), All-update_where P p f keep rs hs)
    where
      step : (b : Bool) → (b ≡ true → P (f r)) → P (if b then f r else r)
      step true k = k refl
      step false k = h

  -- an UPDATE maps every row
  pub All-updated {κ μ} :
      (P : A → Type κ) (Q : A → Type μ) (p : A → Bool) (f : A → A)
      → ((r : A) → P r → Q (updated p f r))
      → (rs : List A) → All P rs
      → All Q (update_where p f rs)
  unfolding update_where
  All-updated P Q p f keep [] h = tt
  All-updated P Q p f keep (r ∷ rs) h = (keep r h.0, All-updated P Q p f keep rs h.1)

  -- an index that the update leaves alone finds the updated row
  pub select_one-update_where :
      (q p : A → Bool) (f : A → A)
      → ((r : A) → q (f r) ≡ q r)
      → (rs : List A)
      → select_one q (update_where p f rs) ≡ Option.map (updated p f) (select_one q rs)
  unfolding select_one update_where
  select_one-update_where q p f same [] = refl
  select_one-update_where q p f same (r ∷ rs) =
      ground (arith, same r, select_one-update_where q p f same rs)

  pub exists_row-update_where :
      (q p : A → Bool) (f : A → A)
      → ((r : A) → q (f r) ≡ q r)
      → (rs : List A) → exists_row q (update_where p f rs) ≡ exists_row q rs
  unfolding exists_row update_where
  exists_row-update_where q p f same [] = refl
  exists_row-update_where q p f same (r ∷ rs) =
      ground (arith, same r, exists_row-update_where q p f same rs)

  -- where the update does not touch the index, the rows stay distinct
  pub Distinct-update_where :
      (same : A → A → Bool) (p : A → Bool) (f : A → A)
      → ((s r : A) → same s (f r) ≡ same s r)
      → ((s : A) → same (f s) ≡ same s)
      → (rs : List A) → Distinct same rs
      → Distinct same (update_where p f rs)
  unfolding update_where
  Distinct-update_where same p f right left [] h = h
  Distinct-update_where same p f right left (r ∷ rs) (h, hs) =
      (head (p r), Distinct-update_where same p f right left rs hs)
    where
      kept : exists_row (same r) (update_where p f rs) ≡ false
      kept = exists_row-update_where (same r) p f (right r) rs ∙ h

      head : (b : Bool) → exists_row (same (if b then f r else r)) (update_where p f rs) ≡ false
      head true = rw (left r) kept
      head false = kept

  pub select_one_sound :
      (q : A → Bool) (rs : List A) (r : A) → select_one q rs ≡ some r → q r ≡ true
  unfolding select_one
  select_one_sound q [] r e = cc
  select_one_sound q (s ∷ rs) r e = elim (Bool-cases (q s)) [
    | inl hit ↦ ground (arith, hit)
    | inr miss ↦ select_one_sound q rs r (rw miss at e)
  ]

  pub All-select_one {κ} :
      (P : A → Type κ) (q : A → Bool) (rs : List A) (r : A)
      → All P rs
      → select_one q rs ≡ some r
      → P r
  unfolding select_one
  All-select_one P q [] r h e = absurd (cc)
  All-select_one P q (s ∷ rs) r h e = elim (Bool-cases (q s)) [
    | inl hit ↦ (let same : s ≡ r = ground (arith, hit) in subst P same h.0)
    | inr miss ↦ All-select_one P q rs r h.1 (rw miss at e)
  ]

  -- a constraint's check and the query agree
  pub exists_row-eq : (q : A → Bool) (rs : List A) → exists_row q rs ≡ is_some (select_one q rs)
  unfolding exists_row select_one
  exists_row-eq q [] = refl
  exists_row-eq q (r ∷ rs) = ground (arith, exists_row-eq q rs)

  pub select_one-none :
      (q : A → Bool) (rs : List A) → exists_row q rs ≡ false → select_one q rs ≡ none
  select_one-none q rs e = ground (arith, exists_row-eq q rs)

  -- where no row satisfies the condition, the update changes nothing
  pub update_where-none :
      (p : A → Bool) (f : A → A) (rs : List A) → select_one p rs ≡ none → update_where p f rs ≡ rs
  unfolding select_one update_where
  update_where-none p f [] e = refl
  update_where-none p f (r ∷ rs) e = elim (Bool-cases (p r)) [
    | inl hit ↦ absurd (ground (arith, hit))
    | inr miss ↦ rw (miss, update_where-none p f rs (rw miss at e))
  ]

abbrev pub kept_if {ℓ} : {A : Type ℓ} → (A → Bool) → Option A → Option A
kept_if p none = none
kept_if p (some r) = if p r then some r else none

module _ {ℓ} {A : Type ℓ} where
  exists_row_mono :
      (p q : A → Bool) (rs : List A)
      → ((r : A) → p r ≡ true → q r ≡ true)
      → exists_row q rs ≡ false
      → select_one p rs ≡ none
  unfolding exists_row select_one
  exists_row_mono p q [] imp h = refl
  exists_row_mono p q (r ∷ rs) imp h = ground (arith, imp r, exists_row_mono p q rs imp)

  -- A condition that fixes a unique key is a test on the one row with that key.
  pub select_one-keyed :
      (same : A → A → Bool) (q p : A → Bool)
      → ((r : A) → p r ≡ true → q r ≡ true)
      → ((r s : A) → q r ≡ true → q s ≡ true → same r s ≡ true)
      → (rs : List A) → Distinct same rs
      → select_one p rs ≡ kept_if p (select_one q rs)
  unfolding select_one
  select_one-keyed same q p imp key [] h = refl
  select_one-keyed same q p imp key (r ∷ rs) (h, hs) = elim (Bool-cases (q r)) [
    | inl hit ↦ elim (Bool-cases (p r)) [
      | inl fits ↦ ground (arith, hit, fits)
      | inr fails ↦ rw (hit, fails) (exists_row_mono p (same r) rs (λ s e. key r s hit (imp s e)) h)
    ]
    | inr miss ↦ ground (arith, imp r, miss, select_one-keyed same q p imp key rs hs)
  ]

module _ {ℓ} {A : Type ℓ} where
  -- a row that was found is found after an INSERT
  pub select_one-insert :
      (q : A → Bool) (rs : List A) (r s : A)
      → select_one q rs ≡ some r
      → select_one q (rs ++ s ∷ []) ≡ some r
  unfolding select_one
  select_one-insert q [] r s e = absurd (cc)
  select_one-insert q (x ∷ rs) r s e = elim (Bool-cases (q x)) [
    | inl hit ↦ rw hit (rw hit at e)
    | inr miss ↦ rw miss (select_one-insert q rs r s (rw miss at e))
  ]

  pub exists_row-select_one :
      (q p : A → Bool) (rs : List A) (r : A)
      → select_one q rs ≡ some r
      → p r ≡ true
      → exists_row p rs ≡ true
  unfolding select_one exists_row
  exists_row-select_one q p [] r e h = absurd (cc)
  exists_row-select_one q p (x ∷ rs) r e h = elim (Bool-cases (q x)) [
    | inl hit ↦ (let same : x ≡ r = ground (arith, hit) in rw (same, h) refl)
    | inr miss ↦
        (let later = exists_row-select_one q p rs r (rw miss at e) h in ground (arith, later))
  ]

  -- A row that one condition finds is found by its unique key.
  pub select_one-key :
      (same : A → A → Bool) (q p : A → Bool) (r : A)
      → p r ≡ true
      → ((s : A) → p s ≡ true → same s r ≡ true)
      → (rs : List A) → Distinct same rs
      → select_one q rs ≡ some r
      → select_one p rs ≡ some r
  unfolding select_one
  select_one-key same q p r h key [] apart e = absurd (cc)
  select_one-key same q p r h key (x ∷ rs) apart e = elim (Bool-cases (q x)) [
    | inl hit ↦ (let eq : x ≡ r = ground (arith, hit) in rw (eq, h) refl)
    | inr miss ↦ elim (Bool-cases (p x)) [
      | inl fits ↦ absurd (
          ground
            (arith, exists_row-select_one q (same x) rs r (rw miss at e) (key x fits), apart.0))
      | inr other ↦ rw other (select_one-key same q p r h key rs apart.1 (rw miss at e))
    ]
  ]

  pub exists_row-either :
      (p q : A → Bool) (rs : List A)
      → exists_row (λ r. p r || q r) rs ≡ false
      → exists_row p rs ≡ false
  unfolding exists_row
  exists_row-either p q [] h = refl
  exists_row-either p q (r ∷ rs) h = ground (arith, h, exists_row-either p q rs)
