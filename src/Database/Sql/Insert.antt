-- ===== src/Database/Sql/Insert.antt =====
-- What an INSERT at the end of a table keeps and adds.
use fuze.Prelude.{
  ◌≡◌, refl, ◌∙◌, Bool, true, false, some, List, [], ◌∷◌, ◌++◌, arith, All, Bool-cases, inl, inr, ℕ,
  ◌<◌, ◌==◌, nat_eq, nat_beq,
}
use fuze.Database.Sql.{select_one, exists_row}
use fuze.Database.Sql.Laws.{Distinct}

module _ {ℓ} {A : Type ℓ} where
  pub All-append {κ} :
      (P : A → Type κ) (rs : List A) (r : A) → All P rs → P r → All P (rs ++ r ∷ [])
  All-append P [] r h k = (k, tt)
  All-append P (s ∷ rs) r h k = (h.0, All-append P rs r h.1 k)

  exists_row-append :
      (q : A → Bool) (rs : List A) (r : A)
      → exists_row q rs ≡ false
      → q r ≡ false
      → exists_row q (rs ++ r ∷ []) ≡ false
  unfolding exists_row
  exists_row-append q [] r h k = ground arith
  exists_row-append q (s ∷ rs) r h k = ground (arith, exists_row-append q rs r)

  -- A row that agrees with none on the index may be added at the end.
  pub Distinct-append :
      (same : A → A → Bool) (rs : List A) (r : A)
      → ((a b : A) → same a b ≡ same b a)
      → exists_row (same r) rs ≡ false
      → Distinct same rs
      → Distinct same (rs ++ r ∷ [])
  unfolding exists_row
  Distinct-append same [] r comm new h = (refl, tt)
  Distinct-append same (s ∷ rs) r comm new (h, hs) = elim (Bool-cases (same r s)) [
    | inl hit ↦ absurd (ground (arith, hit))
    | inr miss ↦ (
      exists_row-append (same s) rs r h (comm s r ∙ miss),
      Distinct-append same rs r comm (rw miss at new) hs,
    )
  ]

  -- the next identifier of the sequence is that of no row
  pub exists_row-fresh :
      (key : A → ℕ) (n : ℕ) (rs : List A)
      → All (λ r. key r < n) rs
      → exists_row (λ r. n == key r) rs ≡ false
  unfolding exists_row
  exists_row-fresh key n [] h = refl
  exists_row-fresh key n (r ∷ rs) h =
      let ne : nat_beq n (key r) ≡ false = ground (arith, h.0) in
      rw (ne, exists_row-fresh key n rs h.1) refl

  pub exists_row-kept :
      (q : A → Bool) (rs : List A) (r : A)
      → exists_row q rs ≡ true
      → exists_row q (rs ++ r ∷ []) ≡ true
  unfolding exists_row
  exists_row-kept q [] r h = absurd (cc)
  exists_row-kept q (s ∷ rs) r h = ground (arith, exists_row-kept q rs r)

  pub exists_row-last :
      (q : A → Bool) (rs : List A) (r : A) → q r ≡ true → exists_row q (rs ++ r ∷ []) ≡ true
  unfolding exists_row
  exists_row-last q [] r h = ground arith
  exists_row-last q (s ∷ rs) r h = ground (arith, exists_row-last q rs r)

  pub select_one-append :
      (q : A → Bool) (rs : List A) (r : A)
      → exists_row q rs ≡ false
      → q r ≡ true
      → select_one q (rs ++ r ∷ []) ≡ some r
  unfolding exists_row select_one
  select_one-append q [] r h k = ground arith
  select_one-append q (s ∷ rs) r h k = ground (arith, select_one-append q rs r)
