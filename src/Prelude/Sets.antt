-- ===== src/Prelude/Sets.antt =====
-- Python's sets and the keys of its dictionaries, as lists in the order of their first occurrence.
use mathlib.Core.Path.{◌≡◌, refl}
use mathlib.Core.Bool.{Bool, true, false, not, ◌&&◌, ◌||◌}
use mathlib.Core.List.{List, [], ◌∷◌}
use native.Mathlib.Omega.{arith}
use fuze.Prelude.Tests.{Equality, ◌==◌, if◌then◌else◌, Bool-cases, beq_refl}
use mathlib.Core.Logic.{inl, inr}
use fuze.Prelude.Lists.{All}

module _ {ℓ} {A : Type ℓ} ⦃q : Equality A⦄ where
  -- `a in xs`
  unfoldable pub contains : A → List A → Bool
  contains a [] = false
  contains a (x ∷ xs) = x == a || contains a xs

  unfoldable pub without : A → List A → List A
  without a [] = []
  without a (x ∷ xs) = let rest = without a xs in if x == a then rest else x ∷ rest

  -- `list(dict.fromkeys(xs))`, `set(xs)`
  unfoldable pub unique : List A → List A
  unfolding without
  unique [] = []
  unique (x ∷ xs) = x ∷ without x (unique xs)

  -- `xs - ys`
  unfoldable pub minus : List A → List A → List A
  unfolding contains
  minus [] ys = []
  minus (x ∷ xs) ys = let rest = minus xs ys in if contains x ys then rest else x ∷ rest

  pub contains-without :
      (a b : A) (xs : List A) → contains b (without a xs) ≡ (contains b xs && not (a == b))
  unfolding contains without
  contains-without a b [] = refl
  contains-without a b (x ∷ xs) =
      ground (arith, q.test_iff x a, q.test_iff x b, q.test_iff a b, contains-without a b xs)

  -- what holds of each member holds of the list
  pub All-contains {κ} :
      (P : A → Type κ) (xs : List A) → ((a : A) → contains a xs ≡ true → P a) → All P xs
  unfolding contains
  All-contains P [] h = tt
  All-contains P (x ∷ xs) h =
      (h x (rw (beq_refl x) refl), All-contains P xs λ a there. h a (ground (arith, there)))

  pub contains-unique : (a : A) (xs : List A) → contains a (unique xs) ≡ contains a xs
  unfolding contains unique
  contains-unique a [] = refl
  contains-unique a (x ∷ xs) =
      ground (arith, contains-without x a (unique xs), contains-unique a xs)

  pub contains-minus :
      (a : A) (xs ys : List A) → contains a (minus xs ys) ≡ (contains a xs && not (contains a ys))
  unfolding minus contains
  contains-minus a [] ys = refl
  contains-minus a (x ∷ xs) ys = elim (Bool-cases (x == a)) [
    | inl same ↦
        (let e : x ≡ a = (q.test_iff x a).0 same in
          rw e (ground (arith, beq_refl a, contains-minus a xs ys)))
    | inr apart ↦ ground (arith, apart, contains-minus a xs ys)
  ]
