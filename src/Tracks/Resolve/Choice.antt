-- ===== src/Tracks/Resolve/Choice.antt =====
-- The first of the candidates that the sort puts first: the best one that is accepted.
use fuze.Prelude.{
  ℕ, true, false, ◌&&◌, Option, none, some, List, [], ◌∷◌, ◌++◌, ◌≡◌, refl, ap, ◌∙◌, arith, All,
  ltb, leb, Bool-cases, inl, inr, if◌then◌else◌,
}
use fuze.Tracks.Models.{Track, source_eq}
use fuze.Tracks.Resolve.{Candidate, Matching, accepts, score, scored, insert, sort}

All-append_list :
    {A : Type 0} (P : A → Type 0) (xs ys : List A) → All P xs → All P ys → All P (xs ++ ys)
All-append_list P [] ys hx hy = hy
All-append_list P (x ∷ xs) ys hx hy = (hx.0, All-append_list P xs ys hx.1 hy)

All-mono :
    {A : Type 0} (P Q : A → Type 0) (xs : List A) → ((x : A) → P x → Q x) → All P xs → All Q xs
All-mono P Q [] f h = tt
All-mono P Q (x ∷ xs) f h = (f x h.0, All-mono P Q xs f h.1)

abbrev pub head : List (ℕ × Candidate) → Option (ℕ × Candidate)
head [] = none
head (p ∷ ps) = some p

abbrev better : ℕ × Candidate → Option (ℕ × Candidate) → ℕ × Candidate
better p none = p
better p (some q) = if ltb p.0 q.0 then q else p

-- the first of the greatest
best : List (ℕ × Candidate) → Option (ℕ × Candidate)
best [] = none
best (p ∷ ps) = some (better p (best ps))

head-insert :
    (p : ℕ × Candidate) (qs : List (ℕ × Candidate)) → head (insert p qs) ≡ some (better p (head qs))
unfolding insert
head-insert p [] = refl
head-insert p (q ∷ qs) = elim (Bool-cases (ltb p.0 q.0)) [
  | inl less ↦ rw less refl
  | inr more ↦ rw more refl
]

head-sort : (ps : List (ℕ × Candidate)) → head (sort ps) ≡ best ps
unfolding sort best
head-sort [] = refl
head-sort (p ∷ ps) = head-insert p (sort ps) ∙ ap (λ o. some (better p o)) (head-sort ps)

module _ (m : Matching) (t : Track) where
  -- the candidate is accepted, no earlier one that is accepted is as good and no later one is better
  pub record IsBest (cs : List Candidate) (c : Candidate) : Type 0 where
    pub before : List Candidate
    pub after : List Candidate
    pub split : cs ≡ before ++ c ∷ after
    pub fits : accepts m t c ≡ true
    pub earlier : All (λ x. (accepts m t x && leb (score m t c) (score m t x)) ≡ false) before
    pub later : All (λ x. (accepts m t x && ltb (score m t c) (score m t x)) ≡ false) after

  -- no candidate that is accepted is above `n`
  abbrev Below : ℕ → List Candidate → Type 0
  Below n = All λ x. (accepts m t x && ltb n (score m t x)) ≡ false

  IsBest-Below :
      (n : ℕ) (cs : List Candidate) (c : Candidate)
      → IsBest cs c
      → leb (score m t c) n ≡ true
      → Below n cs
  IsBest-Below n cs c b low = rw b.split (
      All-append_list _ b.before (c ∷ b.after)
        (All-mono _ _ b.before (λ x h. ground (arith, h, low)) b.earlier)
        (ground (arith, low), All-mono _ _ b.after (λ x h. ground (arith, h, low)) b.later))

  abbrev pub Choice : List Candidate → Option (ℕ × Candidate) → Type 0
  Choice cs none = All (λ x. accepts m t x ≡ false) cs
  Choice cs (some p) = (p.0 ≡ score m t p.1) × IsBest cs p.1

  -- an earlier candidate that is not as good changes nothing
  passed :
      (c : Candidate) (cs : List Candidate) (d : Candidate)
      → IsBest cs d
      → (accepts m t c && leb (score m t d) (score m t c)) ≡ false
      → IsBest (c ∷ cs) d
  passed c cs d b worse = record {
    before = c ∷ b.before;
    after = b.after;
    split = ap (λ xs. c ∷ xs) b.split;
    fits = b.fits;
    earlier = (worse, b.earlier);
    later = b.later;
  }

  skipped :
      (c : Candidate) (cs : List Candidate) (o : Option (ℕ × Candidate))
      → accepts m t c ≡ false
      → Choice cs o
      → Choice (c ∷ cs) o
  skipped c cs none misfit h = (misfit, h)
  skipped c cs (some p) misfit (valued, b) = (valued, passed c cs p.1 b (ground (arith, misfit)))

  added :
      (c : Candidate) (cs : List Candidate) (o : Option (ℕ × Candidate))
      → accepts m t c ≡ true
      → Choice cs o
      → Choice (c ∷ cs) (some (better (score m t c, c) o))
  added c cs none fits h = (
    refl,
    record {
      before = [];
      after = cs;
      split = refl;
      fits = fits;
      earlier = tt;
      later = All-mono _ _ cs (λ x r. ground (arith, r)) h;
    },
  )
  added c cs (some p) fits (valued, b) = elim (Bool-cases (ltb (score m t c) p.0)) [
    | inl less ↦ rw less (valued, passed c cs p.1 b (ground (arith, less, valued)))
    | inr more ↦ rw more (
      refl,
      record {
        before = [];
        after = cs;
        split = refl;
        fits = fits;
        earlier = tt;
        later = IsBest-Below (score m t c) cs p.1 b (ground (arith, more, valued));
      },
    )
  ]

  best-Choice : (cs : List Candidate) → Choice cs (best (scored m t cs))
  unfolding best scored
  best-Choice [] = tt
  best-Choice (c ∷ cs) = elim (Bool-cases (accepts m t c)) [
    | inl fits ↦ rw fits (added c cs (best (scored m t cs)) fits (best-Choice cs))
    | inr misfit ↦ rw misfit (skipped c cs (best (scored m t cs)) misfit (best-Choice cs))
  ]

  pub sorted-Choice : (cs : List Candidate) → Choice cs (head (sort (scored m t cs)))
  sorted-Choice cs = rw (head-sort (scored m t cs)) (best-Choice cs)
