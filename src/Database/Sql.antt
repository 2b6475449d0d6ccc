-- ===== src/Database/Sql.antt =====
-- The statements that the repositories issue, over one table as a list of rows.
pub mod Laws
pub mod Insert
pub mod Unique
use fuze.Prelude.{Bool, true, false, Option, none, some, List, [], ◌∷◌, ◌++◌, if◌then◌else◌}

module _ {ℓ} {A : Type ℓ} where
  -- UPDATE … SET … WHERE …
  unfoldable pub update_where : (A → Bool) → (A → A) → List A → List A
  update_where p f [] = []
  update_where p f (r ∷ rs) = (if p r then f r else r) ∷ update_where p f rs

  -- DELETE FROM … WHERE …
  unfoldable pub delete_where : (A → Bool) → List A → List A
  delete_where p [] = []
  delete_where p (r ∷ rs) = let rest = delete_where p rs in if p r then rest else r ∷ rest

  -- SELECT … WHERE …, in the table's order
  unfoldable pub select_where : (A → Bool) → List A → List A
  select_where p [] = []
  select_where p (r ∷ rs) = let rest = select_where p rs in if p r then r ∷ rest else rest

  -- `scalar_one_or_none` on a query that a unique index answers
  unfoldable pub select_one : (A → Bool) → List A → Option A
  select_one p [] = none
  select_one p (r ∷ rs) = let rest = select_one p rs in if p r then some r else rest

  -- a row that satisfies `p` is there, as the check of a constraint asks
  unfoldable pub exists_row : (A → Bool) → List A → Bool
  exists_row p [] = false
  exists_row p (r ∷ rs) = let rest = exists_row p rs in if p r then true else rest

  -- UPDATE under a unique index that is not deferrable: PostgreSQL writes the rows one after another,
  -- here in the table's order, and raises (`none`) as soon as a written row agrees on the index with
  -- another row of the table. `done` holds the rows that were passed.
  unfoldable pub update_checked :
      (A → A → Bool) → (A → Bool) → (A → A) → List A → List A → Option (List A)
  unfolding exists_row
  update_checked same p f done [] = some done
  update_checked same p f done (r ∷ rs) =
      let written = update_checked same p f (done ++ f r ∷ []) rs in
      let passed = update_checked same p f (done ++ r ∷ []) rs in
      if p r then (if exists_row (same (f r)) (done ++ rs) then none else written) else passed
