-- ===== src/Playlists/Shown.antt =====
-- `Playlist.items`, which the database orders by the position: where each item stands in a list of
-- identifiers, the items are shown in the order of the list.
use fuze.Prelude.{
  ℕ, zero, suc, ◌+◌, ◌≤◌, ◌≡◌, refl, ◌∙◌, sym, ap, Bool, true, false, ◌||◌, some, List, [], ◌∷◌,
  arith, All, length, get_elem?, drop, leb, nat_eq, nat_beq, Bool-cases, inl, inr,
}
use fuze.Prelude.Int.{pos, leb_ℤ}
use fuze.Database.Sql.{select_where, update_where, exists_row}
use fuze.Database.Sql.Laws.{Distinct}
use fuze.Playlists.Models.{PlaylistItem, int_beq, same_place}
use fuze.Playlists.Repository.{
  is_listed, place, in_playlist, insert_by_position, order_by_position, items_of, item_id_list,
}
use fuze.Playlists.Order.{IsOrdered, reordered}
use fuze.Playlists.Reorder.{StandsIn}

abbrev same_position : PlaylistItem → PlaylistItem → Bool
same_position a b = int_beq a.position b.position

-- the items of a list stand at growing indices of `ids`, from `k` on
abbrev Grows : List ℕ → ℕ → List PlaylistItem → Type 0
Grows ids k [] = Unit
Grows ids k (x ∷ xs) =
    (j : ℕ) × (x.position ≡ pos j) × (get_elem? ids j ≡ some x.id) × (k ≤ j) × Grows ids (suc j) xs

get_elem-below : (ids : List ℕ) (j i : ℕ) → get_elem? ids j ≡ some i → suc j ≤ length ids
get_elem-below [] j i h = absurd (cc)
get_elem-below (x ∷ ids) zero i h = omega arith
get_elem-below (x ∷ ids) (suc j) i h = omega (arith, get_elem-below ids j i h)

drop-get_elem :
    (ids : List ℕ) (j i : ℕ) → get_elem? ids j ≡ some i → drop j ids ≡ i ∷ drop (suc j) ids
drop-get_elem [] j i h = absurd (cc)
drop-get_elem (x ∷ ids) zero i h = cc
drop-get_elem (x ∷ ids) (suc j) i h = drop-get_elem ids j i h

drop-length : (ids : List ℕ) → drop (length ids) ids ≡ []
drop-length [] = refl
drop-length (x ∷ ids) = drop-length ids

module _ (ids : List ℕ) where
  Grows-length :
      (k : ℕ) (xs : List PlaylistItem)
      → k ≤ length ids
      → Grows ids k xs
      → length xs + k ≤ length ids
  Grows-length k [] le g = omega (arith, le)
  Grows-length k (x ∷ xs) le (j, at_j, here, up, g) =
      omega (arith, up, Grows-length (suc j) xs (get_elem-below ids j x.id here) g)

  -- as many items as indices are left: none is missing
  Grows-drop :
      (k : ℕ) (xs : List PlaylistItem)
      → length xs + k ≡ length ids
      → Grows ids k xs
      → item_id_list xs ≡ drop k ids
  Grows-drop k [] e g =
      let end_ : k ≡ length ids = omega (arith, e) in
      sym (ap (λ n. drop n ids) end_ ∙ drop-length ids)
  Grows-drop k (x ∷ xs) e (j, at_j, here, up, g) =
      let bound = Grows-length (suc j) xs (get_elem-below ids j x.id here) g in
      let same : j ≡ k = omega (arith, up, bound, e) in
      let ih = Grows-drop (suc j) xs (omega (arith, e, same)) g in
      ap (λ is. x.id ∷ is) ih ∙ sym (drop-get_elem ids j x.id here) ∙ ap (λ n. drop n ids) same

  insert-Grows :
      (k j : ℕ) (it : PlaylistItem) (xs : List PlaylistItem)
      → it.position ≡ pos j
      → get_elem? ids j ≡ some it.id
      → k ≤ j
      → exists_row (same_position it) xs ≡ false
      → Grows ids k xs
      → Grows ids k (insert_by_position it xs)
  unfolding insert_by_position exists_row
  insert-Grows k j it [] at_j here up free g = (j, at_j, here, up, tt)
  insert-Grows k j it (x ∷ xs) at_j here up free (i, at_i, there, low, g) =
      let ne : int_beq it.position x.position ≡ false = ground (arith, free) in
      let rest : exists_row (same_position it) xs ≡ false = ground (arith, free) in
      let apart : nat_beq j i ≡ false = rw (at_j, at_i) at ne in
      elim (Bool-cases (leb (j + 0) (i + 0))) [
        | inl first ↦
            (let before : leb_ℤ it.position x.position ≡ true = rw (at_j, at_i) first in
              rw before (j, at_j, here, up, (i, at_i, there, ground (arith, first, apart), g)))
        | inr later ↦
            (let after : leb_ℤ it.position x.position ≡ false = rw (at_j, at_i) later in
              rw after (
                i,
                at_i,
                there,
                low,
                insert-Grows (suc i) j it xs at_j here (ground (arith, later)) rest g,
              ))
      ]

exists_row-insert :
    (q : PlaylistItem → Bool) (it : PlaylistItem) (is : List PlaylistItem)
    → exists_row q (insert_by_position it is) ≡ (q it || exists_row q is)
unfolding exists_row insert_by_position
exists_row-insert q it [] = ground arith
exists_row-insert q it (x ∷ is) = ground (arith, exists_row-insert q it is)

exists_row-order :
    (q : PlaylistItem → Bool) (is : List PlaylistItem)
    → exists_row q (order_by_position is) ≡ exists_row q is
unfolding exists_row order_by_position
exists_row-order q [] = refl
exists_row-order q (x ∷ is) =
    exists_row-insert q x (order_by_position is) ∙ ground (arith, exists_row-order q is)

length-insert :
    (it : PlaylistItem) (is : List PlaylistItem)
    → length (insert_by_position it is) ≡ suc (length is)
unfolding insert_by_position
length-insert it [] = refl
length-insert it (x ∷ is) = ground (arith, length-insert it is)

length-order : (is : List PlaylistItem) → length (order_by_position is) ≡ length is
unfolding order_by_position
length-order [] = refl
length-order (x ∷ is) = length-insert x (order_by_position is) ∙ ap suc (length-order is)

order-Grows :
    (ids : List ℕ) (is : List PlaylistItem)
    → All (StandsIn ids) is
    → Distinct same_position is
    → Grows ids 0 (order_by_position is)
unfolding order_by_position
order-Grows ids [] h apart = tt
order-Grows ids (x ∷ is) ((j, at_j, here), h) (free, apart) =
    insert-Grows ids 0 j x (order_by_position is) at_j here (omega arith)
      (exists_row-order (same_position x) is ∙ free) (order-Grows ids is h apart)

-- the items of one playlist are at different positions
free_position :
    (i : ℕ) (it : PlaylistItem) (is : List PlaylistItem)
    → in_playlist i it ≡ true
    → exists_row (same_place it) is ≡ false
    → exists_row (same_position it) (select_where (in_playlist i) is) ≡ false
unfolding exists_row select_where
free_position i it [] here free = refl
free_position i it (x ∷ is) here free = ground (arith, here, free, free_position i it is here)

Distinct-position :
    (i : ℕ) (is : List PlaylistItem)
    → Distinct same_place is
    → Distinct same_position (select_where (in_playlist i) is)
unfolding select_where
Distinct-position i [] h = tt
Distinct-position i (x ∷ is) (free, h) = elim (Bool-cases (in_playlist i x)) [
  | inl here ↦ rw here (free_position i x is here free, Distinct-position i is h)
  | inr there ↦ rw there (Distinct-position i is h)
]

-- Where each item of a playlist stands in a list with as many identifiers, the playlist shows the
-- list.
items_of-shows :
    (i : ℕ) (ids : List ℕ) (is : List PlaylistItem)
    → Distinct same_place is
    → All (StandsIn ids) (select_where (in_playlist i) is)
    → length (select_where (in_playlist i) is) ≡ length ids
    → item_id_list (items_of i is) ≡ ids
unfolding items_of
items_of-shows i ids is apart h size =
    let here = select_where (in_playlist i) is in
    let whole : length (order_by_position here) + 0 ≡ length ids =
      omega (arith, length-order here, size) in
    Grows-drop ids 0 (order_by_position here) whole
      (order-Grows ids here h (Distinct-position i is apart))

All-select_where :
    (P : PlaylistItem → Type 0) (q : PlaylistItem → Bool) (is : List PlaylistItem)
    → All (λ it. q it ≡ true → P it) is
    → All P (select_where q is)
unfolding select_where
All-select_where P q [] h = tt
All-select_where P q (x ∷ is) h = elim (Bool-cases (q x)) [
  | inl hit ↦ rw hit (h.0 hit, All-select_where P q is h.1)
  | inr miss ↦ rw miss (All-select_where P q is h.1)
]

length-ids : (is : List PlaylistItem) → length (item_id_list is) ≡ length is
length-ids [] = refl
length-ids (x ∷ is) = ap suc (length-ids is)

length-reordered :
    (i : ℕ) (ids : List ℕ) (is : List PlaylistItem)
    → length (select_where (in_playlist i) (reordered i ids is))
      ≡ length (select_where (in_playlist i) is)
unfolding select_where update_where is_listed place
length-reordered i ids [] = refl
length-reordered i ids (x ∷ is) = ground (arith, length-reordered i ids is)

-- A reordering by as many identifiers as the playlist has items shows the list.
pub reordered-shows :
    (i : ℕ) (ids : List ℕ) (is : List PlaylistItem)
    → IsOrdered (reordered i ids is)
    → All (λ it. in_playlist i it ≡ true → StandsIn ids it) (reordered i ids is)
    → length ids ≡ length (item_id_list (items_of i is))
    → item_id_list (items_of i (reordered i ids is)) ≡ ids
unfolding items_of
reordered-shows i ids is order h size =
    let old = select_where (in_playlist i) is in
    items_of-shows i ids (reordered i ids is) order.places (All-select_where _ _ _ h) (
      length-reordered i ids is
      ∙ sym (size ∙ length-ids (order_by_position old) ∙ length-order old))
