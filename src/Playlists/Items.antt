-- ===== src/Playlists/Items.antt =====
-- The list of the items of a playlist: which identifiers `item_ids` has, and what the comparison of
-- `reorder_items` with them means.
use fuze.Prelude.{
  ℕ, ◌≡◌, refl, ◌∙◌, true, ◌||◌, List, [], ◌∷◌, arith, All-weaken, ◌==◌, nat_eq, beq_refl,
}
use fuze.Database.Sql.{select_where}
use fuze.Tracks.Rows.{contains_id}
use fuze.Playlists.Models.{PlaylistItem}
use fuze.Playlists.Repository.{
  in_playlist, insert_by_position, order_by_position, items_of, item_id_list,
}
use fuze.Playlists.Reorder.{Covers}
use fuze.Playlists.Service.{all_in, is_order_of}

contains_id-insert :
    (i : ℕ) (it : PlaylistItem) (is : List PlaylistItem)
    → contains_id (item_id_list (insert_by_position it is)) i
      ≡ (it.id == i || contains_id (item_id_list is) i)
unfolding contains_id insert_by_position
contains_id-insert i it [] = refl
contains_id-insert i it (x ∷ is) = ground (arith, contains_id-insert i it is)

contains_id-order :
    (i : ℕ) (is : List PlaylistItem)
    → contains_id (item_id_list (order_by_position is)) i ≡ contains_id (item_id_list is) i
unfolding contains_id order_by_position
contains_id-order i [] = refl
contains_id-order i (x ∷ is) =
    contains_id-insert i x (order_by_position is) ∙ rw (contains_id-order i is) refl

select_where-Covers :
    (i : ℕ) (is : List PlaylistItem) → Covers i (item_id_list (select_where (in_playlist i) is)) is
unfolding contains_id select_where
select_where-Covers i [] = tt
select_where-Covers i (x ∷ is) = (
  λ here. rw here (rw (beq_refl x.id) refl),
  All-weaken _ _ is (λ it h here. ground (arith, h here)) (select_where-Covers i is),
)

-- `item_ids` has every item of the playlist.
pub items_of-Covers : (i : ℕ) (is : List PlaylistItem) → Covers i (item_id_list (items_of i is)) is
unfolding items_of
items_of-Covers i is =
    All-weaken _ _ is
      (λ it h here. contains_id-order it.id (select_where (in_playlist i) is) ∙ h here)
      (select_where-Covers i is)

contains_id-all_in :
    (xs ys : List ℕ) (i : ℕ)
    → all_in xs ys ≡ true
    → contains_id xs i ≡ true
    → contains_id ys i ≡ true
unfolding all_in contains_id
contains_id-all_in [] ys i h k = absurd (cc)
contains_id-all_in (x ∷ xs) ys i h k = ground (arith, h, k, contains_id-all_in xs ys i)

-- An order that passes the comparison lists every item.
pub is_order_of-Covers :
    (i : ℕ) (ids : List ℕ) (is : List PlaylistItem)
    → is_order_of ids (item_id_list (items_of i is)) ≡ true
    → Covers i ids is
unfolding is_order_of
is_order_of-Covers i ids is h =
    All-weaken _ _ is
      (λ it k here.
        contains_id-all_in (item_id_list (items_of i is)) ids it.id (ground (arith, h)) (k here))
      (items_of-Covers i is)
