-- ===== src/Playlists/Reorder.antt =====
-- `reorder` of modules/playlists/repository.py, as a whole.

use mathlib.Core.Path.{subst}
use fuze.Prelude.{
  ℕ, ◌≡◌, refl, ◌∙◌, sym, ap, Bool, true, some, List, [], ◌∷◌, arith, All, get_elem?, nat_eq,
  Bool-cases, inl, inr,
}
use fuze.Prelude.Int.{pos}
use fuze.Core.Result.{ok}
use fuze.Database.Tables.{Db}
use fuze.Database.Sql.{update_where, update_checked}
use fuze.Database.Sql.Laws.{updated, Distinct, All-updated, Distinct-update_where}
use fuze.Database.Sql.Unique.{update_checked-update_where, Distinct-checked}
use fuze.Database.Exec.Laws.{seq-ok}
use fuze.Tracks.Rows.{contains_id}
use fuze.Playlists.Models.{PlaylistItem, same_place}
use fuze.Playlists.Repository.{in_playlist, is_listed, move_aside, place, update_items, reorder}
use fuze.Playlists.Order.{
  is_forward, same_item, IsOrdered, IsAside, same_place_comm, place-position, aside_passed,
  aside_ahead, place_passed, place_ahead, updated-IsAside, update_twice, reordered, and_false,
}

All-both :
    (P Q : PlaylistItem → Type 0) (is : List PlaylistItem)
    → All P is
    → All Q is
    → All (λ it. P it × Q it) is
All-both P Q [] h k = tt
All-both P Q (it ∷ is) h k = ((h.0, k.0), All-both P Q is h.1 k.1)

module _ (playlist_id : ℕ) (ids : List ℕ) (is : List PlaylistItem) (h : IsOrdered is)
    (cover : All (λ it. in_playlist playlist_id it ≡ true → contains_id ids it.id ≡ true) is) where
  aside : List PlaylistItem
  aside = update_where (is_listed playlist_id ids) move_aside is

  update_where-IsAside :
      All (IsAside playlist_id ids) (update_where (is_listed playlist_id ids) move_aside is)
  update_where-IsAside =
      All-updated
        (λ it.
          (is_forward it.position ≡ true)
          × (in_playlist playlist_id it ≡ true → contains_id ids it.id ≡ true))
        (IsAside playlist_id ids) (is_listed playlist_id ids) move_aside
        (updated-IsAside playlist_id ids) is (All-both _ _ is h.forward cover)

  aside-ids : Distinct same_item (update_where (is_listed playlist_id ids) move_aside is)
  aside-ids =
      Distinct-update_where same_item (is_listed playlist_id ids) move_aside
        (unfold move_aside in λ s r. refl) (unfold move_aside in λ s. refl) is h.ids

  aside-places : Distinct same_place (update_where (is_listed playlist_id ids) move_aside is)
  aside-places =
      Distinct-checked same_place same_place (is_listed playlist_id ids) move_aside
        (λ it. is_forward it.position ≡ true) (aside_passed playlist_id ids)
        (aside_ahead playlist_id ids) same_place_comm is h.places h.forward h.places

  moved_aside :
      update_checked same_place (is_listed playlist_id ids) move_aside [] is
      ≡ some (update_where (is_listed playlist_id ids) move_aside is)
  moved_aside =
      update_checked-update_where same_place same_place (is_listed playlist_id ids) move_aside
        (λ it. is_forward it.position ≡ true) (aside_passed playlist_id ids)
        (aside_ahead playlist_id ids) is h.places h.forward

  moved_back :
      update_checked same_place
        (is_listed playlist_id ids)
        (place ids)
        []
        (update_where (is_listed playlist_id ids) move_aside is)
      ≡ some (reordered playlist_id ids is)
  moved_back =
      update_checked-update_where same_place same_item (is_listed playlist_id ids) (place ids)
        (IsAside playlist_id ids) (place_passed playlist_id ids) (place_ahead playlist_id ids)
        (update_where (is_listed playlist_id ids) move_aside is) aside-ids update_where-IsAside
      ∙ ap some (update_twice playlist_id ids is)

  place_forward :
      (it : PlaylistItem)
      → is_forward it.position ≡ true
      → is_forward (updated (is_listed playlist_id ids) (place ids) it).position ≡ true
  place_forward it k = elim (Bool-cases (is_listed playlist_id ids it)) [
    | inl e ↦ (let (j, there, _) = place-position playlist_id ids it e in rw (e, there) refl)
    | inr e ↦ rw e k
  ]

  -- The new table is ordered again.
  pub reordered-IsOrdered : IsOrdered (reordered playlist_id ids is)
  reordered-IsOrdered = record {
    places = subst (Distinct same_place) (update_twice playlist_id ids is) (
        Distinct-checked same_place same_item (is_listed playlist_id ids) (place ids)
          (IsAside playlist_id ids) (place_passed playlist_id ids) (place_ahead playlist_id ids)
          same_place_comm (update_where (is_listed playlist_id ids) move_aside is) aside-ids
          update_where-IsAside aside-places);
    ids =
        Distinct-update_where same_item (is_listed playlist_id ids) (place ids)
          (unfold place in λ s r. refl) (unfold place in λ s. refl) is h.ids;
    forward =
        All-updated (λ it. is_forward it.position ≡ true) (λ it. is_forward it.position ≡ true)
          (is_listed playlist_id ids) (place ids) place_forward is h.forward;
  }

-- the place of an item in the list
abbrev pub StandsIn : List ℕ → PlaylistItem → Type 0
StandsIn ids it = (j : ℕ) × (it.position ≡ pos j) × (get_elem? ids j ≡ some it.id)

reordered_nil : (i : ℕ) (is : List PlaylistItem) → reordered i [] is ≡ is
unfolding update_where is_listed contains_id
reordered_nil i [] = refl
reordered_nil i (it ∷ is) = rw (and_false (in_playlist i it), reordered_nil i is) refl

-- the database with new rows in `playlist_items`
abbrev pub with_items : Db → List PlaylistItem → Db
with_items d is = record d { current = record d.current { playlist_items = is } }

-- every item of the playlist is listed
abbrev pub Covers : ℕ → List ℕ → List PlaylistItem → Type 0
Covers i ids = All (λ it. in_playlist i it ≡ true → contains_id ids it.id ≡ true)

update_items-written :
    (p : PlaylistItem → Bool) (f : PlaylistItem → PlaylistItem) (d : Db) (is : List PlaylistItem)
    → update_checked same_place p f [] d.current.playlist_items ≡ some is
    → update_items p f d ≡ (ok tt, with_items d is)
unfolding update_items
update_items-written p f d is e = rw e refl

module _ (playlist_id : ℕ) (d : Db) (h : IsOrdered d.current.playlist_items) where
  -- Neither of the two statements conflicts.
  pub reorder-reordered :
      (ids : List ℕ)
      → Covers playlist_id ids d.current.playlist_items
      → reorder playlist_id ids d
        ≡ (ok tt, with_items d (reordered playlist_id ids d.current.playlist_items))
  unfolding reorder
  reorder-reordered [] cover =
      ap (λ is. (ok tt, with_items d is)) (sym (reordered_nil playlist_id d.current.playlist_items))
  reorder-reordered (i ∷ ids) cover =
      let is = d.current.playlist_items in
      let away = update_where (is_listed playlist_id (i ∷ ids)) move_aside is in
      seq-ok (update_items (is_listed playlist_id (i ∷ ids)) move_aside)
        (update_items (is_listed playlist_id (i ∷ ids)) (place (i ∷ ids))) d (with_items d away)
        (update_items-written _ _ d away (moved_aside playlist_id (i ∷ ids) is h cover))
      ∙ update_items-written _ _ (with_items d away) (reordered playlist_id (i ∷ ids) is)
          (moved_back playlist_id (i ∷ ids) is h cover)

  item-StandsIn :
      (ids : List ℕ) (it : PlaylistItem)
      → (in_playlist playlist_id it ≡ true → contains_id ids it.id ≡ true)
      → in_playlist playlist_id (updated (is_listed playlist_id ids) (place ids) it) ≡ true
      → StandsIn ids (updated (is_listed playlist_id ids) (place ids) it)
  unfolding is_listed
  item-StandsIn ids it cover here = elim (Bool-cases (is_listed playlist_id ids it)) [
    | inl e ↦
        (let (j, there, found) = place-position playlist_id ids it e in
          rw e (j, there, found ∙ ap some (unfold place in refl)))
    | inr e ↦ absurd (ground (arith, e, cover, rw e at here))
  ]

  -- Then each item of the playlist stands where the list has it.
  pub reordered-StandsIn :
      (ids : List ℕ)
      → Covers playlist_id ids d.current.playlist_items
      → All
          (λ it. in_playlist playlist_id it ≡ true → StandsIn ids it)
          (reordered playlist_id ids d.current.playlist_items)
  reordered-StandsIn ids cover =
      All-updated (λ it. in_playlist playlist_id it ≡ true → contains_id ids it.id ≡ true)
        (λ it. in_playlist playlist_id it ≡ true → StandsIn ids it) (is_listed playlist_id ids)
        (place ids) (item-StandsIn ids) d.current.playlist_items cover
