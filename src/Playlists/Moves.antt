-- ===== src/Playlists/Moves.antt =====
-- `reorder_items` and `delete_item` of modules/playlists/service.py, from the request to the rows.
use fuze.Prelude.{◌==◌, nat_eq, ℕ, ◌≡◌, refl, ◌∙◌, true, not, some, List, [], ◌∷◌, arith}
use fuze.Core.Errors.{Error}
use fuze.Core.Result.{ok}
use fuze.Database.Tables.{Tables, Db}
use fuze.Database.Sql.{update_where, delete_where, select_one, select_where}
use fuze.Database.Sql.Laws.{select_one-update_where, select_one_sound}
use fuze.Database.Exec.{◌>>◌, on_integrity_error, commit}
use fuze.Database.Exec.Laws.{seq-ok, guarded-ok}
use fuze.Users.Models.{User}
use fuze.Playlists.Models.{Playlist, PlaylistItem}
use fuze.Playlists.Repository
use fuze.Playlists.Repository.{
  is_playlist, item_id_list, items_of, reorder, touch, item_ids, in_playlist, is_item, is_listed,
  place,
}
use fuze.Playlists.Order.{IsOrdered, reordered}
use fuze.Playlists.Shelf.{thinned}
use fuze.Playlists.Reorder.{
  with_items, Covers, reorder-reordered, reordered-IsOrdered, reordered-StandsIn,
}
use fuze.Playlists.Service
use fuze.Playlists.Service.{
  may_access, is_order_of, get_playlist, reorder_found, reorder_items, remove_from, detail,
}
use fuze.Playlists.Access.{playlist_at, with_access-granted}
use fuze.Playlists.Shown.{reordered-shows}
use fuze.Playlists.Items.{items_of-Covers, is_order_of-Covers}

abbrev touched : ℕ → ℕ → List Playlist → List Playlist
touched now i = update_where (is_playlist i) λ p. record p { updated_at = now }

-- the database after a change of the items of a playlist was committed
abbrev pub saved : ℕ → ℕ → Db → List PlaylistItem → Db
saved now i d is =
    let after : Tables = record d.current {
      playlist_items = is;
      playlists = touched now i d.current.playlists;
    } in
    record d { current = after; committed = after }

-- the identifiers of a playlist's items, in their order
abbrev pub order_of : ℕ → List PlaylistItem → List ℕ
order_of i is = item_id_list (items_of i is)

module _ (now i : ℕ) (ids : List ℕ) (d : Db) (h : IsOrdered d.current.playlist_items)
    (cover : Covers i ids d.current.playlist_items) where
  reorder_saved :
      (do reorder i ids; touch now i; commit) d
      ≡ (ok tt, saved now i d (reordered i ids d.current.playlist_items))
  unfolding touch
  reorder_saved =
      seq-ok (reorder i ids) (touch now i >> commit) d _ (reorder-reordered i d h ids cover)

module _ (now i : ℕ) (user : User) (p : Playlist) (d : Db) (found : playlist_at i d ≡ some p)
    (may : may_access user p ≡ true) (is : List PlaylistItem) where
  touched-found : playlist_at i (saved now i d is) ≡ some (record p { updated_at = now })
  touched-found =
      select_one-update_where (is_playlist i) (is_playlist i) (λ q. record q { updated_at = now })
        (λ q. refl) d.current.playlists
      ∙ rw (found, select_one_sound (is_playlist i) d.current.playlists p found) refl

  -- what the user is shown after the change
  shown_saved : get_playlist i user (saved now i d is) ≡ (
    ok (record { playlist = record p { updated_at = now }; items = items_of i is }),
    saved now i d is,
  )
  unfolding get_playlist detail may_access
  shown_saved =
      with_access-granted i user (detail i) (saved now i d is) (record p { updated_at = now })
        touched-found may

others-reordered :
    (i : ℕ) (ids : List ℕ) (is : List PlaylistItem)
    → select_where (λ it. not (in_playlist i it)) (reordered i ids is)
      ≡ select_where (λ it. not (in_playlist i it)) is
unfolding select_where update_where is_listed place
others-reordered i ids [] = refl
others-reordered i ids (it ∷ is) = ground (arith, others-reordered i ids is)

module _ (now i : ℕ) (user : User) (p : Playlist) (d : Db) (h : IsOrdered d.current.playlist_items)
    (found : playlist_at i d ≡ some p) (may : may_access user p ≡ true) (ids : List ℕ)
    (fits : is_order_of ids (item_id_list (items_of i d.current.playlist_items)) ≡ true) where
  reorder_items-saved :
      reorder_items now i ids user d
      ≡ get_playlist i user (saved now i d (reordered i ids d.current.playlist_items))
  unfolding reorder_items reorder_found item_ids
  reorder_items-saved =
      with_access-granted i user (reorder_found now i ids user) d p found may
      ∙ rw fits (
          seq-ok
            (on_integrity_error (do reorder i ids; touch now i; commit) Error.playlist_conflict)
            (get_playlist i user) d (saved now i d (reordered i ids d.current.playlist_items))
            (guarded-ok (do reorder i ids; touch now i; commit) Error.playlist_conflict d
              (saved now i d (reordered i ids d.current.playlist_items)) tt
              (reorder_saved now i ids d h
                (is_order_of-Covers i ids d.current.playlist_items fits))))

  -- When the playlists' items are in order, a user who may use the playlist and gives an order of
  -- its items is shown it with the new time and its items in this order, the items of other
  -- playlists are as before, and the items are in order again.
  pub reorder_items-result :
      let is = reordered i ids d.current.playlist_items in
      (reorder_items now i ids user d ≡ (
        ok (record { playlist = record p { updated_at = now }; items = items_of i is }),
        saved now i d is,
      ))
      × IsOrdered is
      × (order_of i is ≡ ids)
      × (select_where (λ it. not (in_playlist i it)) is
          ≡ select_where (λ it. not (in_playlist i it)) d.current.playlist_items)
  reorder_items-result =
      let is = d.current.playlist_items in
      let order = reordered-IsOrdered i ids is h (is_order_of-Covers i ids is fits) in
      let cover = is_order_of-Covers i ids d.current.playlist_items fits in
      (
        reorder_items-saved
            ∙ shown_saved now i user p d found may (reordered i ids d.current.playlist_items),
        order,
        reordered-shows i ids is order (reordered-StandsIn i d h ids cover)
            (unfold is_order_of in ground (arith, fits)),
        others-reordered i ids d.current.playlist_items,
      )

-- the items without one of them
abbrev pub without : PlaylistItem → List PlaylistItem → List PlaylistItem
without it = delete_where (λ x. x.id == it.id)

-- the items after one of them is deleted
abbrev pub closed_up : ℕ → PlaylistItem → List PlaylistItem → List PlaylistItem
closed_up i it is = reordered i (order_of i (without it is)) (without it is)

module _ (now i j : ℕ) (user : User) (p : Playlist) (it : PlaylistItem) (d : Db)
    (h : IsOrdered d.current.playlist_items) (found : playlist_at i d ≡ some p)
    (may : may_access user p ≡ true)
    (there : select_one (is_item i j) d.current.playlist_items ≡ some it) where
  in_this : it.playlist_id ≡ i
  in_this =
      let e : is_item i j it ≡ true =
        select_one_sound (is_item i j) d.current.playlist_items it there in
      ground (arith, e)

  closed :
      Repository.delete_item it d ≡ (ok tt, with_items d (closed_up i it d.current.playlist_items))
  unfolding Repository.delete_item item_ids
  closed = rw in_this (
      reorder-reordered i (with_items d (without it d.current.playlist_items))
        (thinned (λ x. x.id == it.id) d.current.playlist_items h)
        (order_of i (without it d.current.playlist_items))
        (items_of-Covers i (without it d.current.playlist_items)))

  remove_saved :
      (do Repository.delete_item it; touch now i; commit) d
      ≡ (ok tt, saved now i d (closed_up i it d.current.playlist_items))
  unfolding touch
  remove_saved = seq-ok (Repository.delete_item it) (touch now i >> commit) d _ closed

  -- When the playlists' items are in order and a user who may use the playlist deletes an item of
  -- it, the change is committed with the new time of the playlist, the playlist shows the rest in the
  -- order that it had, and the items are in order again.
  pub delete_item-result :
      let is = closed_up i it d.current.playlist_items in
      (Service.delete_item now i j user d ≡ (ok tt, saved now i d is))
      × IsOrdered is
      × (order_of i is ≡ order_of i (without it d.current.playlist_items))
  unfolding Service.delete_item remove_from Repository.get_item
  delete_item-result =
      let is = d.current.playlist_items in
      let left = without it is in
      let ids = order_of i left in
      let rest = thinned (λ x. x.id == it.id) is h in
      let order = reordered-IsOrdered i ids left rest (items_of-Covers i left) in
      (
        with_access-granted i user (remove_from now i j) d p found may
            ∙ rw there (
                guarded-ok (do Repository.delete_item it; touch now i; commit)
                  Error.playlist_conflict d (saved now i d (closed_up i it is)) tt remove_saved),
        order,
        reordered-shows i ids left order
            (reordered-StandsIn i (with_items d left) rest ids (items_of-Covers i left)) refl,
      )
