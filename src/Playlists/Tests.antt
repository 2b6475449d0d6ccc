-- ===== src/Playlists/Tests.antt =====
-- Requests for a playlist of two items, by its owner and by another user.
use fuze.Prelude.{
  String, Option, ◌≡◌, refl, true, false, not, none, some, [], ◌∷◌, arith, ◌==◌, nat_eq, ◌&&◌,
}
use fuze.Prelude.Int.{pos}
use fuze.Core.Result.{ok}
use fuze.Database.Tables.{Db}
use fuze.Database.Sql.{select_where, select_one, exists_row}
use fuze.Playlists.Models.{Playlist, PlaylistItem}
use fuze.Playlists.Repository.{
  in_playlist, item_id_list, items_of, order_by_position, insert_by_position,
}
use fuze.Playlists.Order.{IsOrdered, reordered}
use fuze.Playlists.Service
use fuze.Playlists.Service.{
  PlaylistUpdate, get_playlist, update_playlist, delete_playlist, reorder_items, may_access,
  is_order_of, all_in, import_file,
}
use fuze.Tracks.Rows.{contains_id}
use fuze.Playlists.Access.{Refuses, denied_to_others}
use fuze.Playlists.Moves.{
  saved, closed_up, order_of, without, reorder_items-result, delete_item-result,
}
use fuze.Playlists.Schemas.{
  UpdateBody, validate_artwork, validate_create, validate_update, validate_item_ids,
}
use fuze.Playlists.Shelf.{IsShelved}
use fuze.Playlists.Statements.{IsTidy}
use fuze.Playlists.Invariant.{Step, Reach, Reach-IsTidy}
use fuze.Fixtures.{no_rows, settled_db, listener, stranger}

abbrev mix : Playlist
mix = record {
  id = 7;
  owner_id = 2;
  title = "Mix";
  description = none;
  label_style = "aged";
  label_art = none;
  cover_art = none;
  updated_at = 100;
}

abbrev first : PlaylistItem
first = record { id = 10; playlist_id = 7; track_id = 1; position = pos 0 }

abbrev second : PlaylistItem
second = record { id = 11; playlist_id = 7; track_id = 2; position = pos 1 }

abbrev store : Db
store = settled_db 20 (record no_rows {
  users = listener ∷ stranger ∷ [];
  playlists = mix ∷ [];
  playlist_items = first ∷ second ∷ [];
})

store-IsOrdered : IsOrdered (first ∷ second ∷ [])
unfolding exists_row
store-IsOrdered = record {
  places = (refl, (refl, tt));
  ids = (refl, (refl, tt));
  forward = (refl, (refl, tt));
}

store-IsTidy : IsTidy store
unfolding exists_row
store-IsTidy =
    let shelf : IsShelved 20 store.current = record {
      order = store-IsOrdered;
      housed = (refl, (refl, tt));
      item_ids = (omega arith, (omega arith, tt));
      lists = (refl, tt);
      list_ids = (omega arith, tt);
    } in
    record { current = shelf; committed = shelf }

-- the owner reverses the playlist, and then imports a file
Reach-IsTidy_example :
    IsTidy
      (import_file 300 "New" "A file" [] listener
        (reorder_items 200 7 (11 ∷ 10 ∷ []) listener store).1).1
Reach-IsTidy_example = Reach-IsTidy store-IsTidy (
    Reach.next (Reach.next Reach.here (Step.reorder 200 7 (11 ∷ 10 ∷ []) listener))
      (Step.from_file 300 "New" "A file" [] listener))

mix-found : select_one (λ p. p.id == 7) (mix ∷ []) ≡ some mix
unfolding select_one
mix-found = refl

owner_may : may_access listener mix ≡ true
unfolding may_access
owner_may = refl

stranger_may_not : may_access stranger mix ≡ false
unfolding may_access
stranger_may_not = refl

new_order : is_order_of (11 ∷ 10 ∷ []) (item_id_list (items_of 7 (first ∷ second ∷ []))) ≡ true
unfolding is_order_of all_in contains_id items_of order_by_position insert_by_position select_where
new_order = refl

abbrev renamed : PlaylistUpdate
renamed = record {
  title = some "Mine";
  description = none;
  label_style = none;
  label_art = none;
  cover_art = none;
}

denied_to_others_example :
    Refuses (get_playlist 7 stranger) store
    × Refuses (update_playlist 200 7 renamed stranger) store
    × Refuses (delete_playlist 7 stranger) store
    × Refuses (Service.add_item 200 7 10 stranger) store
    × Refuses (Service.delete_item 200 7 10 stranger) store
    × Refuses (reorder_items 200 7 (11 ∷ 10 ∷ []) stranger) store
unfolding select_one may_access
denied_to_others_example = denied_to_others 7 stranger store refl 200 10 renamed (11 ∷ 10 ∷ [])

reorder_items-result_example :
    let is = reordered 7 (11 ∷ 10 ∷ []) (first ∷ second ∷ []) in
    (reorder_items 200 7 (11 ∷ 10 ∷ []) listener store ≡ (
      ok (record { playlist = record mix { updated_at = 200 }; items = items_of 7 is }),
      saved 200 7 store is,
    ))
    × IsOrdered is
    × (order_of 7 is ≡ 11 ∷ 10 ∷ [])
    × (select_where (λ it. not (in_playlist 7 it)) is
        ≡ select_where (λ it. not (in_playlist 7 it)) (first ∷ second ∷ []))
reorder_items-result_example =
    reorder_items-result 200 7 listener mix store store-IsOrdered mix-found owner_may (11 ∷ 10 ∷ [])
      new_order

item-found :
    select_one (λ it. (it.playlist_id == 7) && (it.id == 10)) (first ∷ second ∷ []) ≡ some first
unfolding select_one
item-found = refl

delete_item-result_example :
    let is = closed_up 7 first (first ∷ second ∷ []) in
    (Service.delete_item 200 7 10 listener store ≡ (ok tt, saved 200 7 store is))
    × IsOrdered is
    × (order_of 7 is ≡ order_of 7 (without first (first ∷ second ∷ [])))
delete_item-result_example =
    delete_item-result 200 7 10 listener mix first store store-IsOrdered mix-found owner_may
      item-found

-- a picture of so many bytes
abbrev picture : Option String
picture = some "data:image/PNG;base64,AAAA"

picture_accepted : validate_artwork (λ _. some 3) picture ≡ some picture
unfolding validate_artwork
picture_accepted = refl

picture_too_large : validate_artwork (λ _. some 1048577) picture ≡ none
unfolding validate_artwork
picture_too_large = refl

text_refused : validate_artwork (λ _. some 3) (some "data:text/html;base64,AAAA") ≡ none
unfolding validate_artwork
text_refused = refl

new_playlist : validate_create " Mix " (some "  ") ≡ some ("Mix", none)
unfolding validate_create
new_playlist = refl

abbrev nothing : UpdateBody
nothing = record {
  title = none;
  description = none;
  label_style = none;
  label_art = none;
  cover_art = none;
}

nothing_refused : validate_update (λ _. none) nothing ≡ none
unfolding validate_update
nothing_refused = refl

null_title_refused : validate_update (λ _. none) (record nothing { title = some none }) ≡ none
unfolding validate_update
null_title_refused = refl

repeated_refused : validate_item_ids (pos 3 ∷ (pos 4 ∷ (pos 3 ∷ []))) ≡ none
unfolding validate_item_ids
repeated_refused = refl
