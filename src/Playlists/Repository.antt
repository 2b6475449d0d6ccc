-- ===== src/Playlists/Repository.antt =====
-- modules/playlists/repository.py: the methods of `PlaylistsRepository`. None commits by itself.
use fuze.Prelude.{
  ℕ, suc, String, Bool, true, false, ◌&&◌, ◌||◌, not, Option, none, some, List, [], ◌∷◌, ◌++◌, map,
  length, nat_eq, ◌==◌, string_eq, if◌then◌else◌,
}
use fuze.Prelude.Int.{ℤ, pos, negsuc, leb_ℤ, max_ℤ, ◌+ℤ◌}
use fuze.Core.Errors.{Error}
use fuze.Database.Exec.{Exec, pure, gets, or_raise, raise_if, modify, next_id, ◌>>=◌, ◌>>◌}
use fuze.Database.Sql.{
  update_where, delete_where, select_where, select_one, exists_row, update_checked,
}
use fuze.Users.Models.{User}
use fuze.Tracks.Models.{Track}
use fuze.Tracks.Rows.{TrackValues, has_id, has_source, contains_id}
use fuze.Tracks.Statements.{insert_track}
use fuze.Playlists.Models.{Playlist, PlaylistItem, same_place}

abbrev pub on_items : (List PlaylistItem → List PlaylistItem) → Exec (Unit {0})
on_items f = modify (λ s. record s { playlist_items = f s.playlist_items })

abbrev pub on_playlists : (List Playlist → List Playlist) → Exec (Unit {0})
on_playlists f = modify (λ s. record s { playlists = f s.playlists })

abbrev pub is_playlist : ℕ → Playlist → Bool
is_playlist i p = p.id == i

abbrev pub in_playlist : ℕ → PlaylistItem → Bool
in_playlist i it = it.playlist_id == i

abbrev pub is_item : ℕ → ℕ → PlaylistItem → Bool
is_item playlist_id item_id it = it.playlist_id == playlist_id && it.id == item_id

-- ORDER BY position
unfoldable pub insert_by_position : PlaylistItem → List PlaylistItem → List PlaylistItem
insert_by_position it [] = it ∷ []
insert_by_position it (x ∷ xs) =
    let rest = insert_by_position it xs in
    if leb_ℤ it.position x.position then it ∷ x ∷ xs else x ∷ rest

unfoldable pub order_by_position : List PlaylistItem → List PlaylistItem
unfolding insert_by_position
order_by_position [] = []
order_by_position (it ∷ is) = insert_by_position it (order_by_position is)

-- the items of a playlist, as `Playlist.items` and `item_ids` order them
unfoldable pub items_of : ℕ → List PlaylistItem → List PlaylistItem
unfolding order_by_position
items_of playlist_id is = order_by_position (select_where (in_playlist playlist_id) is)

abbrev pub item_id_list : List PlaylistItem → List ℕ
item_id_list = map (λ it. it.id)

unfoldable pub get_by_id : ℕ → Exec (Option Playlist)
get_by_id playlist_id = gets (λ s. select_one (is_playlist playlist_id) s.playlists)

-- one row for each playlist, in the order of the identifiers, with the number of its items
unfoldable pub with_counts : List PlaylistItem → List Playlist → List (Playlist × ℕ)
with_counts is = map (λ p. (p, length (select_where (in_playlist p.id) is)))

abbrev pub owned_by : Option ℕ → Playlist → Bool
owned_by none p = true
owned_by (some owner_id) p = p.owner_id == owner_id

unfoldable pub list_with_counts : Option ℕ → Exec (List (Playlist × ℕ))
unfolding with_counts
list_with_counts owner_id =
    gets (λ s. with_counts s.playlist_items (select_where (owned_by owner_id) s.playlists))

-- the foreign key on `users` is checked by the flush
unfoldable pub create : ℕ → ℕ → String → Option String → Exec Playlist
create now owner_id title description = do
  owner ← gets (λ s. exists_row (λ (u : User). u.id == owner_id) s.users)
  raise_if (not owner) Error.integrity_error
  id ← next_id
  let playlist : Playlist = record {
    id = id;
    owner_id = owner_id;
    title = title;
    description = description;
    label_style = "aged";
    label_art = none;
    cover_art = none;
    updated_at = now;
  }
  on_playlists (λ ps. ps ++ playlist ∷ [])
  pure playlist

unfoldable pub get_track : ℕ → Exec (Option Track)
get_track track_id = gets (λ s. select_one (has_id track_id) s.tracks)

-- coalesce(max(position), -1) + 1
unfoldable pub max_position : List PlaylistItem → ℤ
max_position [] = negsuc 0
max_position (it ∷ is) = max_ℤ it.position (max_position is)

unfoldable pub next_position : ℕ → Exec ℤ
unfolding max_position
next_position playlist_id =
    gets (λ s. max_position (select_where (in_playlist playlist_id) s.playlist_items) +ℤ pos 1)

-- INSERT of one item: the unique place and the foreign key on `tracks` are checked
unfoldable pub add_item : ℕ → ℕ → ℤ → Exec PlaylistItem
add_item playlist_id track_id position = do
  id ← next_id
  let item : PlaylistItem = record {
    id = id;
    playlist_id = playlist_id;
    track_id = track_id;
    position = position;
  }
  taken ← gets (λ s. exists_row (same_place item) s.playlist_items)
  there ← gets (λ s. exists_row (has_id track_id) s.tracks)
  raise_if (taken || not there) Error.integrity_error
  on_items (λ is. is ++ item ∷ [])
  pure item

unfoldable pub get_item : ℕ → ℕ → Exec (Option PlaylistItem)
get_item playlist_id item_id = gets (λ s. select_one (is_item playlist_id item_id) s.playlist_items)

-- `{item_id: position for position, item_id in enumerate(item_ids)}`: the last position of an
-- identifier counts
unfoldable pub position_in : List ℕ → ℕ → ℕ → Option ℕ
position_in [] from i = none
position_in (x ∷ xs) from i =
    let later = position_in xs (suc from) i in
    elim later [ some k ↦ some k | none ↦ if x == i then some from else none ]

-- position = -position - 1
abbrev pub mirror : ℤ → ℤ
mirror (pos n) = negsuc n
mirror (negsuc n) = pos n

unfoldable pub is_listed : ℕ → List ℕ → PlaylistItem → Bool
unfolding contains_id
is_listed playlist_id item_ids it = in_playlist playlist_id it && contains_id item_ids it.id

unfoldable pub move_aside : PlaylistItem → PlaylistItem
move_aside it = record it { position = mirror it.position }

abbrev pub placed : Option ℕ → ℤ → ℤ
placed none p = p
placed (some k) p = pos k

unfoldable pub place : List ℕ → PlaylistItem → PlaylistItem
unfolding position_in
place item_ids it = record it { position = placed (position_in item_ids 0 it.id) it.position }

-- one of the two UPDATE statements of `reorder`
unfoldable pub update_items :
    (PlaylistItem → Bool) → (PlaylistItem → PlaylistItem) → Exec (Unit {0})
update_items p f = do
  written ← gets (λ s. update_checked same_place p f [] s.playlist_items)
  is ← or_raise written Error.integrity_error
  on_items (λ _. is)

unfoldable pub reorder : ℕ → List ℕ → Exec (Unit {0})
reorder playlist_id [] = pure tt
reorder playlist_id (i ∷ is) = do
  update_items (is_listed playlist_id (i ∷ is)) move_aside
  update_items (is_listed playlist_id (i ∷ is)) (place (i ∷ is))

unfoldable pub item_ids : ℕ → Exec (List ℕ)
unfolding items_of
item_ids playlist_id = gets (λ s. item_id_list (items_of playlist_id s.playlist_items))

unfoldable pub delete_item : PlaylistItem → Exec (Unit {0})
delete_item item = do
  on_items (delete_where (λ it. it.id == item.id))
  remaining_ids ← item_ids item.playlist_id
  reorder item.playlist_id remaining_ids

-- the items go with their playlist (ON DELETE CASCADE)
unfoldable pub delete : Playlist → Exec (Unit {0})
delete playlist = do
  on_items (delete_where (in_playlist playlist.id))
  on_playlists (delete_where (is_playlist playlist.id))

unfoldable pub touch : ℕ → ℕ → Exec (Unit {0})
touch now playlist_id =
    on_playlists (update_where (is_playlist playlist_id) λ p. record p { updated_at = now })

-- `if source_id in seen`
unfoldable pub seen_id : String → List String → Bool
seen_id x [] = false
seen_id x (y ∷ ys) = if y == x then true else seen_id x ys

-- the item that one imported track adds, with the position after it and the count so far
unfoldable pub import_item : ℕ → ℕ → ℤ → ℕ → Bool → Exec (ℤ × ℕ)
unfolding add_item
import_item playlist_id track_id position added true = pure (position, added)
import_item playlist_id track_id position added false = do
  _ ← add_item playlist_id track_id position
  pure (position +ℤ pos 1, suc added)

unfoldable pub import_track : ℕ → TrackValues → ℤ → ℕ → Exec (ℤ × ℕ)
unfolding import_item
import_track playlist_id values position added = do
  id ← next_id
  modify (λ s. record s { tracks = insert_track id values s.tracks })
  found ← gets (λ s. select_one (has_source values.source values.source_id) s.tracks)
  track ← or_raise found Error.runtime_error
  there ← gets (λ s.
      exists_row (λ it. in_playlist playlist_id it && it.track_id == track.id) s.playlist_items)
  import_item playlist_id track.id position added there

unfoldable pub import_loop : ℕ → List String → ℤ → ℕ → List TrackValues → Exec ℕ
unfolding import_track seen_id
import_loop playlist_id seen position added [] = pure added
import_loop playlist_id seen position added (values ∷ rest) = elim (seen_id values.source_id seen) [
  | true ↦ import_loop playlist_id seen position added rest
  | false ↦ import_track playlist_id values position added >>= λ out.
      import_loop playlist_id (values.source_id ∷ seen) out.0 out.1 rest
]

unfoldable pub import_tracks : ℕ → List TrackValues → Exec ℕ
unfolding import_loop next_position
import_tracks playlist_id tracks = do
  position ← next_position playlist_id
  import_loop playlist_id [] position 0 tracks
