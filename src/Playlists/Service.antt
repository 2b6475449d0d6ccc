-- ===== src/Playlists/Service.antt =====
-- modules/playlists/service.py: `PlaylistsService`. The clock is an argument.
use fuze.Prelude.{
  ℕ, ◌+◌, map, String, Bool, true, false, ◌&&◌, ◌||◌, not, Option, none, some, List, [], ◌∷◌,
  length, nat_eq, ◌==◌, is_none, string_eq, if◌then◌else◌,
}
use fuze.Core.Config.{is_admin}
use fuze.Core.Errors.{Error}
use fuze.Database.Exec.{
  Exec, pure, raise, gets, or_raise, raise_if, commit, on_integrity_error, ◌>>=◌, ◌>>◌,
}
use fuze.Database.Sql.{update_where}
use fuze.Users.Models.{User}
use fuze.Prelude.Sets.{unique}
use fuze.Prelude.Texts.{take_chars}
use fuze.Tracks.Models.{TrackSource}
use fuze.Tracks.Service.{SearchItem, item_values}
use fuze.Tracks.Rows.{TrackValues, contains_id}
use fuze.Playlists.Models.{Playlist, PlaylistItem}
use fuze.Playlists.Repository
use fuze.Playlists.Repository.{is_playlist, get_by_id, items_of, list_with_counts, on_playlists}

-- `PlaylistDetail`: the playlist, and its items in the order of their positions
pub record PlaylistDetail : Type 0 where
  pub playlist : Playlist
  pub items : List PlaylistItem

-- the condition of `_ensure_access`
unfoldable pub may_access : User → Playlist → Bool
may_access user p = p.owner_id == user.id || is_admin user.role

unfoldable pub ensure_access : Option Playlist → User → Exec Playlist
ensure_access none user = raise Error.playlist_not_found
ensure_access (some p) user = do raise_if (not (may_access user p)) Error.playlist_not_found; pure p

-- the lines in front of every method: the playlist is looked up, and the access to it checked
abbrev pub with_access {ℓ} : {A : Type ℓ} → ℕ → User → (Playlist → Exec A) → Exec A
with_access playlist_id user body = do
  found ← get_by_id playlist_id
  p ← ensure_access found user
  body p

unfoldable pub list_playlists : User → Exec (List (Playlist × ℕ))
list_playlists user = list_with_counts (if is_admin user.role then none else some user.id)

unfoldable pub create_playlist : ℕ → String → Option String → User → Exec (Playlist × ℕ)
create_playlist now title description user =
    on_integrity_error (do p ← Repository.create now user.id title description; commit; pure (p, 0))
      Error.playlist_conflict

unfoldable pub detail : ℕ → Playlist → Exec PlaylistDetail
detail playlist_id p = do
  items ← gets (λ s. items_of playlist_id s.playlist_items)
  pure (record { playlist = p; items = items })

unfoldable pub get_playlist : ℕ → User → Exec PlaylistDetail
get_playlist playlist_id user = with_access playlist_id user (detail playlist_id)

-- the fields of `PlaylistUpdate` that were set, each with its new value
pub record PlaylistUpdate : Type 0 where
  pub title : Option String
  pub description : Option (Option String)
  pub label_style : Option (Option String)
  pub label_art : Option (Option String)
  pub cover_art : Option (Option String)

abbrev pub assigned {ℓ} : {A : Type ℓ} → Option A → A → A
assigned none old = old
assigned (some new) old = new

-- `label_style` may be set to None, which the NOT NULL column refuses at the flush
abbrev pub style_is_null : PlaylistUpdate → Bool
style_is_null u = elim u.label_style [ some style ↦ is_none style | none ↦ false ]

abbrev pub assigned_style : Option (Option String) → String → String
assigned_style (some (some new)) old = new
assigned_style _ old = old

abbrev pub set_fields : PlaylistUpdate → Playlist → Playlist
set_fields u p = record p {
  title = assigned u.title p.title;
  description = assigned u.description p.description;
  label_style = assigned_style u.label_style p.label_style;
  label_art = assigned u.label_art p.label_art;
  cover_art = assigned u.cover_art p.cover_art;
}

abbrev pub same_text : Option String → Option String → Bool
same_text none none = true
same_text (some s) (some t) = s == t
same_text _ _ = false

-- no column has another value, and so the session has no UPDATE to send
abbrev pub same_fields : Playlist → Playlist → Bool
same_fields p q =
    p.title == q.title
    && (same_text p.description q.description
        && (p.label_style == q.label_style
            && (same_text p.label_art q.label_art && same_text p.cover_art q.cover_art)))

-- the assignments, and `onupdate` of `updated_at` where a column changed
unfoldable pub assign_fields : ℕ → PlaylistUpdate → Playlist → Playlist
assign_fields now u p = record (set_fields u p) {
  updated_at = if same_fields (set_fields u p) p then p.updated_at else now;
}

unfoldable pub update_found : ℕ → ℕ → PlaylistUpdate → User → Playlist → Exec PlaylistDetail
update_found now playlist_id u user _ = do
  on_integrity_error
      (do
        raise_if (style_is_null u) Error.integrity_error
        on_playlists (update_where (is_playlist playlist_id) (assign_fields now u))
        commit)
      Error.playlist_conflict
  get_playlist playlist_id user

unfoldable pub update_playlist : ℕ → ℕ → PlaylistUpdate → User → Exec PlaylistDetail
update_playlist now playlist_id u user =
    with_access playlist_id user (update_found now playlist_id u user)

unfoldable pub delete_found : Playlist → Exec (Unit {0})
delete_found p = on_integrity_error (do Repository.delete p; commit) Error.playlist_conflict

unfoldable pub delete_playlist : ℕ → User → Exec (Unit {0})
delete_playlist playlist_id user = with_access playlist_id user delete_found

-- the item of the detail that has the new identifier
abbrev pub find_item : ℕ → List PlaylistItem → Option PlaylistItem
find_item i [] = none
find_item i (it ∷ is) = if it.id == i then some it else find_item i is

unfoldable pub add_to : ℕ → ℕ → ℕ → User → Playlist → Exec PlaylistItem
add_to now playlist_id track_id user _ = do
  track ← Repository.get_track track_id
  raise_if (is_none track) Error.playlist_track_not_found
  position ← Repository.next_position playlist_id
  item ←
      on_integrity_error
        (do
          it ← Repository.add_item playlist_id track_id position
          Repository.touch now playlist_id
          commit
          pure it)
        Error.playlist_conflict
  shown ← get_playlist playlist_id user
  or_raise (find_item item.id shown.items) Error.runtime_error

unfoldable pub add_item : ℕ → ℕ → ℕ → User → Exec PlaylistItem
add_item now playlist_id track_id user =
    with_access playlist_id user (add_to now playlist_id track_id user)

unfoldable pub remove_from : ℕ → ℕ → ℕ → Playlist → Exec (Unit {0})
remove_from now playlist_id item_id _ = do
  item ← Repository.get_item playlist_id item_id
  it ← or_raise item Error.playlist_item_not_found
  on_integrity_error (do Repository.delete_item it; Repository.touch now playlist_id; commit)
      Error.playlist_conflict

unfoldable pub delete_item : ℕ → ℕ → ℕ → User → Exec (Unit {0})
delete_item now playlist_id item_id user =
    with_access playlist_id user (remove_from now playlist_id item_id)

-- set(xs) <= set(ys)
unfoldable pub all_in : List ℕ → List ℕ → Bool
unfolding contains_id
all_in [] ys = true
all_in (x ∷ xs) ys = contains_id ys x && all_in xs ys

-- len(item_ids) != len(current_ids) or set(item_ids) != set(current_ids)
unfoldable pub is_order_of : List ℕ → List ℕ → Bool
unfolding all_in
is_order_of item_ids current_ids =
    length item_ids == length current_ids
    && (all_in item_ids current_ids && all_in current_ids item_ids)

unfoldable pub reorder_found : ℕ → ℕ → List ℕ → User → Playlist → Exec PlaylistDetail
reorder_found now playlist_id item_ids user _ = do
  current_ids ← Repository.item_ids playlist_id
  raise_if (not (is_order_of item_ids current_ids)) Error.invalid_playlist_order
  on_integrity_error
      (do Repository.reorder playlist_id item_ids; Repository.touch now playlist_id; commit)
      Error.playlist_conflict
  get_playlist playlist_id user

unfoldable pub reorder_items : ℕ → ℕ → List ℕ → User → Exec PlaylistDetail
reorder_items now playlist_id item_ids user =
    with_access playlist_id user (reorder_found now playlist_id item_ids user)

unfoldable pub import_file : ℕ → String → String → List TrackValues → User → Exec (ℕ × ℕ)
import_file now title description tracks user = do
  p ← Repository.create now user.id title (some description)
  added ← Repository.import_tracks p.id tracks
  commit
  pure (1, added)

-- the loop of `import_yandex`; `fetch` is `get_user_playlist`, and none an exception of the client
unfoldable pub import_each :
    ℕ → (String → Option (String × List SearchItem)) → User → ℕ → ℕ → List String → Exec (ℕ × ℕ)
unfolding item_values take_chars
import_each now fetch user created added [] = pure (created, added)
import_each now fetch user created added (source_id ∷ ids) = do
  found ← or_raise (fetch source_id) Error.runtime_error
  p ← Repository.create now user.id (take_chars 100 found.0) (some "Imported from Yandex Music")
  n ← Repository.import_tracks p.id (map (item_values TrackSource.yandex) found.1)
  import_each now fetch user (created + 1) (added + n) ids

unfoldable pub import_yandex :
    ℕ → (String → Option (String × List SearchItem)) → List String → User → Exec (ℕ × ℕ)
unfolding import_each unique
import_yandex now fetch playlist_ids user = do
  counts ← import_each now fetch user 0 0 (unique playlist_ids)
  commit
  pure counts
