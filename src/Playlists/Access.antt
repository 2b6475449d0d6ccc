-- ===== src/Playlists/Access.antt =====
-- Who may use a playlist: `_ensure_access` of modules/playlists/service.py, in front of each method.
use fuze.Prelude.{ℕ, ◌≡◌, refl, Bool, true, false, Option, none, some, List}
use fuze.Core.Errors.{Error}
use fuze.Core.Result.{ok, err}
use fuze.Database.Tables.{Db}
use fuze.Database.Sql.{select_one}
use fuze.Database.Exec.{Exec}
use fuze.Database.Exec.Laws.{bind-ok, bind-err}
use fuze.Users.Models.{User}
use fuze.Playlists.Models.{Playlist}
use fuze.Playlists.Repository.{is_playlist, get_by_id}
use fuze.Playlists.Service
use fuze.Playlists.Service.{
  may_access, ensure_access, PlaylistUpdate, get_playlist, update_playlist, delete_playlist,
  reorder_items, with_access, detail, update_found, delete_found, add_to, remove_from,
  reorder_found,
}

-- the playlist of an identifier, as a session finds it
abbrev pub playlist_at : ℕ → Db → Option Playlist
playlist_at i d = select_one (is_playlist i) d.current.playlists

-- it is there, and the user owns it or is an administrator
abbrev pub accessible : User → Option Playlist → Bool
accessible user none = false
accessible user (some p) = may_access user p

ensure_access-denied :
    (user : User) (found : Option Playlist) (d : Db)
    → accessible user found ≡ false
    → ensure_access found user d ≡ (err Error.playlist_not_found, d)
unfolding ensure_access
ensure_access-denied user none d h = refl
ensure_access-denied user (some p) d h = rw h refl

ensure_access-granted :
    (user : User) (p : Playlist) (d : Db)
    → may_access user p ≡ true
    → ensure_access (some p) user d ≡ (ok p, d)
unfolding ensure_access
ensure_access-granted user p d h = rw h refl

module _ {ℓ} {A : Type ℓ} (i : ℕ) (user : User) (k : Playlist → Exec A) (d : Db) where
  pub with_access-denied :
      accessible user (playlist_at i d) ≡ false
      → with_access i user k d ≡ (err Error.playlist_not_found, d)
  unfolding get_by_id
  with_access-denied h =
      bind-err (ensure_access (playlist_at i d) user) k d d Error.playlist_not_found
        (ensure_access-denied user (playlist_at i d) d h)

  pub with_access-granted :
      (p : Playlist)
      → playlist_at i d ≡ some p
      → may_access user p ≡ true
      → with_access i user k d ≡ k p d
  unfolding get_by_id
  with_access-granted p found may =
      bind-ok (ensure_access (playlist_at i d) user) k d d p
        (rw found (ensure_access-granted user p d may))

-- A method of the service that refuses: it answers 404 and has written nothing.
abbrev pub Refuses {ℓ} : {A : Type ℓ} → Exec A → Db → Type ℓ
Refuses m d = m d ≡ (err Error.playlist_not_found, d)

-- To a user who neither owns the playlist nor is an administrator every method refuses, as it does
-- to all when there is no such playlist.
pub denied_to_others :
    (i : ℕ) (user : User) (d : Db)
    → accessible user (playlist_at i d) ≡ false
    → (now j : ℕ) (u : PlaylistUpdate) (order : List ℕ)
    → Refuses (get_playlist i user) d
      × Refuses (update_playlist now i u user) d
      × Refuses (delete_playlist i user) d
      × Refuses (Service.add_item now i j user) d
      × Refuses (Service.delete_item now i j user) d
      × Refuses (reorder_items now i order user) d
unfolding get_playlist update_playlist delete_playlist Service.add_item Service.delete_item
    reorder_items
denied_to_others i user d h now j u order = (
  with_access-denied i user (detail i) d h,
  with_access-denied i user (update_found now i u user) d h,
  with_access-denied i user delete_found d h,
  with_access-denied i user (add_to now i j user) d h,
  with_access-denied i user (remove_from now i j) d h,
  with_access-denied i user (reorder_found now i order user) d h,
)
