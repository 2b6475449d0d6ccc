-- ===== src/Playlists/Invariant.antt =====
-- The requests of modules/playlists/service.py that may write, in any order.

use fuze.Playlists.Service
use fuze.Prelude.{ℕ, Option, List, String, nat_eq, string_eq}
use fuze.Database.Tables.{Db}
use fuze.Database.Exec.{pure, commit, ◌>>◌}
use fuze.Users.Models.{User}
use fuze.Tracks.Rows.{TrackValues}
use fuze.Prelude.Sets.{unique}
use fuze.Playlists.Service.{
  PlaylistUpdate, create_playlist, update_playlist, delete_playlist, add_to, remove_from,
  reorder_found, reorder_items, import_file, import_each, import_yandex,
}
use fuze.Playlists.Statements.{
  IsTidy, TidyEnd, Ends-IsTidy, resume-Ends, undone-IsTidy, saved-IsTidy,
}
use fuze.Playlists.Requests.{
  with_access-Ends, create_playlist-Ends, delete_playlist-Ends, update_playlist-Ends, add_to-Ends,
  remove_from-Ends, reorder_found-Ends,
}
use fuze.Playlists.Imports.{Fetch, import_file-Ends, import_each-Ends}

-- One request, or the end of a session, which forgets what was not committed.
pub data Step (d : Db) : Db → Type 0 where
  create :
      (now : ℕ) (title : String) (description : Option String) (user : User)
      → Step d (create_playlist now title description user d).1
  update :
      (now i : ℕ) (u : PlaylistUpdate) (user : User) → Step d (update_playlist now i u user d).1
  delete : (i : ℕ) (user : User) → Step d (delete_playlist i user d).1
  add : (now i track_id : ℕ) (user : User) → Step d (Service.add_item now i track_id user d).1
  remove : (now i j : ℕ) (user : User) → Step d (Service.delete_item now i j user d).1
  reorder : (now i : ℕ) (ids : List ℕ) (user : User) → Step d (reorder_items now i ids user d).1
  from_file :
      (now : ℕ) (title description : String) (tracks : List TrackValues) (user : User)
      → Step d (import_file now title description tracks user d).1
  from_yandex :
      (now : ℕ) (fetch : Fetch) (ids : List String) (user : User)
      → Step d (import_yandex now fetch ids user d).1
  close : Step d (record d { current = d.committed })

pub data Reach (d : Db) : Db → Type 0 where
  here : Reach d d
  next : {e f : Db} → Reach d e → Step e f → Reach d f

pub Step-IsTidy : {d e : Db} → Step d e → IsTidy d → IsTidy e
unfolding reorder_items Service.add_item Service.delete_item import_yandex
Step-IsTidy {d} (create now title description user) h =
    Ends-IsTidy (create_playlist now title description user d)
      (create_playlist-Ends now user d h title description)
Step-IsTidy {d} (update now i u user) h =
    Ends-IsTidy (update_playlist now i u user d) (update_playlist-Ends now user d h i u)
Step-IsTidy {d} (delete i user) h =
    Ends-IsTidy (delete_playlist i user d) (delete_playlist-Ends 0 user d h i)
Step-IsTidy {d} (add now i j user) h = Ends-IsTidy (Service.add_item now i j user d) (
    with_access-Ends i user (add_to now i j user) d h
      (λ p found may. add_to-Ends now user d h i j p found))
Step-IsTidy {d} (remove now i j user) h =
    Ends-IsTidy (Service.delete_item now i j user d)
      (with_access-Ends i user (remove_from now i j) d h (remove_from-Ends now user d h i j))
Step-IsTidy {d} (reorder now i ids user) h = Ends-IsTidy (reorder_items now i ids user d) (
    with_access-Ends i user (reorder_found now i ids user) d h
      (reorder_found-Ends now user d h i ids))
Step-IsTidy {d} (from_file now title description tracks user) h =
    Ends-IsTidy (import_file now title description tracks user d)
      (import_file-Ends now user d h title description tracks)
Step-IsTidy {d} (from_yandex now fetch ids user) h =
    Ends-IsTidy (import_yandex now fetch ids user d) (
      resume-Ends TidyEnd TidyEnd (λ counts. do commit; pure counts)
        (import_each now fetch user 0 0 (unique ids) d)
        (import_each-Ends now fetch user 0 0 (unique ids) d h) (λ counts e k. saved-IsTidy e k))
Step-IsTidy {d} close h = undone-IsTidy d h

-- Whatever requests to create, change, delete, fill, thin out, reorder and import playlists follow
-- one another, with any arguments and errors, and wherever a session ends, the playlists stay in
-- order, committed or not: no two items of a playlist are at one position and none is at a negative
-- one, each item is of a playlist that is there, and the identifiers of playlists and of items stay
-- distinct and drawn from the sequence.
pub Reach-IsTidy : {d e : Db} → IsTidy d → Reach d e → IsTidy e
Reach-IsTidy h here = h
Reach-IsTidy h (next r s) = Step-IsTidy s (Reach-IsTidy h r)
