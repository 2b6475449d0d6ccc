-- ===== src/Playlists/Statements.antt =====
-- How the methods of modules/playlists/repository.py end on tables that are in order.
use fuze.Prelude.{
  ℕ, suc, ◌≡◌, refl, Bool, true, not, ◌||◌, Option, none, List, [], ◌∷◌, String, arith, All, ◌==◌,
  nat_eq, Bool-cases, inl, inr, beq_refl,
}
use fuze.Prelude.Int.{ℤ, pos, negsuc, ◌+ℤ◌, max_ℤ}
use fuze.Core.Errors.{Error}
use fuze.Core.Result.{Result, ok, err}
use fuze.Database.Tables.{Db}
use fuze.Database.Sql.{select_where, exists_row}
use fuze.Database.Sql.Insert.{exists_row-last}
use fuze.Database.Exec.{Exec, handle_integrity}
use fuze.Database.Exec.Laws.{resume, handled}
use fuze.Users.Models.{User}
use fuze.Tracks.Rows.{has_id}
use fuze.Playlists.Models.{Playlist, PlaylistItem, same_place}
use fuze.Playlists.Repository.{in_playlist, is_playlist, create, max_position, add_item}
use fuze.Playlists.Order.{is_forward}
use fuze.Playlists.Shelf.{IsShelved, IsThere, grown, opened, shelved}

-- the database in a session: what is committed and what is not are both in order
pub record IsTidy (d : Db) : Type 0 where
  pub current : IsShelved d.sequence d.current
  pub committed : IsShelved d.sequence d.committed

pub undone-IsTidy : (d : Db) → IsTidy d → IsTidy (record d { current = d.committed })
undone-IsTidy d h = record { current = h.committed; committed = h.committed }

pub saved-IsTidy : (d : Db) → IsTidy d → IsTidy (record d { committed = d.current })
saved-IsTidy d h = record { current = h.current; committed = h.current }

-- an identifier is drawn
pub drawn-IsTidy : (d : Db) → IsTidy d → IsTidy (record d { sequence = suc d.sequence })
drawn-IsTidy d h = record {
  current = grown d.sequence d.current h.current;
  committed = grown d.sequence d.committed h.committed;
}

module _ {ℓ} {A : Type ℓ} where
  -- a value comes with what `Post` says of it, and an error leaves the database tidy
  abbrev pub Ends : (A → Db → Type 0) → Result A × Db → Type 0
  Ends Post (ok a, d) = Post a d
  Ends Post (err e, d) = IsTidy d

  abbrev pub TidyEnd : A → Db → Type 0
  TidyEnd a d = IsTidy d

  pub Ends-IsTidy : (out : Result A × Db) → Ends TidyEnd out → IsTidy out.1
  Ends-IsTidy (ok a, d) h = h
  Ends-IsTidy (err e, d) h = h

  handle_integrity-tidy :
      (Post : A → Db → Type 0) (x e : Error) (d : Db)
      → IsTidy d
      → Ends Post (handle_integrity x e d)
  handle_integrity-tidy Post Error.integrity_error e d h = undone-IsTidy d h
  handle_integrity-tidy Post _ e d h = h

  pub handled-Ends :
      (Post : A → Db → Type 0) (e : Error) (out : Result A × Db)
      → Ends Post out
      → Ends Post (handled e out)
  handled-Ends Post e (ok a, d) h = h
  handled-Ends Post e (err x, d) h = handle_integrity-tidy Post x e d h

pub resume-Ends {ℓ κ} :
    {A : Type ℓ} {B : Type κ} (Post : A → Db → Type 0) (Post' : B → Db → Type 0) (f : A → Exec B)
    (out : Result A × Db)
    → Ends Post out
    → ((a : A) (d : Db) → Post a d → Ends Post' (f a d))
    → Ends Post' (resume f out)
resume-Ends Post Post' f (ok a, d) h next = next a d h
resume-Ends Post Post' f (err e, d) h next = h

-- a playlist is there, so that it may get items
pub record Has (i : ℕ) (d : Db) : Type 0 where
  pub tidy : IsTidy d
  pub found : IsThere i d.current.playlists

pub create-Ends :
    (now owner_id : ℕ) (title : String) (description : Option String) (d : Db)
    → IsTidy d
    → Ends (λ (p : Playlist) e. Has p.id e) (create now owner_id title description d)
unfolding create
create-Ends now owner_id title description d h =
    elim (Bool-cases (exists_row (λ (u : User). u.id == owner_id) d.current.users)) [
      | inl known ↦
          (let p : Playlist = record {
            id = d.sequence;
            owner_id = owner_id;
            title = title;
            description = description;
            label_style = "aged";
            label_art = none;
            cover_art = none;
            updated_at = now;
          } in
            rw known (record {
              tidy = record {
                current = opened d.sequence d.current h.current p refl;
                committed = grown d.sequence d.committed h.committed;
              };
              found =
                  exists_row-last (is_playlist d.sequence) d.current.playlists p
                    (beq_refl d.sequence);
            }))
      | inr unknown ↦ rw unknown h
    ]

-- the highest position is that of an item, or -1 without one
abbrev from_minus_one : ℤ → Bool
from_minus_one (pos n) = true
from_minus_one (negsuc n) = n == 0

max-from_minus_one :
    (a b : ℤ) → is_forward a ≡ true → from_minus_one b ≡ true → from_minus_one (max_ℤ a b) ≡ true
max-from_minus_one (pos n) (pos m) h k = ground arith
max-from_minus_one (pos n) (negsuc m) h k = ground (arith, k)
max-from_minus_one (negsuc n) b h k = absurd (cc)

max_position-from_minus_one :
    (i : ℕ) (is : List PlaylistItem)
    → All (λ it. is_forward it.position ≡ true) is
    → from_minus_one (max_position (select_where (in_playlist i) is)) ≡ true
unfolding max_position select_where
max_position-from_minus_one i [] h = refl
max_position-from_minus_one i (it ∷ is) h =
    let ih = max_position-from_minus_one i is h.1 in
    elim (Bool-cases (in_playlist i it)) [
      | inl here ↦ rw here (max-from_minus_one it.position _ h.0 ih)
      | inr there ↦ rw there ih
    ]

pub next-forward : (a : ℤ) → from_minus_one a ≡ true → is_forward (a +ℤ pos 1) ≡ true
unfolding ◌+ℤ◌
next-forward (pos n) h = ground arith
next-forward (negsuc n) h = ground (arith, h)

pub later-forward : (a : ℤ) → is_forward a ≡ true → is_forward (a +ℤ pos 1) ≡ true
later-forward (pos n) h = next-forward (pos n) refl
later-forward (negsuc n) h = absurd (cc)

module _ (i : ℕ) where
  -- an item at the end of a playlist
  pub add_item-Ends :
      (track_id : ℕ) (position : ℤ) (d : Db)
      → is_forward position ≡ true
      → Has i d
      → Ends (λ (it : PlaylistItem) e. Has i e) (add_item i track_id position d)
  unfolding add_item
  add_item-Ends track_id position d forward h =
      let it : PlaylistItem = record {
        id = d.sequence;
        playlist_id = i;
        track_id = track_id;
        position = position;
      } in
      elim (Bool-cases (
        exists_row (same_place it) d.current.playlist_items
        || not (exists_row (has_id track_id) d.current.tracks))) [
          | inl bad ↦ rw bad (drawn-IsTidy d h.tidy)
          | inr good ↦ rw good (record {
            tidy = record {
              current =
                  shelved d.sequence d.current h.tidy.current it refl forward (ground (arith, good))
                    h.found;
              committed = grown d.sequence d.committed h.tidy.committed;
            };
            found = h.found;
          })
        ]

  -- where the next item of the playlist stands
  pub next-position :
      (d : Db)
      → IsTidy d
      → is_forward (max_position (select_where (in_playlist i) d.current.playlist_items) +ℤ pos 1)
        ≡ true
  next-position d h =
      next-forward _
        (max_position-from_minus_one i d.current.playlist_items h.current.order.forward)
