-- ===== src/Playlists/Models.antt =====
-- modules/playlists/models.py: the `playlists` and `playlist_items` tables. A position is a signed
-- integer, since reordering passes through negative ones.
use fuze.Prelude.{ℕ, String, Bool, false, ◌&&◌, Option, ◌==◌, nat_beq, nat_eq}
use fuze.Prelude.Int.{ℤ, pos, negsuc}

pub record Playlist : Type 0 where
  pub id : ℕ
  pub owner_id : ℕ
  pub title : String
  pub description : Option String
  pub label_style : String
  pub label_art : Option String
  pub cover_art : Option String
  pub updated_at : ℕ

pub record PlaylistItem : Type 0 where
  pub id : ℕ
  pub playlist_id : ℕ
  pub track_id : ℕ
  pub position : ℤ

abbrev pub int_beq : ℤ → ℤ → Bool
int_beq (pos a) (pos b) = nat_beq a b
int_beq (negsuc a) (negsuc b) = nat_beq a b
int_beq _ _ = false

-- uq_playlist_items_playlist_position
abbrev pub same_place : PlaylistItem → PlaylistItem → Bool
same_place a b = a.playlist_id == b.playlist_id && int_beq a.position b.position
