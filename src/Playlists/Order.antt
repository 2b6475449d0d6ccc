-- ===== src/Playlists/Order.antt =====
-- `reorder`: its two UPDATE statements, one after the other, under the unique index on the places.

use fuze.Prelude.{
  ℕ, suc, ◌+◌, ◌≡◌, refl, ◌∙◌, ap, Bool, true, false, ◌&&◌, none, some, List, [], ◌∷◌, arith, All,
  get_elem?, ◌==◌, nat_eq, nat_beq, beq_comm, Bool-cases, inl, inr,
}
use fuze.Prelude.Int.{ℤ, pos, negsuc}
use fuze.Database.Sql.{update_where}
use fuze.Database.Sql.Laws.{updated, Distinct}
use fuze.Tracks.Rows.{contains_id}
use fuze.Playlists.Models.{PlaylistItem, int_beq, same_place}
use fuze.Playlists.Repository.{in_playlist, mirror, position_in, is_listed, move_aside, place}

abbrev pub is_forward : ℤ → Bool
is_forward (pos n) = true
is_forward (negsuc n) = false

abbrev pub same_item : PlaylistItem → PlaylistItem → Bool
same_item a b = a.id == b.id

-- the table of items between two transactions
pub record IsOrdered (is : List PlaylistItem) : Type 0 where
  pub places : Distinct same_place is
  pub ids : Distinct same_item is
  pub forward : All (λ it. is_forward it.position ≡ true) is

int_beq_comm : (a b : ℤ) → int_beq a b ≡ int_beq b a
int_beq_comm (pos a) (pos b) = beq_comm a b
int_beq_comm (pos a) (negsuc b) = refl
int_beq_comm (negsuc a) (pos b) = refl
int_beq_comm (negsuc a) (negsuc b) = beq_comm a b

int_beq-mirror : (a b : ℤ) → int_beq (mirror a) (mirror b) ≡ int_beq a b
int_beq-mirror (pos a) (pos b) = refl
int_beq-mirror (pos a) (negsuc b) = refl
int_beq-mirror (negsuc a) (pos b) = refl
int_beq-mirror (negsuc a) (negsuc b) = refl

int_beq_aside : (a b : ℤ) → is_forward a ≡ true → is_forward b ≡ true → int_beq (mirror a) b ≡ false
int_beq_aside (pos a) (pos b) h k = refl
int_beq_aside (pos a) (negsuc b) h k = absurd (cc)
int_beq_aside (negsuc a) b h k = absurd (cc)

int_beq_backward : (n : ℕ) (b : ℤ) → is_forward b ≡ false → int_beq (pos n) b ≡ false
int_beq_backward n (pos b) h = absurd (cc)
int_beq_backward n (negsuc b) h = refl

forward-mirror : (a : ℤ) → is_forward a ≡ true → is_forward (mirror a) ≡ false
forward-mirror (pos a) h = refl
forward-mirror (negsuc a) h = absurd (cc)

pub same_place_comm : (a b : PlaylistItem) → same_place a b ≡ same_place b a
same_place_comm a b = rw (beq_comm a.playlist_id b.playlist_id, int_beq_comm a.position b.position)

position_in-none :
    (ids : List ℕ) (from i : ℕ) → contains_id ids i ≡ false → position_in ids from i ≡ none
unfolding contains_id position_in
position_in-none [] from i h = refl
position_in-none (x ∷ ids) from i h = elim (Bool-cases (nat_beq x i)) [
  | inl hit ↦ absurd (ground (arith, hit))
  | inr miss ↦ rw (position_in-none ids (suc from) i (rw miss at h), miss) refl
]

-- an identifier of the list has the index of one of its occurrences
position_in-get_elem :
    (ids : List ℕ) (from i : ℕ)
    → contains_id ids i ≡ true
    → (j : ℕ) × (position_in ids from i ≡ some (from + j)) × (get_elem? ids j ≡ some i)
unfolding contains_id position_in
position_in-get_elem [] from i h = absurd (cc)
position_in-get_elem (x ∷ ids) from i h = elim (Bool-cases (contains_id ids i)) [
  | inl later ↦
      let (j, e, there) = position_in-get_elem ids (suc from) i later in
      (suc j, rw e (ap some (omega arith)), there)
  | inr last ↦ (
    0,
    (let first : nat_beq x i ≡ true = ground (arith, last) in
        rw (position_in-none ids (suc from) i last, first) (ap some (omega arith))),
    ap some (ground (arith, last)),
  )
]

pub and_false : (b : Bool) → (b && false) ≡ false
and_false b = ground arith

positions_ne : (a b : PlaylistItem) → int_beq a.position b.position ≡ false → same_place a b ≡ false
positions_ne a b e = rw e (and_false _)

playlists_ne :
    (i : ℕ) (a b : PlaylistItem)
    → in_playlist i a ≡ true
    → in_playlist i b ≡ false
    → same_place a b ≡ false
playlists_ne i a b h k =
    let e : nat_beq a.playlist_id b.playlist_id ≡ false = ground (arith, h, k) in rw e refl

-- The arguments of `reorder`, where each item of the playlist is listed.
module _ (playlist_id : ℕ) (ids : List ℕ) where
  -- where `place` puts a listed item
  pub place-position :
      (it : PlaylistItem)
      → is_listed playlist_id ids it ≡ true
      → (j : ℕ) × ((place ids it).position ≡ pos j) × (get_elem? ids j ≡ some it.id)
  unfolding is_listed place
  place-position it h =
      let (j, e, there) = position_in-get_elem ids 0 it.id (ground (arith, h)) in
      let e' : position_in ids 0 it.id ≡ some j = e ∙ ap some (omega arith) in
      (j, rw e' refl, there)

  place-in_playlist :
      (it : PlaylistItem) → in_playlist playlist_id (place ids it) ≡ in_playlist playlist_id it
  unfolding place
  place-in_playlist it = refl

  listed-in_playlist :
      (it : PlaylistItem) → is_listed playlist_id ids it ≡ true → in_playlist playlist_id it ≡ true
  unfolding is_listed
  listed-in_playlist it h = ground (arith, h)

  -- between the two statements: the listed items are out of the way, the others are elsewhere
  pub record IsAside (it : PlaylistItem) : Type 0 where
    pub backward : is_listed playlist_id ids it ≡ true → is_forward it.position ≡ false
    pub elsewhere : is_listed playlist_id ids it ≡ false → in_playlist playlist_id it ≡ false

  -- two identifiers do not stand at one index
  indices_ne :
      (j i a b : ℕ)
      → get_elem? ids j ≡ some a
      → get_elem? ids i ≡ some b
      → nat_beq a b ≡ false
      → nat_beq j i ≡ false
  indices_ne j i a b h k ne = ground (arith, h, k, ne)

  pub aside_passed :
      (s r : PlaylistItem)
      → is_forward s.position ≡ true
      → is_forward r.position ≡ true
      → same_place s r ≡ false
      → is_listed playlist_id ids r ≡ true
      → same_place (move_aside r) (updated (is_listed playlist_id ids) move_aside s) ≡ false
  unfolding move_aside
  aside_passed s r h k apart hit = elim (Bool-cases (is_listed playlist_id ids s)) [
    | inl e ↦ rw (e, int_beq-mirror r.position s.position) (same_place_comm r s ∙ apart)
    | inr e ↦ rw e (positions_ne (move_aside r) s (int_beq_aside r.position s.position k h))
  ]

  pub aside_ahead :
      (s r : PlaylistItem)
      → is_forward s.position ≡ true
      → is_forward r.position ≡ true
      → same_place s r ≡ false
      → is_listed playlist_id ids s ≡ true
      → same_place (move_aside s) r ≡ false
  unfolding move_aside
  aside_ahead s r h k apart hit =
      positions_ne (move_aside s) r (int_beq_aside s.position r.position h k)

  pub place_passed :
      (s r : PlaylistItem)
      → IsAside s
      → IsAside r
      → same_item s r ≡ false
      → is_listed playlist_id ids r ≡ true
      → same_place (place ids r) (updated (is_listed playlist_id ids) (place ids) s) ≡ false
  place_passed s r h k apart hit =
      let (j, at_r, there_r) = place-position r hit in
      elim (Bool-cases (is_listed playlist_id ids s)) [
        | inl e ↦
            (let (i, at_s, there_s) = place-position s e in
              let ne : nat_beq j i ≡ false =
                indices_ne j i r.id s.id there_r there_s (beq_comm r.id s.id ∙ apart) in
              rw e (positions_ne (place ids r) (place ids s) (rw (at_r, at_s) ne)))
        | inr e ↦ rw e (
            playlists_ne playlist_id (place ids r) s
              (place-in_playlist r ∙ listed-in_playlist r hit) (h.elsewhere e))
      ]

  pub place_ahead :
      (s r : PlaylistItem)
      → IsAside s
      → IsAside r
      → same_item s r ≡ false
      → is_listed playlist_id ids s ≡ true
      → same_place (place ids s) r ≡ false
  place_ahead s r h k apart hit =
      let (j, at_s, there_s) = place-position s hit in
      elim (Bool-cases (is_listed playlist_id ids r)) [
        | inl e ↦
            positions_ne (place ids s) r (rw at_s (int_beq_backward j r.position (k.backward e)))
        | inr e ↦
            playlists_ne playlist_id (place ids s) r
              (place-in_playlist s ∙ listed-in_playlist s hit) (k.elsewhere e)
      ]

  listed-aside :
      (it : PlaylistItem) → is_listed playlist_id ids (move_aside it) ≡ is_listed playlist_id ids it
  unfolding is_listed move_aside
  listed-aside it = refl

  pub updated-IsAside :
      (it : PlaylistItem)
      → (is_forward it.position ≡ true)
        × (in_playlist playlist_id it ≡ true → contains_id ids it.id ≡ true)
      → IsAside (updated (is_listed playlist_id ids) move_aside it)
  unfolding is_listed move_aside
  updated-IsAside it (h, cover) = elim (Bool-cases (is_listed playlist_id ids it)) [
    | inl e ↦ rw e (record {
      backward = λ _. forward-mirror it.position h;
      elsewhere = λ no. absurd (ground (arith, e, no));
    })
    | inr e ↦ rw e (record {
      backward = λ yes. absurd (ground (arith, e, yes));
      elsewhere = λ _. ground (arith, e, cover);
    })
  ]

  place_aside :
      (it : PlaylistItem)
      → is_listed playlist_id ids it ≡ true
      → place ids (move_aside it) ≡ place ids it
  unfolding place move_aside is_listed
  place_aside it h =
      let (j, e, there) = position_in-get_elem ids 0 it.id (ground (arith, h)) in rw e refl

  pub update_twice :
      (is : List PlaylistItem)
      → update_where
          (is_listed playlist_id ids)
          (place ids)
          (update_where (is_listed playlist_id ids) move_aside is)
        ≡ update_where (is_listed playlist_id ids) (place ids) is
  unfolding update_where
  update_twice [] = refl
  update_twice (it ∷ is) = elim (Bool-cases (is_listed playlist_id ids it)) [
    | inl e ↦ rw (e, listed-aside it, e, place_aside it e, update_twice is) refl
    | inr e ↦ rw (e, e, update_twice is) refl
  ]

  -- the table of items once the playlist is in its new order
  abbrev pub reordered : List PlaylistItem → List PlaylistItem
  reordered = update_where (is_listed playlist_id ids) (place ids)
