-- ===== src/Playlists/Shelf.antt =====
-- The tables of playlists between two requests, and what single changes of them keep.
use fuze.Prelude.{
  ℕ, suc, ◌<◌, ◌≡◌, ◌∙◌, ap, Bool, true, false, List, [], ◌∷◌, ◌++◌, arith, All, All-weaken, ◌==◌,
  nat_eq, nat_beq, beq_comm, Bool-cases, inl, inr,
}
use fuze.Database.Tables.{Tables}
use fuze.Database.Sql.{update_where, delete_where, exists_row}
use fuze.Database.Sql.Laws.{
  Distinct, Distinct-update_where, exists_row-update_where, All-updated, All-update_where,
}
use fuze.Database.Sql.Insert.{All-append, Distinct-append, exists_row-fresh, exists_row-kept}
use fuze.Database.Sql.Unique.{Distinct-delete_where, All-delete_where}
use fuze.Playlists.Models.{Playlist, PlaylistItem, same_place}
use fuze.Playlists.Repository.{is_playlist, in_playlist, is_listed, place}
use fuze.Playlists.Order.{IsOrdered, same_item, is_forward, same_place_comm, reordered}

abbrev pub same_playlist : Playlist → Playlist → Bool
same_playlist a b = a.id == b.id

abbrev pub IsThere : ℕ → List Playlist → Type 0
IsThere i ps = exists_row (is_playlist i) ps ≡ true

-- the tables of a database whose next identifier is `n`: the items are in order, each is of a
-- playlist that is there, the playlists are distinct, and all identifiers are from the sequence
pub record IsShelved (n : ℕ) (t : Tables) : Type 0 where
  pub order : IsOrdered t.playlist_items
  pub housed : All (λ it. IsThere it.playlist_id t.playlists) t.playlist_items
  pub item_ids : All (λ it. it.id < n) t.playlist_items
  pub lists : Distinct same_playlist t.playlists
  pub list_ids : All (λ p. p.id < n) t.playlists

pub thinned :
    (q : PlaylistItem → Bool) (is : List PlaylistItem)
    → IsOrdered is
    → IsOrdered (delete_where q is)
thinned q is h = record {
  places = Distinct-delete_where same_place q is h.places;
  ids = Distinct-delete_where same_item q is h.ids;
  forward = All-delete_where (λ x. is_forward x.position ≡ true) q is h.forward;
}

IsThere-delete :
    (i j : ℕ) (ps : List Playlist)
    → nat_beq i j ≡ false
    → IsThere i ps
    → IsThere i (delete_where (is_playlist j) ps)
unfolding exists_row delete_where
IsThere-delete i j [] ne found = found
IsThere-delete i j (p ∷ ps) ne found = ground (arith, ne, IsThere-delete i j ps ne)

housed-delete :
    (i : ℕ) (ps : List Playlist) (is : List PlaylistItem)
    → All (λ it. IsThere it.playlist_id ps) is
    → All
        (λ it. IsThere it.playlist_id (delete_where (is_playlist i) ps))
        (delete_where (in_playlist i) is)
unfolding delete_where
housed-delete i ps [] h = tt
housed-delete i ps (it ∷ is) h = elim (Bool-cases (nat_beq it.playlist_id i)) [
  | inl gone ↦ rw gone (housed-delete i ps is h.1)
  | inr stays ↦ rw stays (IsThere-delete it.playlist_id i ps stays h.0, housed-delete i ps is h.1)
]

module _ (n : ℕ) (t : Tables) (h : IsShelved n t) where
  pub grown : IsShelved (suc n) t
  grown = record {
    order = h.order;
    housed = h.housed;
    item_ids = All-weaken _ _ t.playlist_items (λ it below. omega (arith, below)) h.item_ids;
    lists = h.lists;
    list_ids = All-weaken _ _ t.playlists (λ p below. omega (arith, below)) h.list_ids;
  }

  -- a new playlist
  pub opened :
      (p : Playlist) → p.id ≡ n → IsShelved (suc n) (record t { playlists = t.playlists ++ p ∷ [] })
  opened p e = record {
    order = h.order;
    housed =
        All-weaken _ _ t.playlist_items
          (λ it found. exists_row-kept (is_playlist it.playlist_id) t.playlists p found) h.housed;
    item_ids = grown.item_ids;
    lists =
        Distinct-append same_playlist t.playlists p (λ a b. beq_comm a.id b.id)
          (rw e (exists_row-fresh (λ q. q.id) n t.playlists h.list_ids)) h.lists;
    list_ids = All-append _ t.playlists p grown.list_ids (rw e (omega arith));
  }

  -- a new item, at a free place of a playlist that is there
  pub shelved :
      (it : PlaylistItem)
      → it.id ≡ n
      → is_forward it.position ≡ true
      → exists_row (same_place it) t.playlist_items ≡ false
      → IsThere it.playlist_id t.playlists
      → IsShelved (suc n) (record t { playlist_items = t.playlist_items ++ it ∷ [] })
  shelved it e forward free found = record {
    order = record {
      places = Distinct-append same_place t.playlist_items it same_place_comm free h.order.places;
      ids =
          Distinct-append same_item t.playlist_items it (λ a b. beq_comm a.id b.id)
            (rw e (exists_row-fresh (λ x. x.id) n t.playlist_items h.item_ids)) h.order.ids;
      forward = All-append _ t.playlist_items it h.order.forward forward;
    };
    housed = All-append _ t.playlist_items it h.housed found;
    item_ids = All-append _ t.playlist_items it grown.item_ids (rw e (omega arith));
    lists = h.lists;
    list_ids = grown.list_ids;
  }

  -- an UPDATE of a playlist that leaves its identifier
  pub retitled :
      (q : Playlist → Bool) (f : Playlist → Playlist)
      → ((p : Playlist) → (f p).id ≡ p.id)
      → IsShelved n (record t { playlists = update_where q f t.playlists })
  retitled q f same = record {
    order = h.order;
    housed =
        All-weaken _ _ t.playlist_items
          (λ it found.
            exists_row-update_where (is_playlist it.playlist_id) q f
              (λ p. ap (λ i. i == it.playlist_id) (same p)) t.playlists
            ∙ found)
          h.housed;
    item_ids = h.item_ids;
    lists =
        Distinct-update_where same_playlist q f (λ s r. ap (λ i. s.id == i) (same r))
          (λ s. ap (λ i b. i == (let w : Playlist = b in w.id)) (same s)) t.playlists h.lists;
    list_ids =
        All-updated _ _ q f
          (λ p below. elim (Bool-cases (q p)) [
            | inl hit ↦ rw (hit, same p) below
            | inr miss ↦ rw miss below
          ])
          t.playlists h.list_ids;
  }

  -- a playlist goes with its items
  pub discarded :
      (i : ℕ)
      → IsShelved n (record t {
        playlist_items = delete_where (in_playlist i) t.playlist_items;
        playlists = delete_where (is_playlist i) t.playlists;
      })
  discarded i = record {
    order = thinned (in_playlist i) t.playlist_items h.order;
    housed = housed-delete i t.playlists t.playlist_items h.housed;
    item_ids = All-delete_where _ (in_playlist i) t.playlist_items h.item_ids;
    lists = Distinct-delete_where same_playlist (is_playlist i) t.playlists h.lists;
    list_ids = All-delete_where _ (is_playlist i) t.playlists h.list_ids;
  }

  -- some items go
  pub unshelved :
      (q : PlaylistItem → Bool)
      → IsShelved n (record t { playlist_items = delete_where q t.playlist_items })
  unshelved q = record {
    order = thinned q t.playlist_items h.order;
    housed = All-delete_where _ q t.playlist_items h.housed;
    item_ids = All-delete_where _ q t.playlist_items h.item_ids;
    lists = h.lists;
    list_ids = h.list_ids;
  }

  -- the items of a playlist take new places
  pub rearranged :
      (i : ℕ) (ids : List ℕ)
      → IsOrdered (reordered i ids t.playlist_items)
      → IsShelved n (record t { playlist_items = reordered i ids t.playlist_items })
  unfolding place
  rearranged i ids order = record {
    order = order;
    housed =
        All-update_where _ (is_listed i ids) (place ids) (λ it found hit. found) t.playlist_items
          h.housed;
    item_ids =
        All-update_where _ (is_listed i ids) (place ids) (λ it below hit. below) t.playlist_items
          h.item_ids;
    lists = h.lists;
    list_ids = h.list_ids;
  }
