-- ===== src/Playlists/Requests.antt =====
-- How the requests of modules/playlists/service.py end on tables that are in order.
use fuze.Playlists.Repository
use fuze.Playlists.Service
use mathlib.Core.Path.{subst}
use fuze.Prelude.{
  sym, ap, ℕ, ◌≡◌, refl, true, Option, none, List, String, ◌==◌, nat_eq, Bool-cases, Option-cases,
  inl, inr, ◌∙◌, some, is_none, is_some, string_eq,
}
use fuze.Prelude.Int.{ℤ, pos, ◌+ℤ◌}
use fuze.Core.Errors.{Error}
use fuze.Database.Tables.{Db, Tables}
use fuze.Database.Sql.{select_where, select_one}
use fuze.Database.Sql.Laws.{exists_row-eq}
use fuze.Database.Exec.{Exec, ◌>>=◌, pure, or_raise, commit, on_integrity_error, ◌>>◌}
use fuze.Users.Models.{User}
use fuze.Tracks.Rows.{has_id}
use fuze.Playlists.Models.{Playlist, PlaylistItem}
use fuze.Playlists.Repository.{
  in_playlist, is_playlist, create, max_position, next_position, add_item, is_item, items_of,
  item_id_list, touch,
}
use fuze.Playlists.Order.{IsOrdered, reordered}
use fuze.Playlists.Shelf.{IsShelved, retitled, discarded, unshelved, rearranged}
use fuze.Playlists.Service.{
  PlaylistUpdate, PlaylistDetail, may_access, with_access, detail, get_playlist, create_playlist,
  assign_fields, update_found, update_playlist, delete_found, delete_playlist, add_to, find_item,
  remove_from, is_order_of, reorder_found, reorder_items, style_is_null,
}
use fuze.Playlists.Access.{playlist_at, with_access-denied, with_access-granted}
use fuze.Playlists.Moves.{saved, order_of, without, delete_item-result, reorder_items-result}
use fuze.Playlists.Statements.{
  IsTidy, Ends, TidyEnd, resume-Ends, handled-Ends, undone-IsTidy, saved-IsTidy, Has, create-Ends,
  add_item-Ends, next-position,
}

module _ {ℓ} {A : Type ℓ} (i : ℕ) (user : User) (k : Playlist → Exec A) (d : Db)
    (h : IsTidy d) where
  -- a method behind the check of the access
  pub with_access-Ends :
      ((p : Playlist) → playlist_at i d ≡ some p → may_access user p ≡ true → Ends TidyEnd (k p d))
      → Ends TidyEnd (with_access i user k d)
  with_access-Ends granted = elim (Option-cases (playlist_at i d)) [
    | inl gone ↦ subst (Ends TidyEnd) (sym (with_access-denied i user k d (rw gone refl))) h
    | inr (p, found) ↦ elim (Bool-cases (may_access user p)) [
      | inl may ↦
          subst (Ends TidyEnd) (sym (with_access-granted i user k d p found may))
            (granted p found may)
      | inr other ↦ subst (Ends TidyEnd) (sym (with_access-denied i user k d (rw found other))) h
    ]
  ]

get_playlist-Ends : (i : ℕ) (user : User) (d : Db) → IsTidy d → Ends TidyEnd (get_playlist i user d)
unfolding get_playlist detail
get_playlist-Ends i user d h = with_access-Ends i user (detail i) d h (λ p found may. h)

or_raise-Ends :
    {A : Type 0} (o : Option A) (x : Error) (d : Db) → IsTidy d → Ends TidyEnd (or_raise o x d)
or_raise-Ends none x d h = h
or_raise-Ends (some a) x d h = h

-- the new time of a playlist
touched-IsTidy : (now i : ℕ) (d : Db) → IsTidy d → IsTidy (touch now i d).1
unfolding touch
touched-IsTidy now i d h = record {
  current =
      retitled d.sequence d.current h.current (is_playlist i) (λ p. record p { updated_at = now })
        (λ p. refl);
  committed = h.committed;
}

module _ (now : ℕ) (user : User) (d : Db) (h : IsTidy d) where
  pub create_playlist-Ends :
      (title : String) (description : Option String)
      → Ends TidyEnd (create_playlist now title description user d)
  unfolding create_playlist
  create_playlist-Ends title description =
      handled-Ends TidyEnd Error.playlist_conflict
        ((Repository.create now user.id title description >>= λ p. do commit; pure (p, 0)) d)
        (resume-Ends (λ (p : Playlist) e. Has p.id e) TidyEnd (λ p. do commit; pure (p, 0))
          (Repository.create now user.id title description d)
          (create-Ends now user.id title description d h) (λ p e k. saved-IsTidy e k.tidy))

  module _ (i : ℕ) where
    pub delete_playlist-Ends : Ends TidyEnd (delete_playlist i user d)
    unfolding delete_playlist delete_found Repository.delete
    delete_playlist-Ends = with_access-Ends i user delete_found d h (λ p found may.
        let t = discarded d.sequence d.current h.current p.id in
        record { current = t; committed = t })

    pub update_playlist-Ends : (u : PlaylistUpdate) → Ends TidyEnd (update_playlist now i u user d)
    unfolding update_playlist update_found
    update_playlist-Ends u = with_access-Ends i user (update_found now i u user) d h (λ p found may.
        elim (Bool-cases (style_is_null u)) [
          | inl bad ↦ rw bad (undone-IsTidy d h)
          | inr good ↦
              (let t =
                  retitled d.sequence d.current h.current (is_playlist i) (assign_fields now u)
                    (unfold assign_fields in λ q. refl) in
                rw good (get_playlist-Ends i user _ (record { current = t; committed = t })))
        ])

    shown_item-Ends :
        (it : PlaylistItem) (e : Db)
        → IsTidy e
        → Ends TidyEnd (
            (do
              shown ← get_playlist i user
              or_raise (find_item it.id shown.items) Error.runtime_error)
              e)
    shown_item-Ends it e k =
        resume-Ends TidyEnd TidyEnd
          (λ (shown : PlaylistDetail). or_raise (find_item it.id shown.items) Error.runtime_error)
          (get_playlist i user e) (get_playlist-Ends i user e k)
          (λ shown f l. or_raise-Ends (find_item it.id shown.items) Error.runtime_error f l)

    pub add_to-Ends :
        (j : ℕ) (p : Playlist) → playlist_at i d ≡ some p → Ends TidyEnd (add_to now i j user p d)
    unfolding add_to Repository.get_track Repository.next_position touch
    add_to-Ends j p found = elim (Bool-cases (is_none (select_one (has_id j) d.current.tracks))) [
      | inl none_there ↦ rw none_there h
      | inr there ↦
          (let position : ℤ =
              max_position (select_where (in_playlist i) d.current.playlist_items) +ℤ pos 1 in
            let shelf : Has i d = record {
              tidy = h;
              found = exists_row-eq (is_playlist i) d.current.playlists ∙ ap is_some found;
            } in
            let insert : Exec PlaylistItem = (do
              it ← Repository.add_item i j position
              touch now i
              commit
              pure it) in
            rw there (
              resume-Ends TidyEnd TidyEnd
                (λ it. do
                  shown ← get_playlist i user
                  or_raise (find_item it.id shown.items) Error.runtime_error)
                (on_integrity_error insert Error.playlist_conflict d)
                (handled-Ends TidyEnd Error.playlist_conflict (insert d) (
                  resume-Ends (λ (it : PlaylistItem) e. Has i e) TidyEnd
                    (λ it. do touch now i; commit; pure it) (Repository.add_item i j position d)
                    (add_item-Ends i j position d (next-position i d h) shelf)
                    (λ it e k. saved-IsTidy _ (touched-IsTidy now i e k.tidy))))
                shown_item-Ends))
    ]

    -- the tables after a change of the items
    changed-IsTidy :
        (t : Tables) → IsShelved d.sequence t → IsTidy (record d { current = t; committed = t })
    changed-IsTidy t k = record { current = k; committed = k }

    rearranged-IsTidy :
        (ids : List ℕ) (t : Tables)
        → IsShelved d.sequence t
        → IsOrdered (reordered i ids t.playlist_items)
        → IsTidy (saved now i (record d { current = t }) (reordered i ids t.playlist_items))
    rearranged-IsTidy ids t k order =
        let t' = record t { playlist_items = reordered i ids t.playlist_items } in
        changed-IsTidy _ (
          retitled d.sequence t' (rearranged d.sequence t k i ids order) (is_playlist i)
            (λ p. record p { updated_at = now }) (λ p. refl))

    pub remove_from-Ends :
        (j : ℕ) (p : Playlist)
        → playlist_at i d ≡ some p
        → may_access user p ≡ true
        → Ends TidyEnd (remove_from now i j p d)
    unfolding remove_from Repository.get_item Service.delete_item
    remove_from-Ends j p found may =
        elim (Option-cases (select_one (is_item i j) d.current.playlist_items)) [
          | inl gone ↦ rw gone h
          | inr (it, there) ↦
              let (run, order, _) =
                delete_item-result now i j user p it d h.current.order found may there in
              subst (Ends TidyEnd)
                (sym run ∙ with_access-granted i user (remove_from now i j) d p found may)
                (rearranged-IsTidy (order_of i (without it d.current.playlist_items))
                  (record d.current { playlist_items = without it d.current.playlist_items })
                  (unshelved d.sequence d.current h.current (λ x. x.id == it.id)) order)
        ]

    pub reorder_found-Ends :
        (ids : List ℕ) (p : Playlist)
        → playlist_at i d ≡ some p
        → may_access user p ≡ true
        → Ends TidyEnd (reorder_found now i ids user p d)
    unfolding reorder_found reorder_items Repository.item_ids
    reorder_found-Ends ids p found may =
        elim (Bool-cases (is_order_of ids (item_id_list (items_of i d.current.playlist_items)))) [
          | inl fits ↦
              let (run, order, _, _) =
                reorder_items-result now i user p d h.current.order found may ids fits in
              subst (Ends TidyEnd)
                (sym run ∙ with_access-granted i user (reorder_found now i ids user) d p found may)
                (rearranged-IsTidy ids d.current h.current order)
          | inr other ↦ rw other h
        ]
