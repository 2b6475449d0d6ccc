-- ===== src/Playlists/Imports.antt =====
-- Imports into a new playlist: `import_tracks` of modules/playlists/repository.py, and `import_file`
-- and `import_yandex` of modules/playlists/service.py.
use fuze.Playlists.Repository
use mathlib.Core.Path.{subst}
use fuze.Prelude.{
  sym, ap, ℕ, suc, ◌≡◌, refl, Bool, true, false, ◌&&◌, Option, List, [], ◌∷◌, String, ◌==◌, nat_eq,
  Bool-cases, Option-cases, inl, inr, ◌+◌, some, map, string_eq,
}
use fuze.Prelude.Int.{ℤ, pos, ◌+ℤ◌}
use fuze.Core.Result.{ok}
use fuze.Database.Tables.{Db}
use fuze.Database.Sql.{select_one, exists_row}
use fuze.Database.Exec.{◌>>=◌, pure, commit, ◌>>◌}
use fuze.Users.Models.{User}
use fuze.Tracks.Rows.{TrackValues, has_source}
use fuze.Tracks.Statements.{insert_track}
use fuze.Playlists.Models.{Playlist}
use fuze.Playlists.Repository.{
  in_playlist, create, next_position, add_item, seen_id, import_item, import_track, import_loop,
  import_tracks,
}
use fuze.Playlists.Order.{is_forward}
use fuze.Playlists.Shelf.{grown}
use fuze.Prelude.Texts.{take_chars}
use fuze.Tracks.Models.{TrackSource}
use fuze.Tracks.Service.{SearchItem, item_values}
use fuze.Playlists.Service.{import_file, import_each}
use fuze.Playlists.Statements.{
  IsTidy, Ends, TidyEnd, resume-Ends, saved-IsTidy, Has, create-Ends, add_item-Ends, next-position,
  later-forward,
}

module _ (i : ℕ) where
  -- an imported track: the position after it goes on from the one before
  abbrev GoesOn : ℤ × ℕ → Db → Type 0
  GoesOn out d = Has i d × (is_forward out.0 ≡ true)

  import_item-Ends :
      (track_id : ℕ) (position : ℤ) (added : ℕ) (there : Bool) (d : Db)
      → is_forward position ≡ true
      → Has i d
      → Ends GoesOn (import_item i track_id position added there d)
  unfolding import_item
  import_item-Ends track_id position added true d forward h = (h, forward)
  import_item-Ends track_id position added false d forward h =
      resume-Ends (λ it e. Has i e) GoesOn (λ _ e. (ok (position +ℤ pos 1, suc added), e))
        (add_item i track_id position d) (add_item-Ends i track_id position d forward h)
        (λ it e k. (k, later-forward position forward))

  import_track-Ends :
      (values : TrackValues) (position : ℤ) (added : ℕ) (d : Db)
      → is_forward position ≡ true
      → Has i d
      → Ends GoesOn (import_track i values position added d)
  unfolding import_track
  import_track-Ends values position added d forward h =
      let ts = insert_track d.sequence values d.current.tracks in
      let e : Db = record d {
        sequence = suc d.sequence;
        current = record d.current { tracks = ts };
      } in
      let h' : Has i e = record {
        tidy =
            let k = grown d.sequence d.current h.tidy.current in
            record {
              current = record {
                order = k.order;
                housed = k.housed;
                item_ids = k.item_ids;
                lists = k.lists;
                list_ids = k.list_ids;
              };
              committed = grown d.sequence d.committed h.tidy.committed;
            };
        found = h.found;
      } in
      elim (Option-cases (select_one (has_source values.source values.source_id) ts)) [
        | inl none_there ↦ rw none_there h'.tidy
        | inr (track, hit) ↦ rw hit (
            import_item-Ends track.id position added
              (exists_row (λ it. in_playlist i it && it.track_id == track.id)
                d.current.playlist_items)
              e forward h')
      ]

  module _ (seen : List String) (position : ℤ) (added : ℕ) (values : TrackValues)
      (rest : List TrackValues) where
    import_seen :
        seen_id values.source_id seen ≡ true
        → import_loop i seen position added (values ∷ rest) ≡ import_loop i seen position added rest
    unfolding import_loop
    import_seen before = rw (import_loop, before) refl

    import_new :
        seen_id values.source_id seen ≡ false
        → import_loop i seen position added (values ∷ rest) ≡ (
            import_track i values position added >>= λ out.
            import_loop i (values.source_id ∷ seen) out.0 out.1 rest)
    unfolding import_loop
    import_new new = rw (import_loop, new) refl

  import_loop-Ends :
      (seen : List String) (position : ℤ) (added : ℕ) (tracks : List TrackValues) (d : Db)
      → is_forward position ≡ true
      → Has i d
      → Ends (λ (n : ℕ) e. Has i e) (import_loop i seen position added tracks d)
  unfolding import_loop
  import_loop-Ends seen position added [] d forward h = h
  import_loop-Ends seen position added (values ∷ rest) d forward h =
      elim (Bool-cases (seen_id values.source_id seen)) [
        | inl before ↦
            subst (Ends λ n e. Has i e)
              (sym (ap (λ m. m d) (import_seen seen position added values rest before)))
              (import_loop-Ends seen position added rest d forward h)
        | inr new ↦
            subst (Ends λ n e. Has i e)
              (sym (ap (λ m. m d) (import_new seen position added values rest new)))
              (resume-Ends GoesOn (λ n e. Has i e)
                (λ out. import_loop i (values.source_id ∷ seen) out.0 out.1 rest)
                (import_track i values position added d)
                (import_track-Ends values position added d forward h)
                (λ out e k. import_loop-Ends (values.source_id ∷ seen) out.0 out.1 rest e k.1 k.0))
      ]

  pub import_tracks-Ends :
      (tracks : List TrackValues) (d : Db)
      → Has i d
      → Ends (λ (n : ℕ) e. Has i e) (import_tracks i tracks d)
  unfolding import_tracks next_position
  import_tracks-Ends tracks d h = import_loop-Ends [] _ 0 tracks d (next-position i d h.tidy) h

module _ (now : ℕ) (user : User) (d : Db) (h : IsTidy d) where
  pub import_file-Ends :
      (title description : String) (tracks : List TrackValues)
      → Ends TidyEnd (import_file now title description tracks user d)
  unfolding import_file
  import_file-Ends title description tracks =
      resume-Ends (λ (p : Playlist) e. Has p.id e) TidyEnd
        (λ p. do added ← Repository.import_tracks p.id tracks; commit; pure (1, added))
        (Repository.create now user.id title (some description) d)
        (create-Ends now user.id title (some description) d h)
        (λ p e k.
          resume-Ends (λ n e. Has p.id e) TidyEnd (λ added. do commit; pure (1, added))
            (Repository.import_tracks p.id tracks e) (import_tracks-Ends p.id tracks e k)
            (λ n e k. saved-IsTidy e k.tidy))

-- what a client answers for a playlist of Yandex Music, where none is an exception
abbrev pub Fetch : Type 0
Fetch = String → Option (String × List SearchItem)

pub import_each-Ends :
    (now : ℕ) (fetch : Fetch) (user : User) (created added : ℕ) (ids : List String) (d : Db)
    → IsTidy d
    → Ends TidyEnd (import_each now fetch user created added ids d)
unfolding import_each
import_each-Ends now fetch user created added [] d h = h
import_each-Ends now fetch user created added (source_id ∷ ids) d h =
    elim (Option-cases (fetch source_id)) [
      | inl failed ↦ rw failed h
      | inr (found, e) ↦
          (let title = take_chars 100 found.0 in
            let tracks = map (item_values TrackSource.yandex) found.1 in
            let description = some "Imported from Yandex Music" in
            rw e (
              resume-Ends (λ (p : Playlist) f. Has p.id f) TidyEnd
                (λ p. do
                  n ← Repository.import_tracks p.id tracks
                  import_each now fetch user (created + 1) (added + n) ids)
                (Repository.create now user.id title description d)
                (create-Ends now user.id title description d h)
                (λ p f k.
                  resume-Ends (λ n g. Has p.id g) TidyEnd
                    (λ n. import_each now fetch user (created + 1) (added + n) ids)
                    (Repository.import_tracks p.id tracks f) (import_tracks-Ends p.id tracks f k)
                    (λ n g l.
                      import_each-Ends now fetch user (created + 1) (added + n) ids g l.tidy))))
    ]
