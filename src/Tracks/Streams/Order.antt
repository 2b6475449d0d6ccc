-- ===== src/Tracks/Streams/Order.antt =====
-- A list of descriptors follows the request, each track once.
use fuze.Prelude.{
  ℕ, Bool, true, false, ◌&&◌, not, Option, none, some, List, [], ◌∷◌, ◌≡◌, refl, All, map, nat_eq,
  String,
}
use fuze.Prelude.Sets.{unique}
use fuze.Core.Errors.{Error}
use fuze.Core.Result.{Result, ok, err}
use fuze.Database.Tables.{Db}
use fuze.Database.Exec.{pure, raise_if, or_raise, lift, ◌>>=◌, ◌>>◌}
use fuze.Database.Exec.Laws.{resume_won}
use fuze.Integrations.Storage.{ObjectMetadata}
use fuze.Database.Sql.{select_one}
use fuze.Tracks.Models.{Track}
use fuze.Tracks.Rows.{has_id}
use fuze.Tracks.Streams.{
  DownloadDescriptor, Media, descriptor, ready_key, describe, get_download_descriptor,
  gather_descriptors, get_download_descriptors,
}
use fuze.Tracks.Streams.Laws.{get_download_descriptor_lem}

abbrev pub ids_of : List DownloadDescriptor → List ℕ
ids_of = map λ x. x.track_id

module _ {S : Type 0} (m : Media S) where
  described_unchanged :
      (r : Result ObjectMetadata) (u : Result String) (track : Track) (d : Db)
      → ((lift r >>= λ metadata. lift u >>= λ url. pure (descriptor m.ttl m.now track metadata url))
          d).1
        ≡ d
  described_unchanged (err e) u track d = refl
  described_unchanged (ok a) (ok u) track d = refl
  described_unchanged (ok a) (err e) track d = refl

  keyed_unchanged :
      (track : Track) (r : Result String) (d : Db) → ((lift r >>= describe m track) d).1 ≡ d
  unfolding describe
  keyed_unchanged track (ok key) d = described_unchanged _ _ track d
  keyed_unchanged track (err e) d = refl

  gated_unchanged :
      (closed : Bool) (found : Option Track) (refused absent : Error) (d : Db)
      → ((raise_if closed refused
            >> (or_raise found absent >>= λ track. lift (ready_key track) >>= describe m track))
          d).1
        ≡ d
  gated_unchanged true found refused absent d = refl
  gated_unchanged false none refused absent d = refl
  gated_unchanged false (some t) refused absent d = keyed_unchanged t (ready_key t) d

  get_download_descriptor_unchanged :
      (track_id : ℕ) (d : Db) → (get_download_descriptor m track_id d).1 ≡ d
  unfolding get_download_descriptor
  get_download_descriptor_unchanged track_id d =
      gated_unchanged (m.enforce_config && not m.playback)
        (select_one (has_id track_id) d.current.tracks) _ _ d

  gathered :
      (ids : List ℕ) (d : Db) (xs : List DownloadDescriptor)
      → (gather_descriptors m ids d).0 ≡ ok xs
      → (ids_of xs ≡ ids) × All (λ x. (get_download_descriptor m x.track_id d).0 ≡ ok x) xs
  unfolding gather_descriptors
  gathered [] d xs won = (let same : [] ≡ xs = cc in rw (← same) (refl, tt))
  gathered (i ∷ ids) d xs won =
      let (x, one, rest) =
        resume_won (λ x. gather_descriptors m ids >>= λ xs. pure (x ∷ xs))
          (get_download_descriptor m i d) xs won in
      let same = get_download_descriptor_unchanged i d in
      let (ys, all, done) =
        resume_won (λ xs. pure (x ∷ xs)) (gather_descriptors m ids d) xs (rw same at rest) in
      let (order, each) = gathered ids d ys all in
      let named = (get_download_descriptor_lem m i d x one).0 in
      let same : x ∷ ys ≡ xs = cc done in rw (← same) (rw (named, order) refl, (rw named one, each))

  -- A list of descriptors that succeeds has one for each of the tracks asked for, in the order in
  -- which they were first named, and each is the one that a request for its track alone gets.
  pub get_download_descriptors-unique :
      (track_ids : List ℕ) (d : Db) (xs : List DownloadDescriptor)
      → (get_download_descriptors m track_ids d).0 ≡ ok xs
      → (ids_of xs ≡ unique track_ids)
        × All (λ x. (get_download_descriptor m x.track_id d).0 ≡ ok x) xs
  unfolding get_download_descriptors
  get_download_descriptors-unique track_ids d xs won = gathered (unique track_ids) d xs won
