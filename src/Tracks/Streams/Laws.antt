-- ===== src/Tracks/Streams/Laws.antt =====
-- The stream's URL and the descriptor of a download agree, and a list of descriptors follows its request.
use fuze.Prelude.{
  nat_beq_iff, ltb, ltb→lt, ◌≢◌, ℕ, ◌+◌, String, Bool, true, false, ◌&&◌, not, Option, none, some,
  ◌≡◌, refl, ◌∙◌, sym, ap, ◌<◌, arith, nat_eq, Bool-cases, inl, inr,
}
use fuze.Core.Errors.{Error}
use fuze.Core.Result.{Result, ok, err}
use fuze.Database.Tables.{Db}
use fuze.Database.Exec.{raise_if, or_raise, ◌>>◌, lift, ◌>>=◌}
use fuze.Database.Sql.{select_one}
use fuze.Database.Sql.Laws.{select_one_sound}
use fuze.Integrations.Storage.{
  Reply, Reply-cases, Head, ObjectMetadata, get_object_metadata, metadata_of, get_presigned_url,
  object_exists, exists_in, is_missing, length_of,
}
use fuze.Tracks.Models.{Track}
use fuze.Tracks.Rows.{has_id}
use fuze.Tracks.Streams.{
  DownloadDescriptor, Media, ready_key, from_storage, descriptor, get_stream_url, describe,
  get_download_descriptor,
}

abbrev pub url_of : Result DownloadDescriptor → Result String
url_of (ok x) = ok x.url
url_of (err e) = err e

-- the descriptor, once the metadata is there
abbrev described :
    {S : Type 0} → Media S → Track → ObjectMetadata → Result String → Result DownloadDescriptor
described m track metadata (ok url) = ok (descriptor m.ttl m.now track metadata url)
described m track metadata (err e) = err e

module _ {S : Type 0} (m : Media S) where
  presigned_same :
      (key : String)
      → get_presigned_url m.s3 m.ttl key (some m.ttl) m.store
        ≡ get_presigned_url m.s3 m.ttl key none m.store
  unfolding get_presigned_url
  presigned_same key = ground arith

  -- a HEAD that fails leaves neither metadata nor a URL
  headless :
      (key : String)
      → ((r : Head) → m.s3.head_object key m.store ≢ Reply.reply r)
      → (from_storage (get_object_metadata m.s3 key m.store)
          ≡ err (Error.track_dependency_unavailable (some "storage_unavailable")))
        × (from_storage (get_presigned_url m.s3 m.ttl key none m.store)
            ≡ err (Error.track_dependency_unavailable (some "storage_unavailable")))
  unfolding from_storage get_object_metadata get_presigned_url object_exists exists_in
  headless key no_head = elim (Reply-cases (m.s3.head_object key m.store)) [
    | inl (h, good) ↦ absurd (no_head h good)
    | inr (inl bad) ↦ (rw (bad, get_object_metadata) refl, rw (bad, get_presigned_url) refl)
    | inr (inr (e, bad)) ↦ (
      rw (bad, get_object_metadata) refl,
      elim (Bool-cases (is_missing e)) [
        | inl gone ↦ ground (arith, bad, gone)
        | inr other ↦ ground (arith, bad, other)
      ],
    )
  ]

  described_metadata :
      (track : Track) (key : String) (h : Head) (d : Db)
      → m.s3.head_object key m.store ≡ Reply.reply h
      → describe m track key d ≡ (
        described m track
            (metadata_of h)
            (from_storage (get_presigned_url m.s3 m.ttl key none m.store)),
        d,
      )
  unfolding describe from_storage get_object_metadata
  described_metadata track key h d head =
      elim (Reply-cases (get_presigned_url m.s3 m.ttl key none m.store)) [
        | inl (u, good) ↦ ground (arith, presigned_same key, head, good)
        | inr (inl bad) ↦ ground (arith, presigned_same key, head, bad)
        | inr (inr (e, bad)) ↦ ground (arith, presigned_same key, head, bad)
      ]

  unheaded :
      (track : Track) (key : String) (d : Db)
      → ((r : Head) → m.s3.head_object key m.store ≢ Reply.reply r)
      → url_of (describe m track key d).0
        ≡ from_storage (get_presigned_url m.s3 m.ttl key none m.store)
  unfolding describe
  unheaded track key d no_head =
      let (lost, unsigned) = headless key no_head in rw (unsigned, lost) refl

  described-url :
      (track : Track) (metadata : ObjectMetadata) (r : Result String)
      → url_of (described m track metadata r) ≡ r
  described-url track metadata (ok url) = refl
  described-url track metadata (err e) = refl

  describe-url :
      (track : Track) (key : String) (d : Db)
      → url_of (describe m track key d).0
        ≡ from_storage (get_presigned_url m.s3 m.ttl key none m.store)
  describe-url track key d = elim (Reply-cases (m.s3.head_object key m.store)) [
    | inl (h, good) ↦
        rw (described_metadata track key h d good) (described-url track (metadata_of h) _)
    | inr (inl bad) ↦ unheaded track key d (λ h e. cc (bad, e))
    | inr (inr (x, bad)) ↦ unheaded track key d (λ h e. cc (bad, e))
  ]

  with_key :
      (track : Track) (r : Result String) (d : Db)
      → ((lift r >>= λ key. lift (from_storage (get_presigned_url m.s3 m.ttl key none m.store)))
          d).0
        ≡ url_of ((lift r >>= describe m track) d).0
  with_key track (ok key) d = sym (describe-url track key d)
  with_key track (err e) d = refl

  gated :
      (closed : Bool) (found : Option Track) (refused absent : Error) (d : Db)
      → ((raise_if closed refused
            >> (or_raise found absent >>= λ track. lift (ready_key track) >>= λ key.
                lift (from_storage (get_presigned_url m.s3 m.ttl key none m.store))))
          d).0
        ≡ url_of
            ((raise_if closed refused
                >> (or_raise found absent >>= λ track. lift (ready_key track) >>= describe m track))
              d).0
  gated true found refused absent d = refl
  gated false none refused absent d = refl
  gated false (some t) refused absent d = with_key t (ready_key t) d

  -- The URL of a stream is that of the track's download descriptor, and where one of the two
  -- requests fails so does the other, with the same error.
  pub get_stream_url-get_download_descriptor :
      (track_id : ℕ) (d : Db)
      → (get_stream_url m track_id d).0 ≡ url_of (get_download_descriptor m track_id d).0
  unfolding get_stream_url get_download_descriptor
  get_stream_url-get_download_descriptor track_id d =
      gated (m.enforce_config && not m.playback) (select_one (has_id track_id) d.current.tracks) _ _
        d

  described_key :
      (track : Track) (r : Result String) (d : Db) (x : DownloadDescriptor)
      → ((lift r >>= describe m track) d).0 ≡ ok x
      → (key : String) × (r ≡ ok key) × ((describe m track key d).0 ≡ ok x)
  described_key track (ok key) d x won = (key, refl, won)
  described_key track (err e) d x won = absurd (cc)

  opened :
      (closed : Bool) (found : Option Track) (refused absent : Error) (d : Db)
      (x : DownloadDescriptor)
      → ((raise_if closed refused
            >> (or_raise found absent >>= λ track. lift (ready_key track) >>= describe m track))
          d).0
        ≡ ok x
      → (closed ≡ false)
        × ((t : Track) × (key : String) × (found ≡ some t)
            × (ready_key t ≡ ok key)
            × ((describe m t key d).0 ≡ ok x))
  opened true found refused absent d x won = absurd (cc)
  opened false none refused absent d x won = absurd (cc)
  opened false (some t) refused absent d x won =
      let (key, ready, done) = described_key t (ready_key t) d x won in
      (refl, (t, key, refl, ready, done))

  described_won :
      (track : Track) (metadata : ObjectMetadata) (r : Result String) (x : DownloadDescriptor)
      → described m track metadata r ≡ ok x
      → (u : String) × (r ≡ ok u) × (descriptor m.ttl m.now track metadata u ≡ x)
  described_won track metadata (ok u) x won = (u, refl, cc)
  described_won track metadata (err e) x won = absurd (cc)

  presigned_full :
      (key : String) (h : Head) (u : String)
      → m.s3.head_object key m.store ≡ Reply.reply h
      → from_storage (get_presigned_url m.s3 m.ttl key none m.store) ≡ ok u
      → 0 < length_of h
  unfolding get_presigned_url object_exists exists_in from_storage
  presigned_full key h u head won = elim (Bool-cases (ltb 0 (length_of h))) [
    | inl full ↦ ltb→lt 0 (length_of h) full
    | inr empty ↦ absurd (ground (arith, head, empty, won))
  ]

  unread :
      (track : Track) (key : String) (d : Db) (x : DownloadDescriptor)
      → (describe m track key d).0 ≡ ok x
      → ((r : Head) → m.s3.head_object key m.store ≢ Reply.reply r)
      → ⊥
  unread track key d x won no_head =
      cc (ap url_of won, unheaded track key d no_head, (headless key no_head).1)

  describe_won :
      (track : Track) (key : String) (d : Db) (x : DownloadDescriptor)
      → (describe m track key d).0 ≡ ok x
      → (x.track_id ≡ track.id) × (0 < x.content_length) × (x.expires_at ≡ m.now + m.ttl)
  unfolding metadata_of
  describe_won track key d x won = elim (Reply-cases (m.s3.head_object key m.store)) [
    | inl (h, good) ↦
        let (u, signed, same) =
          described_won track (metadata_of h) _ x
            (ap (λ r. r.0) (sym (described_metadata track key h d good)) ∙ won) in
        rw (← same) (refl, presigned_full key h u good signed, refl)
    | inr (inl bad) ↦ absurd (unread track key d x won (λ h e. cc (bad, e)))
    | inr (inr (e, bad)) ↦ absurd (unread track key d x won (λ h f. cc (bad, f)))
  ]

  -- A descriptor is that of the track that was asked for, which is stored under its key; its
  -- content is not empty and its URL is valid until the time that it names.
  pub get_download_descriptor_lem :
      (track_id : ℕ) (d : Db) (x : DownloadDescriptor)
      → (get_download_descriptor m track_id d).0 ≡ ok x
      → (x.track_id ≡ track_id) × (0 < x.content_length) × (x.expires_at ≡ m.now + m.ttl)
  unfolding get_download_descriptor
  get_download_descriptor_lem track_id d x won =
      let found = select_one (has_id track_id) d.current.tracks in
      let (free, (t, key, there, ready, done)) =
        opened (m.enforce_config && not m.playback) found _ _ d x won in
      let (named, full, until) = describe_won t key d x done in
      (
        named
            ∙ (nat_beq_iff t.id track_id).0
                (select_one_sound (has_id track_id) d.current.tracks t there),
        full,
        until,
      )
