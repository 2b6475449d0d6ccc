-- ===== src/Tracks/StoreTests.antt =====
-- An object store that is a list of keys, each with an object of seven bytes, under the operations that
-- read and write it.
use fuze.Prelude.{
  ℕ, String, true, false, Option, none, some, List, [], ◌∷◌, ◌≡◌, refl, ◌<◌, All, string_eq, nat_eq,
  if◌then◌else◌,
}
use fuze.Prelude.Sets.{contains, without, unique, contains-without}
use fuze.Core.Result.{ok}
use fuze.Database.Tables.{Db}
use fuze.Database.Sql.{select_one}
use fuze.Integrations.Storage.{
  S3, Reply, Head, ObjectMetadata, LocalFile, upload_file, object_exists, get_object_metadata,
  get_presigned_url, ttl_or,
}
use fuze.Integrations.Storage.Upload.{upload_file-object_exists}
use fuze.Tracks.Models.{Track, TrackDownloadStatus}
use fuze.Tracks.Reconcile.{reconcile}
use fuze.Tracks.Reconcile.Laws.{is_stored, table_keys}
use fuze.Tracks.Reconcile.Agreement.{reconcile_lem}
use fuze.Tracks.Streams.{
  Media, DownloadDescriptor, get_download_descriptors, get_download_descriptor, get_stream_url,
}
use fuze.Tracks.Streams.Laws.{get_stream_url-get_download_descriptor, url_of}
use fuze.Tracks.Streams.Order.{get_download_descriptors-unique, ids_of}
use fuze.Fixtures.{track, no_rows, settled_db}

abbrev seven : Head
seven = record {
  content_type = some "audio/ogg";
  content_length = some 7;
  etag = none;
  sha256 = some "digest";
}

abbrev head_of : String → List String → Reply Head
unfolding contains
head_of key store =
    if contains key store
    then Reply.reply seven
    else Reply.client_error (record { error_code = "404"; http_status = some 404 })

abbrev keyed : S3 (List String)
unfolding without contains
keyed = record {
  head_bucket = λ s. Reply.reply tt;
  create_bucket = λ s. (Reply.reply tt, s);
  head_object = head_of;
  upload = λ key size digest content_type s. (Reply.reply tt, key ∷ s);
  delete_object = λ key s. (Reply.reply tt, without key s);
  list_keys = λ s. Reply.reply s;
  generate_presigned_url = λ key ttl s. Reply.reply key;
}

abbrev song : ℕ → String → Track
song id key = record track {
  id = id;
  source_id = key;
  storage_key = some key;
  download_status = TrackDownloadStatus.ready;
  download_attempts = 1;
}

-- the object of the first song is lost, and one object has no song
abbrev songs : Db
songs = settled_db 9 (record no_rows { tracks = song 1 "lost" ∷ song 2 "kept" ∷ [] })

abbrev objects : List String
objects = "kept" ∷ "spare" ∷ []

reconciled : (reconcile keyed 50 false true true objects songs).0 ≡ ok (1, 1)
unfolding reconcile
reconciled = refl

reconciled_store : (reconcile keyed 50 false true true objects songs).2 ≡ "kept" ∷ []
unfolding reconcile
reconciled_store = refl

listed_same :
    (s ks : List String)
    → Reply.reply s ≡ Reply.reply ks
    → (k : String) → contains k ks ≡ contains k s
listed_same s ks e k = cc

reconcile_lem_example :
    let out = reconcile keyed 50 false true true objects songs in
    All (λ t. is_stored out.2 t ≡ true) out.1.current.tracks
    × All (λ k. contains k (table_keys songs.current.tracks) ≡ true) out.2
unfolding keyed
reconcile_lem_example =
    reconcile_lem keyed (λ s. s) listed_same (λ key s e k. contains-without key k s) 50 false true
      objects songs (1, 1) reconciled

abbrev file : LocalFile
file = some (7, "digest")

uploaded : (upload_file keyed file "new" "audio/ogg" objects).0 ≡ Reply.reply "new"
unfolding upload_file keyed
uploaded = refl

upload_file-object_exists_example :
    let s = (upload_file keyed file "new" "audio/ogg" objects).1 in
    (◌≡◌ {A = String} "new" "new")
    × (object_exists keyed "new" s ≡ Reply.reply true)
    × ((m : ObjectMetadata) × (digest : String) × (get_object_metadata keyed "new" s
          ≡ Reply.reply m)
        × (file ≡ some (m.content_length, digest))
        × (0 < m.content_length))
    × ((ttl : ℕ) (expires : Option ℕ)
        → get_presigned_url keyed ttl "new" expires s
          ≡ keyed.generate_presigned_url "new" (ttl_or expires ttl) s)
upload_file-object_exists_example =
    upload_file-object_exists keyed file "new" "audio/ogg" "new" objects uploaded

abbrev media : Media (List String)
media = record {
  s3 = keyed;
  store = objects;
  enforce_config = true;
  playback = true;
  ttl = 900;
  now = 50;
}

streamed : (get_stream_url media 2 songs).0 ≡ ok "kept"
unfolding get_stream_url keyed select_one
streamed = refl

get_stream_url-get_download_descriptor_example :
    (get_stream_url media 2 songs).0 ≡ url_of (get_download_descriptor media 2 songs).0
get_stream_url-get_download_descriptor_example =
    get_stream_url-get_download_descriptor media 2 songs

abbrev described : DownloadDescriptor
described = record {
  track_id = 2;
  url = "kept";
  content_type = "audio/ogg";
  content_length = 7;
  etag = none;
  checksum = some "digest";
  expires_at = 950;
  media_version = "digest";
}

described_once : (get_download_descriptors media (2 ∷ 2 ∷ []) songs).0 ≡ ok (described ∷ [])
unfolding get_download_descriptors keyed select_one
described_once = refl

get_download_descriptors-unique_example :
    (ids_of (described ∷ []) ≡ unique (2 ∷ 2 ∷ []))
    × All (λ x. (get_download_descriptor media x.track_id songs).0 ≡ ok x) (described ∷ [])
get_download_descriptors-unique_example =
    get_download_descriptors-unique media (2 ∷ 2 ∷ []) songs (described ∷ []) described_once
