-- ===== src/Tracks/Streams.antt =====
-- modules/tracks/service.py: the methods of `TracksService` that hand out stored media. The object
-- store, the clock and the configuration are arguments.
pub mod Laws
pub mod Order
use fuze.Prelude.{
  ℕ, ◌+◌, String, Bool, ◌&&◌, not, Option, none, some, List, [], ◌∷◌, ◌==◌, nat_eq, if◌then◌else◌,
}
use fuze.Prelude.Sets.{unique}
use fuze.Prelude.Texts.{is_empty, text_or, join, str}
use fuze.Core.Errors.{Error}
use fuze.Core.Result.{Result, ok, err}
use fuze.Database.Exec.{Exec, pure, lift, or_raise, raise_if, ◌>>=◌, ◌>>◌}
use fuze.Integrations.Storage.{S3, Reply, ObjectMetadata, get_object_metadata, get_presigned_url}
use fuze.Tracks.Models.{Track, TrackDownloadStatus, status_eq}
use fuze.Tracks.Rows.{has_status}
use fuze.Tracks.Repository.{find_by_id}

pub record DownloadDescriptor : Type 0 where
  pub track_id : ℕ
  pub url : String
  pub content_type : String
  pub content_length : ℕ
  pub etag : Option String
  pub checksum : Option String
  pub expires_at : ℕ
  pub media_version : String

-- `TrackDownloadStatus.value`
abbrev pub status_value : TrackDownloadStatus → String
status_value TrackDownloadStatus.not_requested = "not_requested"
status_value TrackDownloadStatus.queued = "queued"
status_value TrackDownloadStatus.downloading = "downloading"
status_value TrackDownloadStatus.ready = "ready"
status_value TrackDownloadStatus.failed = "failed"

unfoldable pub get_track : ℕ → Exec Track
unfolding find_by_id
get_track track_id = do found ← find_by_id track_id; or_raise found (Error.track_not_found none)

abbrev pub not_ready : Track → Error
not_ready t =
    Error.track_not_ready (some (text_or t.download_error_code (status_value t.download_status)))

unfoldable pub key_or_raise : Track → Option String → Result String
key_or_raise t none = err (not_ready t)
key_or_raise t (some key) = if is_empty key then err (not_ready t) else ok key

-- the storage key of a track that is READY
unfoldable pub ready_key : Track → Result String
unfolding key_or_raise
ready_key t =
    if has_status TrackDownloadStatus.ready t
    then key_or_raise t t.storage_key
    else err (not_ready t)

-- `except Exception` round the calls of the store
unfoldable pub from_storage {ℓ} : {A : Type ℓ} → Reply A → Result A
from_storage (Reply.reply a) = ok a
from_storage _ = err (Error.track_dependency_unavailable (some "storage_unavailable"))

-- `metadata.checksum or metadata.etag or f"track-{track.id}"`
unfoldable pub media_version : ObjectMetadata → ℕ → String
unfolding join str
media_version m track_id = text_or m.checksum (text_or m.etag (join "track-" (str track_id)))

abbrev pub descriptor : ℕ → ℕ → Track → ObjectMetadata → String → DownloadDescriptor
descriptor ttl now t m url = record {
  track_id = t.id;
  url = url;
  content_type = m.content_type;
  content_length = m.content_length;
  etag = m.etag;
  checksum = m.checksum;
  expires_at = now + ttl;
  media_version = media_version m t.id;
}

-- what the methods read beside the database; `ttl` is MINIO_PRESIGNED_TTL_SECONDS
pub record Media (S : Type 0) : Type 0 where
  pub s3 : S3 S
  pub store : S
  pub enforce_config : Bool
  pub playback : Bool
  pub ttl : ℕ
  pub now : ℕ

module _ {S : Type 0} (m : Media S) where
  unfoldable pub require_playback : Exec (Unit {0})
  require_playback =
      raise_if (m.enforce_config && not m.playback)
        (Error.track_capability_disabled (some "playback_disabled"))

  unfoldable pub get_stream_url : ℕ → Exec String
  unfolding require_playback get_track ready_key from_storage get_presigned_url
  get_stream_url track_id = do
    require_playback
    track ← get_track track_id
    key ← lift (ready_key track)
    lift (from_storage (get_presigned_url m.s3 m.ttl key none m.store))

  -- both calls of the gather must succeed
  unfoldable pub describe : Track → String → Exec DownloadDescriptor
  unfolding from_storage get_object_metadata get_presigned_url media_version
  describe track key = do
    metadata ← lift (from_storage (get_object_metadata m.s3 key m.store))
    url ← lift (from_storage (get_presigned_url m.s3 m.ttl key (some m.ttl) m.store))
    pure (descriptor m.ttl m.now track metadata url)

  unfoldable pub get_download_descriptor : ℕ → Exec DownloadDescriptor
  unfolding require_playback get_track ready_key describe
  get_download_descriptor track_id = do
    require_playback
    track ← get_track track_id
    key ← lift (ready_key track)
    describe track key

  -- the gather, which fails with the error of one of its calls: here of the first that fails
  unfoldable pub gather_descriptors : List ℕ → Exec (List DownloadDescriptor)
  unfolding get_download_descriptor
  gather_descriptors [] = pure []
  gather_descriptors (i ∷ is) = do
    x ← get_download_descriptor i
    xs ← gather_descriptors is
    pure (x ∷ xs)

  unfoldable pub get_download_descriptors : List ℕ → Exec (List DownloadDescriptor)
  unfolding gather_descriptors unique
  get_download_descriptors track_ids = gather_descriptors (unique track_ids)
