-- ===== src/Tracks/Rows.antt =====
-- modules/tracks/repository.py, row by row: the WHERE clauses of its statements and the values that
-- they assign.
use fuze.Prelude.{
  ℕ, ◌+◌, String, Bool, false, ◌&&◌, ◌||◌, Option, none, some, List, [], ◌∷◌, ltb, leb, ◌==◌,
  is_equal, is_none, nat_eq, string_eq, if◌then◌else◌,
}
use fuze.Prelude.Int.{ℤ}
use fuze.Tracks.Models.{Track, TrackSource, TrackDownloadStatus, source_eq, status_eq}

-- the metadata that `upsert_and_queue` and `import_tracks` insert
pub record TrackValues : Type 0 where
  pub title : String
  pub artist : String
  pub album : Option String
  pub release_year : Option ℤ
  pub duration_ms : Option ℤ
  pub cover_url : Option String
  pub source : TrackSource
  pub source_id : String
  pub yt_url : Option String

abbrev pub has_status : TrackDownloadStatus → Track → Bool
has_status s t = t.download_status == s

abbrev pub has_id : ℕ → Track → Bool
has_id track_id t = t.id == track_id

-- Track.source == source, Track.source_id == source_id
abbrev pub has_source : TrackSource → String → Track → Bool
has_source source source_id t = t.source == source && t.source_id == source_id

-- the columns' defaults, with download_status NOT_REQUESTED
abbrev pub new_track : ℕ → TrackValues → Track
new_track id v = record {
  id = id;
  title = v.title;
  artist = v.artist;
  album = v.album;
  release_year = v.release_year;
  duration_ms = v.duration_ms;
  cover_url = v.cover_url;
  source = v.source;
  source_id = v.source_id;
  yt_url = v.yt_url;
  storage_key = none;
  download_status = TrackDownloadStatus.not_requested;
  download_attempts = 0;
  download_error_code = none;
  download_error_message = none;
  download_task_id = none;
  download_requested_at = none;
  download_started_at = none;
  download_finished_at = none;
  download_lease_expires_at = none;
}

unfoldable pub should_enqueue : Track → Bool
should_enqueue t =
    has_status TrackDownloadStatus.not_requested t || has_status TrackDownloadStatus.failed t

-- what `upsert_and_queue` and `queue_existing` assign to a row that is to be queued
unfoldable pub queue_row : ℕ → ℕ → Track → Track
queue_row max_attempts now t = record t {
  download_attempts = if leb max_attempts t.download_attempts then 0 else t.download_attempts;
  download_status = TrackDownloadStatus.queued;
  download_requested_at = some now;
  download_started_at = none;
  download_finished_at = none;
  download_lease_expires_at = none;
  download_error_code = none;
  download_error_message = none;
}

-- the values of `mark_failed`, `mark_queued_failed`, `fail_queued_playback_disabled` and of the
-- first statement of `requeue_stale`
unfoldable pub fail_row : ℕ → String → String → Track → Track
fail_row now code message t = record t {
  download_status = TrackDownloadStatus.failed;
  download_error_code = some code;
  download_error_message = some message;
  download_finished_at = some now;
  download_lease_expires_at = none;
}

-- the WHERE clause of `claim_download`
unfoldable pub claimable : ℕ → String → Track → Bool
claimable track_id task_id t =
    has_id track_id t
    && has_status TrackDownloadStatus.queued t
    && (is_equal t.download_task_id task_id || is_none t.download_task_id)

unfoldable pub claim_row : ℕ → String → ℕ → Track → Track
claim_row now task_id lease_seconds t = record t {
  download_status = TrackDownloadStatus.downloading;
  download_attempts = t.download_attempts + 1;
  download_started_at = some now;
  download_task_id = some task_id;
  download_lease_expires_at = some (now + lease_seconds);
  download_error_code = none;
  download_error_message = none;
}

-- the WHERE clause of `mark_ready` and `mark_failed`: the caller still owns the download
unfoldable pub owns : ℕ → String → Track → Bool
owns track_id task_id t =
    has_id track_id t
    && has_status TrackDownloadStatus.downloading t
    && is_equal t.download_task_id task_id

unfoldable pub ready_row : ℕ → String → String → Track → Track
ready_row now storage_key yt_url t = record t {
  storage_key = some storage_key;
  yt_url = some yt_url;
  download_status = TrackDownloadStatus.ready;
  download_finished_at = some now;
  download_lease_expires_at = none;
  download_error_code = none;
  download_error_message = none;
}

-- the WHERE clause of `prepare_retry`
unfoldable pub can_retry : ℕ → ℕ → Track → Bool
can_retry max_attempts track_id t =
    has_id track_id t
    && has_status TrackDownloadStatus.failed t
    && ltb t.download_attempts max_attempts

-- it leaves the error code, the message and the start time as they are
unfoldable pub retry_row : ℕ → Track → Track
retry_row now t = record t {
  download_status = TrackDownloadStatus.queued;
  download_requested_at = some now;
  download_finished_at = none;
  download_task_id = none;
}

-- `column < moment`, which NULL fails
abbrev pub is_before : Option ℕ → ℕ → Bool
is_before none moment = false
is_before (some at) moment = ltb at moment

-- Track.download_lease_expires_at < now, for a row that is DOWNLOADING
unfoldable pub lease_expired : ℕ → Track → Bool
lease_expired now t =
    has_status TrackDownloadStatus.downloading t && is_before t.download_lease_expires_at now

-- `column < now - timedelta(seconds=n)`, where ℕ cannot subtract
abbrev pub is_older : ℕ → Option ℕ → ℕ → Bool
is_older n none now = false
is_older n (some at) now = ltb (at + n) now

-- Track.download_requested_at < now - timedelta(minutes=5), for a row that is QUEUED
unfoldable pub request_forgotten : ℕ → Track → Bool
request_forgotten now t =
    has_status TrackDownloadStatus.queued t && is_older 300 t.download_requested_at now

-- the WHERE clauses of the two statements of `requeue_stale`
unfoldable pub is_exhausted : ℕ → ℕ → Track → Bool
unfolding lease_expired
is_exhausted now max_attempts t = lease_expired now t && leb max_attempts t.download_attempts

unfoldable pub is_stale : ℕ → ℕ → Track → Bool
unfolding lease_expired request_forgotten
is_stale now max_attempts t =
    (lease_expired now t || request_forgotten now t) && ltb t.download_attempts max_attempts

unfoldable pub requeue_row : ℕ → Track → Track
requeue_row now t = record t {
  download_status = TrackDownloadStatus.queued;
  download_requested_at = some now;
  download_lease_expires_at = none;
  download_task_id = none;
  download_error_code = none;
  download_error_message = none;
}

unfoldable pub missing_row : ℕ → Track → Track
missing_row now t = record t {
  storage_key = none;
  download_status = TrackDownloadStatus.failed;
  download_error_code = some "storage_object_missing";
  download_error_message = some "Stored media object is missing";
  download_finished_at = some now;
}

-- Track.id.in_(track_ids)
unfoldable pub contains_id : List ℕ → ℕ → Bool
contains_id [] i = false
contains_id (x ∷ xs) i = x == i || contains_id xs i
