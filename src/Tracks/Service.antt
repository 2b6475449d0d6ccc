-- ===== src/Tracks/Service.antt =====
-- modules/tracks/service.py: `TracksService`. What the service asks of others (the provider's answer,
-- the storage's, the broker's, the clock and the random task id) is an argument.
use fuze.Prelude.{
  ℕ, String, Bool, true, false, ◌&&◌, ◌||◌, not, Option, none, some, [], ◌∷◌, ◌++◌, ltb, ◌==◌,
  string_eq, if◌then◌else◌,
}
use fuze.Prelude.Int.{ℤ, pos, leb_ℤ}
use fuze.Prelude.Texts.{count_chars, is_empty, text_or}
use fuze.Core.Errors.{Error}
use fuze.Core.Config.{FuzeConfig, ProvidersConfig}
use fuze.Core.Result.{Result, ok, err}
use fuze.Database.Tables.{Message}
use fuze.Database.Exec.{Exec, pure, raise, lift, or_raise, raise_if, attempt, ◌>>=◌, ◌>>◌}
use fuze.Tracks.Models.{Track, TrackSource, TrackDownloadStatus, source_eq, status_eq}
use fuze.Tracks.Rows.{TrackValues, has_status}
use fuze.Tracks.Repository.{queue_existing, upsert_and_queue, set_task_id, mark_enqueue_failed}

-- `SearchItem` of providers.py
pub record SearchItem : Type 0 where
  pub source_id : String
  pub title : String
  pub artist : String
  pub album : Option String
  pub year : Option ℤ
  pub duration_ms : Option ℤ
  pub cover_url : Option String
  pub external_url : Option String

-- how `provider.get` ends: its item, or the class of what it raises
pub data Fetched : Type 0 where
  item : SearchItem → Fetched
  invalid_source : String → Fetched
  not_found : String → Fetched
  unavailable : Fetched

pub record AcquireResult : Type 0 where
  pub track : Track
  pub newly_queued : Bool

-- `TrackSource(source)`, which is also the key of PROVIDERS
unfoldable pub provider_of : String → Option TrackSource
provider_of source =
    if source == "yandex"
    then some TrackSource.yandex
    else if source == "youtube"
    then some TrackSource.youtube
    else if source == "spotify"
    then some TrackSource.spotify
    else none

-- `getattr(config.providers, source)`
abbrev pub is_enabled : ProvidersConfig → TrackSource → Bool
is_enabled c TrackSource.yandex = c.yandex
is_enabled c TrackSource.spotify = c.spotify
is_enabled c TrackSource.youtube = c.youtube

abbrev longer_than : ℕ → Option String → Bool
longer_than n none = false
longer_than n (some s) = ltb n (count_chars s)

abbrev out_of_range : ℕ → Option ℤ → Bool
out_of_range max_duration_ms none = false
out_of_range max_duration_ms (some d) = not (leb_ℤ (pos 1) d && leb_ℤ d (pos max_duration_ms))

-- an empty album or cover is as good as none, and passes either way
unfoldable pub validate_item : ℕ → SearchItem → Result (Unit {0})
validate_item max_duration_ms i =
    if is_empty i.source_id || ltb 128 (count_chars i.source_id)
    then err (Error.invalid_track_source (some "invalid_source_id"))
    else if is_empty i.title || ltb 255 (count_chars i.title)
    then err (Error.invalid_track_source (some "invalid_title"))
    else if is_empty i.artist || ltb 255 (count_chars i.artist)
    then err (Error.invalid_track_source (some "invalid_artist"))
    else if longer_than 255 i.album
    then err (Error.invalid_track_source (some "invalid_album"))
    else if longer_than 512 i.cover_url
    then err (Error.invalid_track_source (some "invalid_cover_url"))
    else if out_of_range max_duration_ms i.duration_ms
    then err (Error.invalid_track_source (some "invalid_duration"))
    else ok tt

-- the handlers round `provider.get`
unfoldable pub fetched : Fetched → Result SearchItem
fetched (Fetched.item i) = ok i
fetched (Fetched.invalid_source code) = err (Error.invalid_track_source (some code))
fetched (Fetched.not_found message) = err (Error.track_not_found (some message))
fetched Fetched.unavailable = err (Error.track_dependency_unavailable (some "provider_unavailable"))

-- the values that `acquire` hands to `upsert_and_queue`
unfoldable pub item_values : TrackSource → SearchItem → TrackValues
item_values source i = record {
  title = i.title;
  artist = i.artist;
  album = i.album;
  release_year = i.year;
  duration_ms = i.duration_ms;
  cover_url = i.cover_url;
  source = source;
  source_id = i.source_id;
  yt_url = if source == TrackSource.youtube then i.external_url else none;
}

-- `enqueue_track_download`: the broker takes the message, or the call raises
unfoldable pub publish : Bool → Message → Exec (Unit {0})
publish true message d = (ok tt, record d { messages = d.messages ++ message ∷ [] })
publish false message d = (err Error.runtime_error, d)

-- the handler of `_enqueue`
unfoldable pub enqueue_or_fail : ℕ → ℕ → Result (Unit {0}) → Exec (Unit {0})
enqueue_or_fail now track_id (ok _) = pure tt
enqueue_or_fail now track_id (err _) = do
  mark_enqueue_failed now track_id "Message broker is unavailable"
  raise (Error.track_dependency_unavailable (some "queue_unavailable"))

-- what a request for a track depends on
pub record Outside : Type 0 where
  pub config : FuzeConfig
  pub enforce_config : Bool
  pub max_attempts : ℕ
  pub max_duration_ms : ℕ
  pub youtube_id : String → String
  pub provider_get : TrackSource → String → Fetched
  pub now : ℕ
  pub task_id : String
  pub broker_up : Bool

unfoldable pub enqueue : Outside → Track → Exec Track
unfolding publish enqueue_or_fail set_task_id mark_enqueue_failed
enqueue o track = do
  set_task_id track.id o.task_id
  attempt (publish o.broker_up (record { track_id = track.id; task_id = some o.task_id }))
      (enqueue_or_fail o.now track.id)
  set_task_id track.id o.task_id
  pure (record track { download_task_id = some o.task_id })

unfoldable pub enqueue_if : Outside → Track × Bool → Exec AcquireResult
unfolding enqueue
enqueue_if o (track, true) = do
  t ← enqueue o track
  pure (record { track = t; newly_queued = true })
enqueue_if o (track, false) = pure (record { track = track; newly_queued = false })

-- the track is there: its job is enqueued if it waits for one
unfoldable pub acquire_existing : Outside → Track × Bool → Exec AcquireResult
unfolding enqueue_if
acquire_existing o (track, false) =
    if has_status TrackDownloadStatus.failed track
    then raise (
        Error.track_state_conflict
          (some (text_or track.download_error_code "max_attempts_exhausted")))
    else enqueue_if o (track, false)
acquire_existing o (track, true) = enqueue_if o (track, true)

-- the track is new: its metadata is fetched, checked and stored
unfoldable pub acquire_new : Outside → TrackSource → String → Exec AcquireResult
unfolding fetched validate_item item_values enqueue_if
acquire_new o source canonical_id = do
  raise_if (o.enforce_config && not (is_enabled o.config.providers source))
      (Error.track_capability_disabled (some "provider_disabled"))
  raise_if (source == TrackSource.spotify)
      (Error.invalid_track_source (some "spotify_is_external_only"))
  i ← lift (fetched (o.provider_get source canonical_id))
  lift (validate_item o.max_duration_ms i)
  queued ← upsert_and_queue o.max_attempts o.now (item_values source i)
  enqueue_if o queued

unfoldable pub acquire_found :
    Outside → TrackSource → String → Option Track × Bool → Exec AcquireResult
unfolding acquire_existing acquire_new
acquire_found o source canonical_id (some track, should) = acquire_existing o (track, should)
acquire_found o source canonical_id (none, should) = acquire_new o source canonical_id

abbrev pub canonical : Outside → TrackSource → String → String
canonical o source source_id =
    if source == TrackSource.youtube then o.youtube_id source_id else source_id

unfoldable pub acquire : Outside → String → String → Exec AcquireResult
unfolding provider_of acquire_found
acquire o source source_id = do
  raise_if (not o.config.features.playback)
      (Error.track_capability_disabled (some "playback_disabled"))
  provider ← or_raise (provider_of source) (Error.invalid_track_source (some "unsupported_source"))
  raise_if (is_empty (canonical o provider source_id))
      (Error.invalid_track_source (some "invalid_source_id"))
  existing ← queue_existing o.max_attempts o.now provider (canonical o provider source_id)
  acquire_found o provider (canonical o provider source_id) existing
