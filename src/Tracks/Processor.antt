-- ===== src/Tracks/Processor.antt =====
-- modules/tracks/service.py: `TrackDownloadProcessor`, the worker's media pipeline. What YouTube, the
-- encoder and the storage answer are arguments.
use fuze.Prelude.{
  ℕ, String, Bool, true, false, not, Option, none, some, ◌==◌, nat_eq, if◌then◌else◌,
}
use fuze.Prelude.Texts.{join}
use fuze.Core.Errors.{Error}
use fuze.Database.Exec.{Exec, pure, raise, ◌>>=◌, ◌>>◌}
use fuze.Tracks.Models.{Track, TrackSource}
use fuze.Tracks.Repository.{mark_queued_failed, claim_download, mark_ready, mark_failed}

-- how a stage of the pipeline ends: its value, an `AmbiguousTrackMatch`, or another exception by the
-- name of its class
pub data Stage (A : Type 0) : Type 0 where
  done : A → Stage A
  ambiguous : Stage A
  broken : String → Stage A

abbrev pub chain : {A B : Type 0} → Stage A → (A → Stage B) → Stage B
chain (Stage.done a) f = f a
chain Stage.ambiguous f = Stage.ambiguous
chain (Stage.broken name) f = Stage.broken name

pub record Pipeline : Type 0 where
  pub playback : Bool
  pub now : ℕ
  pub lease_seconds : ℕ
  -- `_resolve_youtube_url`
  pub resolve : Track → Stage String
  -- `download_audio_to_file`, with the size of the file
  pub download : String → Stage ℕ
  -- `upload_file`
  pub upload : String → Stage (Unit {0})

-- `TrackSource.value`
abbrev pub source_value : TrackSource → String
source_value TrackSource.yandex = "yandex"
source_value TrackSource.spotify = "spotify"
source_value TrackSource.youtube = "youtube"

unfoldable pub object_name : Track → String
unfolding join
object_name t = join (source_value t.source) (join "/" (join t.source_id ".opus"))

-- the body of the `try`, up to the upload: the object's name and the URL
unfoldable pub media : Pipeline → Track → Stage (String × String)
unfolding object_name
media p track = chain (p.resolve track) λ yt_url. chain (p.download yt_url) λ size.
    if size == 0
    then Stage.broken "RuntimeError"
    else chain (p.upload (object_name track)) λ _. Stage.done (object_name track, yt_url)

unfoldable pub finish : Pipeline → Track → String → Stage (String × String) → Exec Bool
unfolding mark_ready mark_failed
finish p track task_id (Stage.done (name, yt_url)) = do
  mark_ready p.now track.id task_id name yt_url
  pure true
finish p track task_id Stage.ambiguous = do
  mark_failed p.now track.id task_id "match_ambiguous" "match_ambiguous"
  pure false
finish p track task_id (Stage.broken name) = do
  mark_failed p.now track.id task_id "download_failed" (join "Download failed: " name)
  raise Error.runtime_error

unfoldable pub process_claimed : Pipeline → String → Option Track → Exec Bool
unfolding finish media
process_claimed p task_id none = pure false
process_claimed p task_id (some track) = finish p track task_id (media p track)

unfoldable pub process : Pipeline → ℕ → String → Exec Bool
unfolding mark_queued_failed process_claimed
process p track_id task_id =
    if not p.playback
    then (do
      mark_queued_failed p.now track_id "playback_disabled" "Playback is disabled"
      pure false)
    else (do
      track ← claim_download p.now track_id task_id p.lease_seconds
      process_claimed p task_id track)
