-- ===== src/Tracks/Worker.antt =====
-- worker/tasks.py: the Celery tasks.
use fuze.Prelude.{
  ℕ, ◌+◌, ◌-◌, String, Bool, true, none, some, List, [], ◌∷◌, ◌++◌, ltb, length, if◌then◌else◌,
}
use Prim.Native.Nat.{◌^◌}
use fuze.Core.Errors.{Error}
use fuze.Core.Result.{Result, ok, err}
use fuze.Database.Tables.{Db, Message}
use fuze.Database.Exec.{Exec, pure, raise, ◌>>=◌}
use fuze.Tracks.Repository.{prepare_retry, requeue_stale, fail_queued_playback_disabled}
use fuze.Tracks.Processor.{Pipeline, process}

-- `MAX_RETRIES = max(0, CELERY_TASK_MAX_RETRIES - 1)`
abbrev pub max_retries : ℕ → ℕ
max_retries max_attempts = max_attempts - 1

-- how a run of `download_track` ends: with a value, with a retry after a countdown, or raising
pub data TaskEnd : Type 0 where
  returned : Bool → TaskEnd
  retried : ℕ → TaskEnd
  raised : TaskEnd

-- `_process`: `ensure_bucket` may raise before the processor is reached
unfoldable pub process_task : Bool → Pipeline → ℕ → String → Exec Bool
unfolding process
process_task bucket_ready p track_id task_id =
    if bucket_ready then process p track_id task_id else raise Error.runtime_error

-- a message for the broker, which Celery delivers once `countdown` has passed
abbrev pub send : Message → Db → Db
send message d = record d { messages = d.messages ++ message ∷ [] }

-- `raise self.retry(...)` where `prepare_retry` queued the track, and the exception again where not
unfoldable pub retry_or_raise : ℕ → ℕ → String → Result Bool × Db → TaskEnd × Db
retry_or_raise retries track_id task_id (ok true, d) = (
  TaskEnd.retried (2 ^ (retries + 1)),
  send (record { track_id = track_id; task_id = some task_id }) d,
)
retry_or_raise retries track_id task_id (_, d) = (TaskEnd.raised, d)

unfoldable pub handle_failure : ℕ → ℕ → ℕ → ℕ → String → Db → TaskEnd × Db
handle_failure max_attempts now retries track_id task_id d =
    if ltb retries (max_retries max_attempts)
    then retry_or_raise retries track_id task_id (prepare_retry now max_attempts track_id d)
    else (TaskEnd.raised, d)

unfoldable pub end_task : ℕ → ℕ → ℕ → ℕ → String → Result Bool × Db → TaskEnd × Db
end_task max_attempts now retries track_id task_id (ok b, d) = (TaskEnd.returned b, d)
end_task max_attempts now retries track_id task_id (err _, d) =
    handle_failure max_attempts now retries track_id task_id d

unfoldable pub download_track : ℕ → Bool → Pipeline → ℕ → ℕ → String → Db → TaskEnd × Db
download_track max_attempts bucket_ready p retries track_id task_id d =
    end_task max_attempts p.now retries track_id task_id
      (process_task bucket_ready p track_id task_id d)

-- `_recover`
unfoldable pub recover : ℕ → ℕ → Bool → Exec (List ℕ)
unfolding fail_queued_playback_disabled
recover max_attempts now playback =
    if playback
    then requeue_stale now max_attempts
    else (do _ ← fail_queued_playback_disabled now; pure [])

-- one message for each track, with a task id that Celery makes up
unfoldable pub send_all : List ℕ → Db → Db
send_all [] d = d
send_all (i ∷ is) d = send_all is (send (record { track_id = i; task_id = none }) d)

unfoldable pub recover_stale_downloads : ℕ → ℕ → Bool → Exec ℕ
unfolding recover send_all
recover_stale_downloads max_attempts now playback d =
    let (r, d') = recover max_attempts now playback d in
    elim r [ ok track_ids ↦ (ok (length track_ids), send_all track_ids d') | err e ↦ (err e, d') ]
