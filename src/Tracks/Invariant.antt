-- ===== src/Tracks/Invariant.antt =====
-- What holds of every row of `tracks`: the fields that a download status promises, and the attempts
-- that a row may have used.
use fuze.Prelude.{ℕ, ◌≤◌, ◌<◌, String, ◌≡◌, true, false, arith, is_some, is_none, nat_eq, string_eq}
use fuze.Tracks.Models.{Track, TrackDownloadStatus, source_eq, status_eq}
use fuze.Tracks.Rows.{
  TrackValues, has_status, new_track, should_enqueue, queue_row, fail_row, claimable, claim_row,
  ready_row, can_retry, retry_row, is_stale, requeue_row, missing_row,
}

-- `max_attempts` is the setting CELERY_TASK_MAX_RETRIES.
pub record IsValidRow (max_attempts : ℕ) (t : Track) : Type 0 where
  -- exactly the rows that are READY have a stored object
  pub stored : is_some t.storage_key ≡ has_status TrackDownloadStatus.ready t
  -- a download in progress has an owner and a lease
  pub owned :
      has_status TrackDownloadStatus.downloading t ≡ true → is_some t.download_task_id ≡ true
  pub leased :
      has_status TrackDownloadStatus.downloading t ≡ true
      → is_some t.download_lease_expires_at ≡ true
  -- a failure has a reason, and a stored track has none
  pub explained :
      has_status TrackDownloadStatus.failed t ≡ true → is_some t.download_error_code ≡ true
  pub clean : has_status TrackDownloadStatus.ready t ≡ true → is_none t.download_error_code ≡ true
  -- a job that waits has an attempt left, and no row has used more than there are
  pub room : has_status TrackDownloadStatus.queued t ≡ true → t.download_attempts < max_attempts
  pub spent : t.download_attempts ≤ max_attempts

module _ (m : ℕ) where
  pub new_track-IsValidRow : (id : ℕ) (v : TrackValues) → IsValidRow m (new_track id v)
  new_track-IsValidRow id v = ground arith

  pub queue_row-IsValidRow :
      (now : ℕ) (t : Track)
      → 0 < m
      → IsValidRow m t
      → should_enqueue t ≡ true
      → IsValidRow m (queue_row m now t)
  unfolding should_enqueue queue_row
  queue_row-IsValidRow now t pos h e = ground arith

  pub fail_row-IsValidRow :
      (now : ℕ) (code message : String) (t : Track)
      → IsValidRow m t
      → has_status TrackDownloadStatus.ready t ≡ false
      → IsValidRow m (fail_row now code message t)
  unfolding fail_row
  fail_row-IsValidRow now code message t h e = ground arith

  pub claim_row-IsValidRow :
      (now track_id lease : ℕ) (task : String) (t : Track)
      → IsValidRow m t
      → claimable track_id task t ≡ true
      → IsValidRow m (claim_row now task lease t)
  unfolding claimable claim_row
  claim_row-IsValidRow now track_id lease task t h e = ground arith

  pub ready_row-IsValidRow :
      (now : ℕ) (key url : String) (t : Track)
      → IsValidRow m t
      → IsValidRow m (ready_row now key url t)
  unfolding ready_row
  ready_row-IsValidRow now key url t h = ground arith

  pub retry_row-IsValidRow :
      (now track_id : ℕ) (t : Track)
      → IsValidRow m t
      → can_retry m track_id t ≡ true
      → IsValidRow m (retry_row now t)
  unfolding can_retry retry_row
  retry_row-IsValidRow now track_id t h e = ground arith

  pub requeue_row-IsValidRow :
      (now : ℕ) (t : Track)
      → IsValidRow m t
      → is_stale now m t ≡ true
      → IsValidRow m (requeue_row now t)
  unfolding is_stale requeue_row
  requeue_row-IsValidRow now t h e = ground arith

  pub missing_row-IsValidRow :
      (now : ℕ) (t : Track) → IsValidRow m t → IsValidRow m (missing_row now t)
  unfolding missing_row
  missing_row-IsValidRow now t h = ground arith
