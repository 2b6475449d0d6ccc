-- ===== src/Tracks/Statements.antt =====
-- modules/tracks/repository.py, statement by statement, on the rows of the `tracks` table.
use fuze.Prelude.{ℕ, String, ◌&&◌, some, List, [], ◌∷◌, ◌++◌, nat_eq, string_eq, if◌then◌else◌}
use fuze.Prelude.Texts.{take_chars}
use fuze.Database.Sql.{update_where, exists_row}
use fuze.Tracks.Models.{Track, TrackSource, TrackDownloadStatus, source_eq, status_eq}
use fuze.Tracks.Rows.{
  TrackValues, has_status, has_id, has_source, new_track, should_enqueue, queue_row, fail_row,
  claimable, claim_row, owns, ready_row, can_retry, retry_row, is_exhausted, is_stale, requeue_row,
  missing_row, contains_id,
}

-- INSERT … ON CONFLICT (source, source_id) DO NOTHING
unfoldable pub insert_track : ℕ → TrackValues → List Track → List Track
unfolding exists_row
insert_track id v ts =
    if exists_row (has_source v.source v.source_id) ts then ts else ts ++ new_track id v ∷ []

unfoldable pub queue_table : ℕ → ℕ → TrackSource → String → List Track → List Track
unfolding should_enqueue queue_row
queue_table max_attempts now source source_id =
    update_where (λ t. has_source source source_id t && should_enqueue t)
      (queue_row max_attempts now)

unfoldable pub set_task_table : ℕ → String → List Track → List Track
set_task_table track_id task_id =
    update_where (λ t. has_id track_id t && has_status TrackDownloadStatus.queued t)
      λ t. record t { download_task_id = some task_id }

-- `mark_enqueue_failed`; it leaves the lease alone
unfoldable pub enqueue_failed_table : ℕ → ℕ → String → List Track → List Track
enqueue_failed_table now track_id message =
    update_where (λ t. has_id track_id t && has_status TrackDownloadStatus.queued t)
      λ t. record t {
        download_status = TrackDownloadStatus.failed;
        download_error_code = some "queue_unavailable";
        download_error_message = some (take_chars 512 message);
        download_finished_at = some now;
      }

unfoldable pub queued_failed_table : ℕ → ℕ → String → String → List Track → List Track
unfolding fail_row
queued_failed_table now track_id code message =
    update_where (λ t. has_id track_id t && has_status TrackDownloadStatus.queued t)
      (fail_row now (take_chars 64 code) (take_chars 512 message))

unfoldable pub playback_disabled_table : ℕ → List Track → List Track
unfolding fail_row
playback_disabled_table now =
    update_where (has_status TrackDownloadStatus.queued)
      (fail_row now "playback_disabled" "Playback is disabled")

unfoldable pub claim_table : ℕ → ℕ → String → ℕ → List Track → List Track
unfolding claimable claim_row
claim_table now track_id task_id lease_seconds =
    update_where (claimable track_id task_id) (claim_row now task_id lease_seconds)

unfoldable pub ready_table : ℕ → ℕ → String → String → String → List Track → List Track
unfolding owns ready_row
ready_table now track_id task_id storage_key yt_url =
    update_where (owns track_id task_id) (ready_row now storage_key yt_url)

unfoldable pub failed_table : ℕ → ℕ → String → String → String → List Track → List Track
unfolding owns fail_row
failed_table now track_id task_id code message =
    update_where (owns track_id task_id)
      (fail_row now (take_chars 64 code) (take_chars 512 message))

unfoldable pub retry_table : ℕ → ℕ → ℕ → List Track → List Track
unfolding can_retry retry_row
retry_table now max_attempts track_id =
    update_where (can_retry max_attempts track_id) (retry_row now)

unfoldable pub exhaust_table : ℕ → ℕ → List Track → List Track
unfolding is_exhausted fail_row
exhaust_table now max_attempts =
    update_where (is_exhausted now max_attempts)
      (fail_row now "max_attempts_exhausted" "Download attempts exhausted after worker timeout")

unfoldable pub requeue_table : ℕ → ℕ → List Track → List Track
unfolding is_stale requeue_row
requeue_table now max_attempts = update_where (is_stale now max_attempts) (requeue_row now)

unfoldable pub missing_table : ℕ → List ℕ → List Track → List Track
unfolding missing_row contains_id
missing_table now track_ids = update_where (λ t. contains_id track_ids t.id) (missing_row now)
