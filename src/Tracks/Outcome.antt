-- ===== src/Tracks/Outcome.antt =====
-- How a run of the `download_track` task ends, and what it leaves in the row of its track.

use fuze.Prelude.{
  ◌<◌, ℕ, ◌+◌, String, ◌≡◌, refl, ◌∙◌, Bool, true, false, ◌&&◌, some, arith, ltb, nat_eq, string_eq,
  beq_refl, if◌then◌else◌,
}
use fuze.Prelude.Texts.{take_chars, join}
use fuze.Core.Result.{Result, ok, err}
use fuze.Core.Errors.{Error}
use fuze.Database.Tables.{Db}
use fuze.Database.Exec.{◌>>=◌}
use fuze.Database.Sql.Laws.{select_one-update_where}
use fuze.Tracks.Models.{Track, status_eq}
use fuze.Tracks.Rows.{has_id, claimable, claim_row, owns, fail_row}
use fuze.Tracks.Statements.{ready_table, failed_table}
use fuze.Tracks.Repository.{claim_download, claimed, mark_failed}
use fuze.Tracks.Steps.{IsSettled, Step, Step-IsSettled}
use fuze.Tracks.ById.{row, row-claim_table, claim_download-result}
use fuze.Tracks.Processor.{Pipeline, Stage, media, finish, process_claimed, process}
use fuze.Tracks.Worker.{
  TaskEnd, max_retries, process_task, handle_failure, end_task, download_track,
}
use fuze.Tracks.Failing.{left_row, ended, kept_row, handle_failure-end, handle_failure-queued}

abbrev pub reply : Stage (String × String) → Result Bool
reply (Stage.done _) = ok true
reply Stage.ambiguous = ok false
reply (Stage.broken _) = err Error.runtime_error

module _ (p : Pipeline) (task : String) (c : Track) (d : Db) where
  finish-row :
      (s : Stage (String × String))
      → row c.id d.current.tracks ≡ some c
      → owns c.id task c ≡ true
      → row c.id (finish p c task s d).1.current.tracks ≡ some (left_row p.now s c)
  unfolding finish ready_table failed_table take_chars
  finish-row (Stage.done (name, yt_url)) e mine =
      select_one-update_where (has_id c.id) (owns c.id task) _ (λ t. refl) d.current.tracks
      ∙ rw (e, mine) refl
  finish-row Stage.ambiguous e mine =
      select_one-update_where (has_id c.id) (owns c.id task) _ (λ t. refl) d.current.tracks
      ∙ rw (e, mine) refl
  finish-row (Stage.broken name) e mine =
      select_one-update_where (has_id c.id) (owns c.id task) _ (λ t. refl) d.current.tracks
      ∙ rw (e, mine) refl

  finish-reply : (s : Stage (String × String)) → (finish p c task s d).0 ≡ reply s
  unfolding finish
  finish-reply (Stage.done (name, yt_url)) = refl
  finish-reply Stage.ambiguous = refl
  finish-reply (Stage.broken name) = refl

claim_row-owned :
    (now lease : ℕ) (task : String) (t : Track) → owns t.id task (claim_row now task lease t) ≡ true
unfolding owns claim_row
claim_row-owned now lease task t = ground (arith, beq_refl t.id, beq_refl task)

-- What a delivery of the task meets: a settled database, and a row that it may claim.
module _ (m : ℕ) (p : Pipeline) (task : String) (d : Db) (t : Track) (h : IsSettled m d)
    (on : p.playback ≡ true) (found : row t.id d.current.tracks ≡ some t)
    (free : claimable t.id task t ≡ true) where
  -- the row while the media pipeline runs
  c : Track
  c = claim_row p.now task p.lease_seconds t

  after_claim : Db
  after_claim = (claim_download p.now t.id task p.lease_seconds d).1

  claim-reply :
      (claim_download p.now t.id task p.lease_seconds d).0
      ≡ ok (some (claim_row p.now task p.lease_seconds t))
  claim-reply =
      claim_download-result m d.sequence p.now t.id task p.lease_seconds d h.table
      ∙ (unfold claimed in rw (found, free) refl)

  claim-row :
      row t.id (claim_download p.now t.id task p.lease_seconds d).1.current.tracks
      ≡ some (claim_row p.now task p.lease_seconds t)
  unfolding claim_download
  claim-row =
      row-claim_table t.id p.now t.id task p.lease_seconds d.current.tracks ∙ rw (found, free) refl

  process-finish :
      process p t.id task d
      ≡ finish p
          (claim_row p.now task p.lease_seconds t)
          task
          (media p (claim_row p.now task p.lease_seconds t))
          (claim_download p.now t.id task p.lease_seconds d).1
  unfolding process process_claimed
  process-finish = simp on (rw (claim-reply, ◌>>=◌) refl)

-- a delivery may be repeated: Celery allows it, and an attempt is left after this one
abbrev pub may_retry : ℕ → ℕ → Track → Bool
may_retry m retries t = ltb retries (max_retries m) && ltb (t.download_attempts + 1) m

module _ (m : ℕ) (pos : 0 < m) (p : Pipeline) (retries : ℕ) (task : String) (d : Db) (t : Track)
    (h : IsSettled m d) (on : p.playback ≡ true) (found : row t.id d.current.tracks ≡ some t)
    (free : claimable t.id task t ≡ true) where
  settled : IsSettled m (claim_download p.now t.id task p.lease_seconds d).1
  settled = Step-IsSettled m pos (Step.claim d p.now t.id task p.lease_seconds) h

  claimed-row :
      row t.id (claim_download p.now t.id task p.lease_seconds d).1.current.tracks
      ≡ some (claim_row p.now task p.lease_seconds t)
  claimed-row = claim-row m p task d t h on found free

  -- what `finish` leaves in the row, for the claimed row `c`
  finished-row :
      (s : Stage (String × String))
      → row t.id
          (finish p
            (claim_row p.now task p.lease_seconds t)
            task
            s
            (claim_download p.now t.id task p.lease_seconds d).1).1.current.tracks
        ≡ some (left_row p.now s (claim_row p.now task p.lease_seconds t))
  unfolding claim_row
  finished-row s =
      finish-row p task (claim_row p.now task p.lease_seconds t)
        (claim_download p.now t.id task p.lease_seconds d).1 s claimed-row
        (claim_row-owned p.now p.lease_seconds task t)

  failed_db : String → Db
  failed_db name =
      (mark_failed p.now t.id task "download_failed" (join "Download failed: " name)
        (claim_download p.now t.id task p.lease_seconds d).1).1

  failure-end :
      (name : String)
      → let out = handle_failure m p.now retries t.id task (failed_db name) in
        (out.0 ≡ ended retries (may_retry m retries t) (Stage.broken name))
        × (row t.id out.1.current.tracks
            ≡ some (
                kept_row p.now
                  (may_retry m retries t)
                  (Stage.broken name)
                  (claim_row p.now task p.lease_seconds t)))
  unfolding failed_db claim_row fail_row finish
  failure-end name =
      let f = left_row p.now (Stage.broken name) (claim_row p.now task p.lease_seconds t) in
      let (replied, kept) =
        handle_failure-end m p.now retries task name (failed_db name) f
          (Step-IsSettled m pos
            (Step.fail (claim_download p.now t.id task p.lease_seconds d).1 p.now t.id task
              "download_failed" (join "Download failed: " name))
            settled)
          (finished-row (Stage.broken name)) refl (ltb retries (max_retries m)) refl in
      (replied, kept)

  end_task-finish :
      (s : Stage (String × String))
      → let out = end_task m p.now retries t.id task (
          finish p
            (claim_row p.now task p.lease_seconds t)
            task
            s
            (claim_download p.now t.id task p.lease_seconds d).1) in
        (out.0 ≡ ended retries (may_retry m retries t) s)
        × (row t.id out.1.current.tracks
            ≡ some
                (kept_row p.now (may_retry m retries t) s (claim_row p.now task p.lease_seconds t)))
  unfolding end_task finish claim_row failed_db
  end_task-finish (Stage.done (name, yt_url)) = (refl, finished-row (Stage.done (name, yt_url)))
  end_task-finish Stage.ambiguous = (refl, finished-row Stage.ambiguous)
  end_task-finish (Stage.broken name) = failure-end name

  -- A delivery, on a settled database with playback on, that finds its row claimable: where the
  -- bucket is not ready it raises, without a retry, and the row stays as it is, in the queue.
  -- Otherwise it ends as the media pipeline does: READY with a value, FAILED without a retry on an
  -- ambiguous match, and after any other failure QUEUED again with a retry while a redelivery and
  -- an attempt are left, FAILED with the exception once they are not. The limit of attempts must be
  -- positive.
  pub download_track-end :
      (bucket_ready : Bool)
      → let s = media p (claim_row p.now task p.lease_seconds t) in
        let out = download_track m bucket_ready p retries t.id task d in
        (out.0 ≡ (if bucket_ready then ended retries (may_retry m retries t) s else TaskEnd.raised))
        × (row t.id out.1.current.tracks
            ≡ some (
                if bucket_ready
                then kept_row p.now
                    (may_retry m retries t)
                    s
                    (claim_row p.now task p.lease_seconds t)
                else t))
  unfolding download_track process_task end_task
  download_track-end true =
      rw (process-finish m p task d t h on found free)
        (end_task-finish (media p (claim_row p.now task p.lease_seconds t)))
  download_track-end false = handle_failure-queued m p.now retries task d t h found free
