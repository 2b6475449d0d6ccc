-- ===== src/Tracks/Failing.antt =====
-- `_prepare_retry` of worker/tasks.py: how a run of `download_track` ends that raised, and what it
-- leaves in the row of its track.
use Prim.Native.Nat.{◌^◌}
use fuze.Prelude.{
  ℕ, ◌+◌, String, ◌≡◌, refl, ◌∙◌, ap, Bool, true, false, ◌&&◌, none, some, arith, ltb, nat_eq,
  string_eq, beq_refl, if◌then◌else◌, Bool-cases, inl, inr,
}
use fuze.Prelude.Texts.{take_chars, join}
use fuze.Core.Result.{Result, ok}
use fuze.Database.Tables.{Db}
use fuze.Database.Sql.{select_one}
use fuze.Database.Sql.Laws.{select_one-update_where}
use fuze.Tracks.Models.{Track, TrackDownloadStatus, status_eq}
use fuze.Tracks.Rows.{has_status, has_id, claimable, ready_row, fail_row, can_retry, retry_row}
use fuze.Tracks.Statements.{retry_table}
use fuze.Tracks.Repository.{prepare_retry}
use fuze.Tracks.Steps.{IsSettled}
use fuze.Tracks.ById.{row, select_one-by_id, can_retry-has_id}
use fuze.Tracks.Processor.{Stage}
use fuze.Tracks.Worker.{TaskEnd, max_retries, retry_or_raise, handle_failure}

-- the row that the processor leaves
abbrev pub left_row : ℕ → Stage (String × String) → Track → Track
left_row now (Stage.done (name, yt_url)) c = ready_row now name yt_url c
left_row now Stage.ambiguous c = fail_row now "match_ambiguous" "match_ambiguous" c
left_row now (Stage.broken name) c =
    fail_row now "download_failed" (take_chars 512 (join "Download failed: " name)) c

-- the end of a delivery, by how the pipeline ended and whether a retry is allowed
abbrev pub ended : ℕ → Bool → Stage (String × String) → TaskEnd
ended retries allowed (Stage.done _) = TaskEnd.returned true
ended retries allowed Stage.ambiguous = TaskEnd.returned false
ended retries true (Stage.broken _) = TaskEnd.retried (2 ^ (retries + 1))
ended retries false (Stage.broken _) = TaskEnd.raised

-- the row that it leaves
abbrev pub kept_row : ℕ → Bool → Stage (String × String) → Track → Track
kept_row now b (Stage.done out) c = left_row now (Stage.done out) c
kept_row now b Stage.ambiguous c = left_row now Stage.ambiguous c
kept_row now b (Stage.broken name) c =
    if b
    then retry_row now (left_row now (Stage.broken name) c)
    else left_row now (Stage.broken name) c

module _ (m : ℕ) (now retries : ℕ) (task name : String) (d : Db) (f : Track) (h : IsSettled m d)
    (found : row f.id d.current.tracks ≡ some f)
    (failed : has_status TrackDownloadStatus.failed f ≡ true) where
  can_retry-failed : can_retry m f.id f ≡ ltb f.download_attempts m
  unfolding can_retry
  can_retry-failed = ground (arith, failed, beq_refl f.id)

  selected :
      select_one (can_retry m f.id) d.current.tracks
      ≡ (if ltb f.download_attempts m then some f else none)
  selected =
      select_one-by_id f.id (can_retry m f.id) d.current.tracks (can_retry-has_id m f.id)
        h.table.ids
      ∙ rw (found, ← can_retry-failed) refl

  retry-row :
      row f.id (retry_table now m f.id d.current.tracks)
      ≡ some (if ltb f.download_attempts m then retry_row now f else f)
  unfolding retry_table
  retry-row =
      select_one-update_where (has_id f.id) (can_retry m f.id) (retry_row now) (λ t. refl)
        d.current.tracks
      ∙ rw found (ap (λ b. some (if b then retry_row now f else f)) can_retry-failed)

  prepare_retry-reply : (prepare_retry now m f.id d).0 ≡ ok (ltb f.download_attempts m)
  unfolding prepare_retry
  prepare_retry-reply = rw selected (ground arith)

  prepare_retry-row :
      row f.id (prepare_retry now m f.id d).1.current.tracks
      ≡ some (if ltb f.download_attempts m then retry_row now f else f)
  unfolding prepare_retry
  prepare_retry-row = retry-row

  retry_or_raise-end :
      (b : Bool) (r : Result Bool) (d' : Db)
      → r ≡ ok b
      → ((retry_or_raise retries f.id task (r, d')).0 ≡ ended retries b (Stage.broken name))
        × ((retry_or_raise retries f.id task (r, d')).1.current.tracks ≡ d'.current.tracks)
  unfolding retry_or_raise
  retry_or_raise-end true r d' e = rw e (refl, refl)
  retry_or_raise-end false r d' e = rw e (refl, refl)

  -- A failed row is queued again, and its message sent, if a redelivery and an attempt are left.
  pub handle_failure-end :
      (left : Bool)
      → ltb retries (max_retries m) ≡ left
      → ((handle_failure m now retries f.id task d).0
          ≡ ended retries (left && ltb f.download_attempts m) (Stage.broken name))
        × (row f.id (handle_failure m now retries f.id task d).1.current.tracks
            ≡ some (if left && ltb f.download_attempts m then retry_row now f else f))
  unfolding handle_failure
  handle_failure-end false e = rw e (refl, found)
  handle_failure-end true e =
      let (replied, kept) =
        retry_or_raise-end (ltb f.download_attempts m) (prepare_retry now m f.id d).0
          (prepare_retry now m f.id d).1 prepare_retry-reply in
      rw e (replied, ap (row f.id) kept ∙ prepare_retry-row)

-- a task that stops before its row is claimed
module _ (m : ℕ) (now retries : ℕ) (task : String) (d : Db) (t : Track) (h : IsSettled m d)
    (found : row t.id d.current.tracks ≡ some t) (free : claimable t.id task t ≡ true) where
  can_retry-queued : can_retry m t.id t ≡ false
  unfolding can_retry claimable
  can_retry-queued = ground (arith, free)

  prepare_retry-queued :
      ((prepare_retry now m t.id d).0 ≡ ok false)
      × (row t.id (prepare_retry now m t.id d).1.current.tracks ≡ some t)
  unfolding prepare_retry retry_table
  prepare_retry-queued =
      let nothing : select_one (can_retry m t.id) d.current.tracks ≡ none =
        select_one-by_id t.id (can_retry m t.id) d.current.tracks (can_retry-has_id m t.id)
          h.table.ids
        ∙ rw (found, can_retry-queued) refl in
      (
        rw nothing refl,
        select_one-update_where (has_id t.id) (can_retry m t.id) (retry_row now) (λ t. refl)
              d.current.tracks
            ∙ rw (found, can_retry-queued) refl,
      )

  pub handle_failure-queued :
      let out = handle_failure m now retries t.id task d in
      (out.0 ≡ TaskEnd.raised) × (row t.id out.1.current.tracks ≡ some t)
  unfolding handle_failure retry_or_raise
  handle_failure-queued = elim (Bool-cases (ltb retries (max_retries m))) [
    | inl more ↦ rw (more, prepare_retry-queued.0, retry_or_raise) (refl, prepare_retry-queued.1)
    | inr spent ↦ rw spent (refl, found)
  ]
