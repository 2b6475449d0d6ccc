-- ===== src/Tracks/Lifecycle.antt =====
-- The life of one track: what the transactions on `tracks` do to it, seen through its status alone.
pub mod Refinement
use mathlib.Core.Option
use mathlib.Core.Path.{subst}
use fuze.Prelude.{
  ℕ, String, ◌≡◌, refl, sym, ◌∙◌, Bool, true, ◌&&◌, ◌||◌, Option, none, some, List, ◌∷◌, arith,
  Bool-cases, inl, inr, nat_eq, string_eq, if◌then◌else◌,
}
use fuze.Database.Sql.{update_where}
use fuze.Database.Sql.Laws.{updated, select_one-update_where}
use fuze.Tracks.Models.{
  Track, TrackSource, TrackDownloadStatus, source_eq, status_eq, status_beq_iff,
}
use fuze.Tracks.Rows.{has_status, has_id}
use fuze.Tracks.Statements.{
  queue_table, set_task_table, enqueue_failed_table, queued_failed_table, playback_disabled_table,
  claim_table, ready_table, failed_table, retry_table, missing_table,
}
use fuze.Tracks.ById.{row}

-- The abstract machine of one track: it is imported without a job or registered with one, its job
-- starts and succeeds or is put back, and it may fail at any point; only a request or a retry takes
-- it out of a failure.
pub data Lifecycle : Option TrackDownloadStatus → Option TrackDownloadStatus → Type 0 where
  stay : (s : Option TrackDownloadStatus) → Lifecycle s s
  import : Lifecycle none (some TrackDownloadStatus.not_requested)
  register : Lifecycle none (some TrackDownloadStatus.queued)
  request : Lifecycle (some TrackDownloadStatus.not_requested) (some TrackDownloadStatus.queued)
  again : Lifecycle (some TrackDownloadStatus.failed) (some TrackDownloadStatus.queued)
  start : Lifecycle (some TrackDownloadStatus.queued) (some TrackDownloadStatus.downloading)
  succeed : Lifecycle (some TrackDownloadStatus.downloading) (some TrackDownloadStatus.ready)
  put_back : Lifecycle (some TrackDownloadStatus.downloading) (some TrackDownloadStatus.queued)
  fail : (s : TrackDownloadStatus) → Lifecycle (some s) (some TrackDownloadStatus.failed)

abbrev pub status_of : Option Track → Option TrackDownloadStatus
status_of none = none
status_of (some t) = some t.download_status

-- the status of the track `i`, where it is in the table
abbrev pub status_at : ℕ → List Track → Option TrackDownloadStatus
status_at i ts = status_of (row i ts)

-- a move from the status that the row has
pub leave :
    {s r : TrackDownloadStatus} (t : Track)
    → has_status s t ≡ true
    → Lifecycle (some s) (some r)
    → Lifecycle (some t.download_status) (some r)
leave {s} {r} t here move =
    subst (λ u. Lifecycle (some u) (some r)) (sym ((status_beq_iff t.download_status s).0 here))
      move

-- an UPDATE whose rows move
update-Lifecycle :
    (i : ℕ) (p : Track → Bool) (f : Track → Track)
    → ((t : Track) → (f t).id ≡ t.id)
    → ((t : Track) → p t ≡ true → Lifecycle (some t.download_status) (some (f t).download_status))
    → (ts : List Track) → Lifecycle (status_at i ts) (status_at i (update_where p f ts))
update-Lifecycle i p f id move ts =
    rw (select_one-update_where (has_id i) p f (λ t. rw (id t)) ts) (moved (row i ts))
  where
    moved : (o : Option Track) → Lifecycle (status_of o) (status_of (Option.map (updated p f) o))
    moved none = Lifecycle.stay none
    moved (some t) = elim (Bool-cases (p t)) [
      | inl hit ↦ rw hit (move t hit)
      | inr miss ↦ rw miss (Lifecycle.stay _)
    ]

module _ (i : ℕ) (ts : List Track) where
  pub queue_table-Lifecycle :
      (m now : ℕ) (source : TrackSource) (source_id : String)
      → Lifecycle (status_at i ts) (status_at i (queue_table m now source source_id ts))
  unfolding queue_table
  queue_table-Lifecycle m now source source_id =
      update-Lifecycle i _ _ (λ t. refl)
        (λ t hit. elim (Bool-cases (has_status TrackDownloadStatus.failed t)) [
          | inl failed ↦ leave t failed Lifecycle.again
          | inr other ↦
              leave {s = TrackDownloadStatus.not_requested} t (ground (arith, hit, other))
                Lifecycle.request
        ])
        ts

  pub set_task_table-Lifecycle :
      (track_id : ℕ) (task : String)
      → Lifecycle (status_at i ts) (status_at i (set_task_table track_id task ts))
  unfolding set_task_table
  set_task_table-Lifecycle track_id task =
      update-Lifecycle i _ _ (λ t. refl) (λ t hit. Lifecycle.stay _) ts

  pub enqueue_failed_table-Lifecycle :
      (now track_id : ℕ) (message : String)
      → Lifecycle (status_at i ts) (status_at i (enqueue_failed_table now track_id message ts))
  unfolding enqueue_failed_table
  enqueue_failed_table-Lifecycle now track_id message =
      update-Lifecycle i _ _ (λ t. refl) (λ t hit. Lifecycle.fail _) ts

  pub queued_failed_table-Lifecycle :
      (now track_id : ℕ) (code message : String)
      → Lifecycle (status_at i ts) (status_at i (queued_failed_table now track_id code message ts))
  unfolding queued_failed_table
  queued_failed_table-Lifecycle now track_id code message =
      update-Lifecycle i _ _ (λ t. refl) (λ t hit. Lifecycle.fail _) ts

  pub playback_disabled_table-Lifecycle :
      (now : ℕ) → Lifecycle (status_at i ts) (status_at i (playback_disabled_table now ts))
  unfolding playback_disabled_table
  playback_disabled_table-Lifecycle now =
      update-Lifecycle i _ _ (λ t. refl) (λ t hit. Lifecycle.fail _) ts

  pub claim_table-Lifecycle :
      (now track_id : ℕ) (task : String) (lease : ℕ)
      → Lifecycle (status_at i ts) (status_at i (claim_table now track_id task lease ts))
  unfolding claim_table
  claim_table-Lifecycle now track_id task lease =
      update-Lifecycle i _ _ (λ t. refl)
        (λ t hit. leave {s = TrackDownloadStatus.queued} t (ground (arith, hit)) Lifecycle.start) ts

  pub ready_table-Lifecycle :
      (now track_id : ℕ) (task key url : String)
      → Lifecycle (status_at i ts) (status_at i (ready_table now track_id task key url ts))
  unfolding ready_table
  ready_table-Lifecycle now track_id task key url =
      update-Lifecycle i _ _ (λ t. refl)
        (λ t hit.
          leave {s = TrackDownloadStatus.downloading} t (ground (arith, hit)) Lifecycle.succeed)
        ts

  pub failed_table-Lifecycle :
      (now track_id : ℕ) (task code message : String)
      → Lifecycle (status_at i ts) (status_at i (failed_table now track_id task code message ts))
  unfolding failed_table
  failed_table-Lifecycle now track_id task code message =
      update-Lifecycle i _ _ (λ t. refl) (λ t hit. Lifecycle.fail _) ts

  pub retry_table-Lifecycle :
      (now m track_id : ℕ)
      → Lifecycle (status_at i ts) (status_at i (retry_table now m track_id ts))
  unfolding retry_table
  retry_table-Lifecycle now m track_id =
      update-Lifecycle i _ _ (λ t. refl)
        (λ t hit. leave {s = TrackDownloadStatus.failed} t (ground (arith, hit)) Lifecycle.again) ts

  pub missing_table-Lifecycle :
      (now : ℕ) (ids : List ℕ) → Lifecycle (status_at i ts) (status_at i (missing_table now ids ts))
  unfolding missing_table
  missing_table-Lifecycle now ids =
      update-Lifecycle i _ _ (λ t. refl) (λ t hit. Lifecycle.fail _) ts
