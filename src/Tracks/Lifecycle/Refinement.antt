-- ===== src/Tracks/Lifecycle/Refinement.antt =====
-- The steps on `tracks` as moves of the abstract life of each track.
use mathlib.Core.Option
use mathlib.Core.Path.{subst}
use fuze.Prelude.{
  ℕ, String, ◌≡◌, refl, sym, ap, ◌∙◌, true, false, ◌&&◌, Option, none, some, List, [], ◌∷◌, ◌++◌,
  arith, Bool-cases, Option-cases, inl, inr, nat_eq, string_eq, beq_refl, if◌then◌else◌,
}
use fuze.Database.Tables.{Db}
use fuze.Database.Sql.{select_one, exists_row}
use fuze.Database.Sql.Laws.{updated, select_one-update_where, select_one-insert}
use fuze.Tracks.Models.{Track, TrackSource, TrackDownloadStatus, source_eq, status_eq}
use fuze.Tracks.Rows.{
  TrackValues, has_status, has_id, has_source, new_track, should_enqueue, queue_row, fail_row,
  is_exhausted, is_stale, requeue_row,
}
use fuze.Tracks.Statements.{insert_track, queue_table, exhaust_table, requeue_table}
use fuze.Tracks.Repository
use fuze.Tracks.Repository.{
  queue_existing, upsert_and_queue, set_task_id, mark_enqueue_failed, mark_queued_failed,
  fail_queued_playback_disabled, claim_download, mark_ready, mark_failed, prepare_retry,
  requeue_stale, mark_storage_missing, queue_found, queue_or_rollback, insert_values,
}
use fuze.Tracks.Steps.{IsSettled, Step, insert_track-found}
use fuze.Tracks.Lifecycle.{
  Lifecycle, status_of, status_at, leave, queue_table-Lifecycle, set_task_table-Lifecycle,
  enqueue_failed_table-Lifecycle, queued_failed_table-Lifecycle, playback_disabled_table-Lifecycle,
  claim_table-Lifecycle, ready_table-Lifecycle, failed_table-Lifecycle, retry_table-Lifecycle,
  missing_table-Lifecycle,
}
use fuze.Tracks.ById.{row}
use fuze.Tracks.Recovery.{time_out}

-- the two statements of `requeue_stale` on a row
abbrev recovered : ℕ → ℕ → Track → Track
recovered now m t =
    updated (is_stale now m) (requeue_row now) (updated (is_exhausted now m) (time_out now) t)

failed_not_stale :
    (now m : ℕ) (code message : String) (t : Track)
    → is_stale now m (fail_row now code message t) ≡ false
unfolding is_stale fail_row
failed_not_stale now m code message t = ground arith

stale-Lifecycle :
    (now m : ℕ) (t : Track)
    → is_stale now m t ≡ true
    → Lifecycle (some t.download_status) (some TrackDownloadStatus.queued)
unfolding is_stale
stale-Lifecycle now m t stale = elim (Bool-cases (has_status TrackDownloadStatus.downloading t)) [
  | inl busy ↦ leave t busy Lifecycle.put_back
  | inr idle ↦
      leave {s = TrackDownloadStatus.queued} t (ground (arith, stale, idle)) (Lifecycle.stay _)
]

recovered-Lifecycle :
    (now m : ℕ) (t : Track)
    → Lifecycle (some t.download_status) (some (recovered now m t).download_status)
unfolding fail_row requeue_row
recovered-Lifecycle now m t = elim (Bool-cases (is_exhausted now m t)) [
  | inl spent ↦ rw spent (
      rw
        (failed_not_stale now m "max_attempts_exhausted"
          "Download attempts exhausted after worker timeout" t)
        (Lifecycle.fail _))
  | inr left ↦ elim (Bool-cases (is_stale now m t)) [
    | inl stale ↦ rw left (rw stale (stale-Lifecycle now m t stale))
    | inr quiet ↦ rw left (rw quiet (Lifecycle.stay _))
  ]
]

requeue_stale-Lifecycle :
    (i now m : ℕ) (ts : List Track)
    → Lifecycle (status_at i ts) (status_at i (requeue_table now m (exhaust_table now m ts)))
unfolding requeue_table exhaust_table
requeue_stale-Lifecycle i now m ts =
    rw
      (select_one-update_where (has_id i) (is_stale now m) (requeue_row now) (λ t. refl)
        (exhaust_table now m ts))
      (rw (select_one-update_where (has_id i) (is_exhausted now m) (time_out now) (λ t. refl) ts)
        (moved (row i ts)))
  where
    moved :
        (o : Option Track)
        → Lifecycle (status_of o) (
            status_of (
              Option.map
                (updated (is_stale now m) (requeue_row now))
                (Option.map (updated (is_exhausted now m) (time_out now)) o)))
    moved none = Lifecycle.stay none
    moved (some t) = recovered-Lifecycle now m t

appended_row :
    (i : ℕ) (n : Track) (ts : List Track)
    → row i ts ≡ none
    → row i (ts ++ n ∷ []) ≡ (if has_id i n then some n else none)
unfolding select_one
appended_row i n [] absent = refl
appended_row i n (t ∷ ts) absent = elim (Bool-cases (has_id i t)) [
  | inl hit ↦ absurd (ground (arith, hit, absent))
  | inr miss ↦ rw miss (appended_row i n ts (rw miss at absent))
]

queued_new :
    (id m now : ℕ) (v : TrackValues)
    → (updated
        (λ t. has_source v.source v.source_id t && should_enqueue t)
        (queue_row m now)
        (new_track id v)).download_status
      ≡ TrackDownloadStatus.queued
unfolding should_enqueue queue_row
queued_new id m now v = ground (arith, beq_refl v.source, beq_refl v.source_id)

-- the row that an INSERT adds is queued at once
registered :
    (i id m now : ℕ) (v : TrackValues) (ts : List Track)
    → row i ts ≡ none
    → Lifecycle none
        (status_at i (queue_table m now v.source v.source_id (ts ++ new_track id v ∷ [])))
unfolding queue_table
registered i id m now v ts absent =
    rw
      (select_one-update_where (has_id i)
        (λ t. has_source v.source v.source_id t && should_enqueue t) (queue_row m now) (λ t. refl)
        (ts ++ new_track id v ∷ []))
      (rw (appended_row i (new_track id v) ts absent)
        (elim (Bool-cases (has_id i (new_track id v))) [
          | inl mine ↦ rw mine (rw (queued_new id m now v) Lifecycle.register)
          | inr other ↦ rw other (Lifecycle.stay none)
        ]))

imported :
    (i id : ℕ) (v : TrackValues) (ts : List Track)
    → row i ts ≡ none
    → Lifecycle none (status_at i (ts ++ new_track id v ∷ []))
imported i id v ts absent =
    rw (appended_row i (new_track id v) ts absent) (elim (Bool-cases (has_id i (new_track id v))) [
      | inl mine ↦ rw mine Lifecycle.import
      | inr other ↦ rw other (Lifecycle.stay none)
    ])

insert_track-Lifecycle :
    (i id : ℕ) (v : TrackValues) (ts : List Track)
    → Lifecycle (status_at i ts) (status_at i (insert_track id v ts))
unfolding insert_track
insert_track-Lifecycle i id v ts =
    elim (Bool-cases (exists_row (has_source v.source v.source_id) ts)) [
      | inl old ↦ rw old (Lifecycle.stay _)
      | inr new ↦ rw new (elim (Option-cases (row i ts)) [
        | inl absent ↦ rw absent (imported i id v ts absent)
        | inr (t, found) ↦
            subst (Lifecycle (status_at i ts))
              (ap status_of
                (found ∙ sym (select_one-insert (has_id i) ts t (new_track id v) found)))
              (Lifecycle.stay _)
      ])
    ]

inserted-Lifecycle :
    (i id m now : ℕ) (v : TrackValues) (ts : List Track)
    → Lifecycle
        (status_at i ts)
        (status_at i (queue_table m now v.source v.source_id (insert_track id v ts)))
unfolding insert_track
inserted-Lifecycle i id m now v ts =
    elim (Bool-cases (exists_row (has_source v.source v.source_id) ts)) [
      | inl old ↦ rw old (queue_table-Lifecycle i ts m now v.source v.source_id)
      | inr new ↦ rw new (elim (Option-cases (row i ts)) [
        | inl absent ↦ rw absent (registered i id m now v ts absent)
        | inr (t, found) ↦
            subst
              (λ s.
                Lifecycle s (
                  status_at i (queue_table m now v.source v.source_id (ts ++ new_track id v ∷ []))))
              (ap status_of (select_one-insert (has_id i) ts t (new_track id v) found ∙ sym found))
              (queue_table-Lifecycle i (ts ++ new_track id v ∷ []) m now v.source v.source_id)
      ])
    ]

module _ (i m : ℕ) (d : Db) (h : IsSettled m d) where
  -- what the transaction that ends in `e` is for the track `i`
  abbrev Refines : Db → Type 0
  Refines e = Lifecycle (status_at i d.current.tracks) (status_at i e.current.tracks)

  queue_or_rollback-Lifecycle :
      (now : ℕ) (source : TrackSource) (source_id : String) (found : Option Track)
      → Refines (queue_or_rollback m now source source_id found d).1
  unfolding queue_or_rollback queue_found
  queue_or_rollback-Lifecycle now source source_id none = rw h.saved (Lifecycle.stay _)
  queue_or_rollback-Lifecycle now source source_id (some t) =
      queue_table-Lifecycle i d.current.tracks m now source source_id

  queue_existing-Lifecycle :
      (now : ℕ) (source : TrackSource) (source_id : String)
      → Refines (queue_existing m now source source_id d).1
  unfolding queue_existing
  queue_existing-Lifecycle now source source_id =
      queue_or_rollback-Lifecycle now source source_id
        (select_one (has_source source source_id) d.current.tracks)

  upsert_and_queue-Lifecycle :
      (now : ℕ) (values : TrackValues) → Refines (upsert_and_queue m now values d).1
  unfolding upsert_and_queue insert_values queue_found
  upsert_and_queue-Lifecycle now values =
      let (t, found) = insert_track-found d.sequence values d.current.tracks in
      rw found (inserted-Lifecycle i d.sequence m now values d.current.tracks)

  upsert-Lifecycle : (values : TrackValues) → Refines (Repository.upsert values d).1
  unfolding Repository.upsert insert_values
  upsert-Lifecycle values =
      let (t, found) = insert_track-found d.sequence values d.current.tracks in
      rw found (insert_track-Lifecycle i d.sequence values d.current.tracks)

  mark_storage_missing-Lifecycle :
      (now : ℕ) (ids : List ℕ) → Refines (mark_storage_missing now ids d).1
  unfolding mark_storage_missing
  mark_storage_missing-Lifecycle now [] = Lifecycle.stay _
  mark_storage_missing-Lifecycle now (k ∷ ids) =
      missing_table-Lifecycle i d.current.tracks now (k ∷ ids)

-- On a settled database every transaction of the download queue, and the INSERT of a track that nobody
-- requested, is for each track a move of its abstract life, or leaves its status as it is: a job is put
-- into the queue for a track that is new, that nobody requested, that failed or that was being
-- downloaded; a new track has such a job or nobody requested it; a download starts only from the queue,
-- READY follows only on a download and is left only to FAILED, and no track leaves the table.
pub Step-Lifecycle :
    (i m : ℕ) {d e : Db}
    → Step m d e
    → IsSettled m d
    → Lifecycle (status_at i d.current.tracks) (status_at i e.current.tracks)
unfolding set_task_id mark_enqueue_failed mark_queued_failed fail_queued_playback_disabled
    mark_ready mark_failed prepare_retry claim_download requeue_stale
Step-Lifecycle i m (Step.queue d now source source_id) h =
    queue_existing-Lifecycle i m d h now source source_id
Step-Lifecycle i m (Step.upsert d now values) h = upsert_and_queue-Lifecycle i m d h now values
Step-Lifecycle i m (Step.insert d values) h = upsert-Lifecycle i m d h values
Step-Lifecycle i m (Step.assign d j task) h = set_task_table-Lifecycle i d.current.tracks j task
Step-Lifecycle i m (Step.refuse d now j message) h =
    enqueue_failed_table-Lifecycle i d.current.tracks now j message
Step-Lifecycle i m (Step.cancel d now j code message) h =
    queued_failed_table-Lifecycle i d.current.tracks now j code message
Step-Lifecycle i m (Step.disable d now) h = playback_disabled_table-Lifecycle i d.current.tracks now
Step-Lifecycle i m (Step.claim d now j task lease) h =
    claim_table-Lifecycle i d.current.tracks now j task lease
Step-Lifecycle i m (Step.finish d now j task key url) h =
    ready_table-Lifecycle i d.current.tracks now j task key url
Step-Lifecycle i m (Step.fail d now j task code message) h =
    failed_table-Lifecycle i d.current.tracks now j task code message
Step-Lifecycle i m (Step.retry d now j) h = retry_table-Lifecycle i d.current.tracks now m j
Step-Lifecycle i m (Step.recover d now) h = requeue_stale-Lifecycle i now m d.current.tracks
Step-Lifecycle i m (Step.reconcile d now ids) h = mark_storage_missing-Lifecycle i m d h now ids
