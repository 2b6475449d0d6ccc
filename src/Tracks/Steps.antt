-- ===== src/Tracks/Steps.antt =====
-- The transactions on `tracks` as a step relation. API requests, workers, the retries of a task,
-- the beat's recovery and the reconciliation may interleave in any order, with any arguments: each
-- transaction is one step, since it locks the rows that it changes. An import of a playlist inserts
-- its tracks in one transaction, which is here a step for each of them; `create` and `update` have
-- no caller.
use fuze.Prelude.{
  string_eq, Bool-cases, beq_refl, ℕ, ◌<◌, String, ◌≡◌, refl, Option, none, some, List, [], ◌∷◌,
  arith, inl, inr,
}
use fuze.Database.Tables.{Db}
use fuze.Tracks.Models.{Track, TrackSource, source_eq}
use fuze.Tracks.Rows.{TrackValues, has_source, new_track}
use fuze.Tracks.Table
use fuze.Tracks.Table.{IsValid}
use fuze.Database.Sql.{select_one, exists_row}
use fuze.Database.Sql.Laws.{exists_row-eq}
use fuze.Database.Sql.Insert.{select_one-append}
use fuze.Tracks.Statements.{insert_track}
use fuze.Tracks.Repository
use fuze.Tracks.Repository.{
  queue_existing, upsert_and_queue, set_task_id, mark_enqueue_failed, mark_queued_failed,
  fail_queued_playback_disabled, claim_download, mark_ready, mark_failed, prepare_retry,
  requeue_stale, mark_storage_missing, queue_found, queue_or_rollback, insert_values,
}

-- Between two transactions there is nothing uncommitted, and the table is valid.
pub record IsSettled (max_attempts : ℕ) (d : Db) : Type 0 where
  pub table : IsValid max_attempts d.sequence d.current.tracks
  pub saved : d.committed ≡ d.current

pub data Step (m : ℕ) : Db → Db → Type 0 where
  queue :
      (d : Db) (now : ℕ) (source : TrackSource) (source_id : String)
      → Step m d (queue_existing m now source source_id d).1
  upsert : (d : Db) (now : ℕ) (values : TrackValues) → Step m d (upsert_and_queue m now values d).1
  -- the INSERT of a track that nobody requested, as an import does for each of its tracks
  insert : (d : Db) (values : TrackValues) → Step m d (Repository.upsert values d).1
  assign : (d : Db) (track_id : ℕ) (task : String) → Step m d (set_task_id track_id task d).1
  refuse :
      (d : Db) (now track_id : ℕ) (message : String)
      → Step m d (mark_enqueue_failed now track_id message d).1
  cancel :
      (d : Db) (now track_id : ℕ) (code message : String)
      → Step m d (mark_queued_failed now track_id code message d).1
  disable : (d : Db) (now : ℕ) → Step m d (fail_queued_playback_disabled now d).1
  claim :
      (d : Db) (now track_id : ℕ) (task : String) (lease : ℕ)
      → Step m d (claim_download now track_id task lease d).1
  finish :
      (d : Db) (now track_id : ℕ) (task key url : String)
      → Step m d (mark_ready now track_id task key url d).1
  fail :
      (d : Db) (now track_id : ℕ) (task code message : String)
      → Step m d (mark_failed now track_id task code message d).1
  retry : (d : Db) (now track_id : ℕ) → Step m d (prepare_retry now m track_id d).1
  recover : (d : Db) (now : ℕ) → Step m d (requeue_stale now m d).1
  reconcile : (d : Db) (now : ℕ) (ids : List ℕ) → Step m d (mark_storage_missing now ids d).1

pub data Reach (m : ℕ) (d : Db) : Db → Type 0 where
  here : Reach m d d
  next : {e f : Db} → Reach m d e → Step m e f → Reach m d f

-- `scalar_one` finds the row that was there or was inserted, so an upsert never raises.
pub insert_track-found :
    (id : ℕ) (v : TrackValues) (ts : List Track)
    → (t : Track) × (select_one (has_source v.source v.source_id) (insert_track id v ts) ≡ some t)
unfolding insert_track
insert_track-found id v ts = elim (Bool-cases (exists_row (has_source v.source v.source_id) ts)) [
  | inl old ↦ rw old (ground (arith, exists_row-eq (has_source v.source v.source_id) ts))
  | inr new ↦ (
    new_track id v,
    rw new (
        select_one-append _ ts (new_track id v) new
          (ground (arith, beq_refl v.source, beq_refl v.source_id))),
  )
]

module _ (m : ℕ) (pos : 0 < m) where
  queue_found-IsSettled :
      (d : Db) (now : ℕ) (source : TrackSource) (source_id : String) (t : Track)
      → IsValid m d.sequence d.current.tracks
      → IsSettled m (queue_found m now source source_id t d).1
  unfolding queue_found
  queue_found-IsSettled d now source source_id t h = record {
    table = Table.queue_table-IsValid m d.sequence d.current.tracks h now source source_id pos;
    saved = refl;
  }

module _ (m : ℕ) (pos : 0 < m) (d : Db) (h : IsSettled m d) where
  queue_or_rollback-IsSettled :
      (now : ℕ) (source : TrackSource) (source_id : String) (found : Option Track)
      → IsSettled m (queue_or_rollback m now source source_id found d).1
  unfolding queue_or_rollback
  queue_or_rollback-IsSettled now source source_id none = record {
    table = rw h.saved h.table;
    saved = refl;
  }
  queue_or_rollback-IsSettled now source source_id (some t) =
      queue_found-IsSettled m pos d now source source_id t h.table

  queue_existing-IsSettled :
      (now : ℕ) (source : TrackSource) (source_id : String)
      → IsSettled m (queue_existing m now source source_id d).1
  unfolding queue_existing
  queue_existing-IsSettled now source source_id =
      queue_or_rollback-IsSettled now source source_id
        (select_one (has_source source source_id) d.current.tracks)

  claim_download-IsSettled :
      (now track_id : ℕ) (task : String) (lease : ℕ)
      → IsSettled m (claim_download now track_id task lease d).1
  unfolding claim_download
  claim_download-IsSettled now track_id task lease = record {
    table = Table.claim_table-IsValid m d.sequence d.current.tracks h.table now track_id task lease;
    saved = refl;
  }

  requeue_stale-IsSettled : (now : ℕ) → IsSettled m (requeue_stale now m d).1
  unfolding requeue_stale
  requeue_stale-IsSettled now = record {
    table =
        Table.requeue_table-IsValid m d.sequence _
          (Table.exhaust_table-IsValid m d.sequence d.current.tracks h.table now) now;
    saved = refl;
  }

  upsert_and_queue-IsSettled :
      (now : ℕ) (values : TrackValues) → IsSettled m (upsert_and_queue m now values d).1
  unfolding upsert_and_queue insert_values
  upsert_and_queue-IsSettled now values =
      let (t, found) = insert_track-found d.sequence values d.current.tracks in
      rw found (
        queue_found-IsSettled m pos (insert_values values d).1 now values.source values.source_id t
          (Table.insert_track-IsValid m d.sequence values d.current.tracks h.table))

  upsert-IsSettled : (values : TrackValues) → IsSettled m (Repository.upsert values d).1
  unfolding Repository.upsert insert_values
  upsert-IsSettled values =
      let (t, found) = insert_track-found d.sequence values d.current.tracks in
      rw found (record {
        table = Table.insert_track-IsValid m d.sequence values d.current.tracks h.table;
        saved = refl;
      })

  mark_storage_missing-IsSettled :
      (now : ℕ) (ids : List ℕ) → IsSettled m (mark_storage_missing now ids d).1
  unfolding mark_storage_missing
  mark_storage_missing-IsSettled now [] = h
  mark_storage_missing-IsSettled now (i ∷ is) = record {
    table = Table.missing_table-IsValid m d.sequence d.current.tracks h.table now (i ∷ is);
    saved = refl;
  }

-- Every step leaves the table valid and nothing uncommitted.
pub Step-IsSettled : (m : ℕ) → 0 < m → {d e : Db} → Step m d e → IsSettled m d → IsSettled m e
unfolding set_task_id mark_enqueue_failed mark_queued_failed fail_queued_playback_disabled
    mark_ready mark_failed prepare_retry
Step-IsSettled m pos (queue d now source source_id) h =
    queue_existing-IsSettled m pos d h now source source_id
Step-IsSettled m pos (upsert d now values) h = upsert_and_queue-IsSettled m pos d h now values
Step-IsSettled m pos (insert d values) h = upsert-IsSettled m pos d h values
Step-IsSettled m pos (assign d track_id task) h = record {
  table = Table.set_task_table-IsValid m d.sequence d.current.tracks h.table track_id task;
  saved = refl;
}
Step-IsSettled m pos (refuse d now track_id message) h = record {
  table =
      Table.enqueue_failed_table-IsValid m d.sequence d.current.tracks h.table now track_id message;
  saved = refl;
}
Step-IsSettled m pos (cancel d now track_id code message) h = record {
  table =
      Table.queued_failed_table-IsValid m d.sequence d.current.tracks h.table now track_id code
        message;
  saved = refl;
}
Step-IsSettled m pos (disable d now) h = record {
  table = Table.playback_disabled_table-IsValid m d.sequence d.current.tracks h.table now;
  saved = refl;
}
Step-IsSettled m pos (claim d now track_id task lease) h =
    claim_download-IsSettled m pos d h now track_id task lease
Step-IsSettled m pos (finish d now track_id task key url) h = record {
  table = Table.ready_table-IsValid m d.sequence d.current.tracks h.table now track_id task key url;
  saved = refl;
}
Step-IsSettled m pos (fail d now track_id task code message) h = record {
  table =
      Table.failed_table-IsValid m d.sequence d.current.tracks h.table now track_id task code
        message;
  saved = refl;
}
Step-IsSettled m pos (retry d now track_id) h = record {
  table = Table.retry_table-IsValid m d.sequence d.current.tracks h.table now track_id;
  saved = refl;
}
Step-IsSettled m pos (recover d now) h = requeue_stale-IsSettled m pos d h now
Step-IsSettled m pos (reconcile d now ids) h = mark_storage_missing-IsSettled m pos d h now ids

-- Whatever the interleaving of the transactions and of INSERTs of tracks that nobody requested, a
-- reachable table is valid and nothing is left uncommitted. The limit of attempts must be positive.
pub Reach-IsSettled : (m : ℕ) → 0 < m → {d e : Db} → IsSettled m d → Reach m d e → IsSettled m e
Reach-IsSettled m pos h here = h
Reach-IsSettled m pos h (next r s) = Step-IsSettled m pos s (Reach-IsSettled m pos h r)
