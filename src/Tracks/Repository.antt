-- ===== src/Tracks/Repository.antt =====
-- modules/tracks/repository.py: the methods of `TrackRepository`, each a transaction of its own.
use fuze.Prelude.{
  ◌++◌, ◌||◌, take, ℕ, String, Bool, true, false, not, Option, none, some, List, [], ◌∷◌, map,
  is_none, length, if◌then◌else◌, nat_eq,
}
use fuze.Prelude.Texts.{is_empty, join}
use fuze.Core.Errors.{Error}
use fuze.Database.Exec.{
  Exec, pure, gets, or_raise, raise_if, modify, commit, rollback, next_id, ◌>>=◌, ◌>>◌,
}
use fuze.Database.Sql.{update_where, select_where, select_one, exists_row}
use fuze.Tracks.Models.{Track, TrackSource, TrackDownloadStatus, source_eq, status_eq}
use fuze.Tracks.Rows.{
  TrackValues, has_status, has_id, has_source, new_track, should_enqueue, queue_row, claimable,
  claim_row, can_retry, is_stale,
}
use fuze.Tracks.Statements.{
  queue_table, set_task_table, enqueue_failed_table, queued_failed_table, playback_disabled_table,
  claim_table, ready_table, failed_table, retry_table, exhaust_table, requeue_table, missing_table,
  insert_track,
}

-- one UPDATE of `tracks`
abbrev pub on_tracks : (List Track → List Track) → Exec (Unit {0})
on_tracks f = modify (λ s. record s { tracks = f s.tracks })

unfoldable pub find_by_source : TrackSource → String → Exec (Option Track)
find_by_source source source_id = gets (λ s. select_one (has_source source source_id) s.tracks)

unfoldable pub find_by_id : ℕ → Exec (Option Track)
find_by_id track_id = gets (λ s. select_one (has_id track_id) s.tracks)

-- `or_` of the pairs' clauses
abbrev pub in_sources : List (TrackSource × String) → Track → Bool
in_sources [] t = false
in_sources ((source, source_id) ∷ keys) t =
    if has_source source source_id t then true else in_sources keys t

-- the dict of the rows found, as the list of its values; the key of each is in the row
unfoldable pub find_by_sources : List (TrackSource × String) → Exec (List Track)
find_by_sources keys = gets (λ s. select_where (in_sources keys) s.tracks)

-- `queue_existing` and the second half of `upsert_and_queue`, on the row that was found: the row
-- as it is after the commit, and whether a job must be enqueued.
unfoldable pub queue_found : ℕ → ℕ → TrackSource → String → Track → Exec (Track × Bool)
unfolding should_enqueue queue_row
queue_found max_attempts now source source_id track = do
  on_tracks (queue_table max_attempts now source source_id)
  commit
  pure (
    if should_enqueue track then queue_row max_attempts now track else track,
    should_enqueue track,
  )

unfoldable pub queue_or_rollback :
    ℕ → ℕ → TrackSource → String → Option Track → Exec (Option Track × Bool)
unfolding queue_found
queue_or_rollback max_attempts now source source_id none = do rollback; pure (none, false)
queue_or_rollback max_attempts now source source_id (some track) = do
  queued ← queue_found max_attempts now source source_id track
  pure (some queued.0, queued.1)

unfoldable pub queue_existing : ℕ → ℕ → TrackSource → String → Exec (Option Track × Bool)
unfolding queue_or_rollback find_by_source
queue_existing max_attempts now source source_id = do
  track ← find_by_source source source_id
  queue_or_rollback max_attempts now source source_id track

-- INSERT … ON CONFLICT DO NOTHING draws an identifier whether or not it inserts
unfoldable pub insert_values : TrackValues → Exec (Unit {0})
insert_values values = do id ← next_id; on_tracks (insert_track id values)

-- `title ILIKE q OR artist ILIKE q LIMIT limit`
unfoldable pub search_in_db : (String → String → Bool) → String → ℕ → Exec (List Track)
unfolding join
search_in_db ilike query limit =
    let q = join "%" (join query "%") in
    gets (λ s. take limit (select_where (λ t. ilike t.title q || ilike t.artist q) s.tracks))

-- the unique source is checked by the flush
unfoldable pub create : TrackValues → Exec Track
create values = do
  id ← next_id
  taken ← gets (λ s. exists_row (has_source values.source values.source_id) s.tracks)
  raise_if taken Error.integrity_error
  on_tracks (λ ts. ts ++ new_track id values ∷ [])
  commit
  pure (new_track id values)

unfoldable pub upsert : TrackValues → Exec Track
unfolding insert_values find_by_source
upsert values = do
  insert_values values
  commit
  track ← find_by_source values.source values.source_id
  or_raise track Error.runtime_error

-- the assignment that each keyword makes, or none for the value None
unfoldable pub assign_all : List (Option (Track → Track)) → Track → Track
assign_all [] t = t
assign_all (none ∷ values) t = assign_all values t
assign_all (some set ∷ values) t = assign_all values (set t)

unfoldable pub update : Track → List (Option (Track → Track)) → Exec Track
unfolding assign_all find_by_id
update track values = do
  on_tracks (update_where (has_id track.id) (assign_all values))
  commit
  row ← find_by_id track.id
  or_raise row Error.runtime_error

unfoldable pub upsert_and_queue : ℕ → ℕ → TrackValues → Exec (Track × Bool)
unfolding insert_values queue_found find_by_source
upsert_and_queue max_attempts now values = do
  insert_values values
  found ← find_by_source values.source values.source_id
  track ← or_raise found Error.runtime_error
  queue_found max_attempts now values.source values.source_id track

unfoldable pub set_task_id : ℕ → String → Exec (Unit {0})
set_task_id track_id task_id = do on_tracks (set_task_table track_id task_id); commit

unfoldable pub mark_enqueue_failed : ℕ → ℕ → String → Exec (Unit {0})
mark_enqueue_failed now track_id message = do
  on_tracks (enqueue_failed_table now track_id message)
  commit

unfoldable pub mark_queued_failed : ℕ → ℕ → String → String → Exec (Unit {0})
mark_queued_failed now track_id code message = do
  on_tracks (queued_failed_table now track_id code message)
  commit

unfoldable pub fail_queued_playback_disabled : ℕ → Exec ℕ
fail_queued_playback_disabled now = do
  queued ← gets (λ s. select_where (has_status TrackDownloadStatus.queued) s.tracks)
  on_tracks (playback_disabled_table now)
  commit
  pure (length queued)

-- RETURNING gives the row as it was written
unfoldable pub claimed : ℕ → String → ℕ → Option Track → Option Track
unfolding claim_row
claimed now task_id lease_seconds none = none
claimed now task_id lease_seconds (some t) = some (claim_row now task_id lease_seconds t)

unfoldable pub claim_download : ℕ → ℕ → String → ℕ → Exec (Option Track)
unfolding claimed
claim_download now track_id task_id lease_seconds = do
  row ← gets (λ s. select_one (claimable track_id task_id) s.tracks)
  on_tracks (claim_table now track_id task_id lease_seconds)
  commit
  pure (claimed now task_id lease_seconds row)

unfoldable pub mark_ready : ℕ → ℕ → String → String → String → Exec (Unit {0})
mark_ready now track_id task_id storage_key yt_url = do
  on_tracks (ready_table now track_id task_id storage_key yt_url)
  commit

unfoldable pub mark_failed : ℕ → ℕ → String → String → String → Exec (Unit {0})
mark_failed now track_id task_id code message = do
  on_tracks (failed_table now track_id task_id code message)
  commit

unfoldable pub prepare_retry : ℕ → ℕ → ℕ → Exec Bool
prepare_retry now max_attempts track_id = do
  row ← gets (λ s. select_one (can_retry max_attempts track_id) s.tracks)
  on_tracks (retry_table now max_attempts track_id)
  commit
  pure (not (is_none row))

abbrev pub ids : List Track → List ℕ
ids = map (λ t. t.id)

unfoldable pub requeue_stale : ℕ → ℕ → Exec (List ℕ)
requeue_stale now max_attempts = do
  on_tracks (exhaust_table now max_attempts)
  stale ← gets (λ s. select_where (is_stale now max_attempts) s.tracks)
  on_tracks (requeue_table now max_attempts)
  commit
  pure (ids stale)

-- the pairs of the dict, NULL and the empty key left out
unfoldable pub keys_of : List Track → List (ℕ × String)
keys_of [] = []
keys_of (t ∷ ts) =
    let rest = keys_of ts in
    elim t.storage_key [
      | none ↦ rest
      | some key ↦ if is_empty key then rest else (t.id, key) ∷ rest
    ]

unfoldable pub storage_keys : Exec (List (ℕ × String))
unfolding keys_of
storage_keys = gets (λ s. keys_of s.tracks)

unfoldable pub mark_storage_missing : ℕ → List ℕ → Exec (Unit {0})
mark_storage_missing now [] = pure tt
mark_storage_missing now (i ∷ is) = do on_tracks (missing_table now (i ∷ is)); commit
