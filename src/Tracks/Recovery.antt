-- ===== src/Tracks/Recovery.antt =====
-- `requeue_stale`, which the beat runs once a minute: what it does to each row, and that it leaves
-- nothing stale behind.
use mathlib.Core.Option
use fuze.Prelude.{
  ℕ, ◌≡◌, refl, ◌∙◌, ap, Bool, true, false, ◌&&◌, Option, none, some, List, [], ◌∷◌, All, arith,
  ltb, nat_eq, if◌then◌else◌,
}
use fuze.Core.Result.{ok}
use fuze.Database.Tables.{Db}
use fuze.Database.Sql.{select_one, select_where, exists_row}
use fuze.Database.Sql.Laws.{
  updated, select_one-update_where, All-updated, All-select_one, select_one_sound, exists_row-eq,
  kept_if,
}
use fuze.Tracks.Models.{Track, TrackDownloadStatus, status_eq}
use fuze.Tracks.Rows.{
  has_id, is_before, lease_expired, is_older, request_forgotten, is_exhausted, is_stale,
  requeue_row, fail_row, contains_id,
}
use fuze.Tracks.Statements.{exhaust_table, requeue_table}
use fuze.Tracks.Invariant.{IsValidRow}
use fuze.Tracks.Table.{exhaust_table-IsValid}
use fuze.Tracks.Steps.{IsSettled}
use fuze.Tracks.Repository.{requeue_stale, ids}
use fuze.Tracks.ById.{row, select_one-by_id}

-- what one run of the recovery at `now` means for a row
pub data Fate : Type 0 where
  untouched requeued exhausted : Fate

abbrev pub downloading_fate : Bool → Bool → Fate
downloading_fate false left = Fate.untouched
downloading_fate true true = Fate.requeued
downloading_fate true false = Fate.exhausted

abbrev pub queued_fate : Bool → Fate
queued_fate true = Fate.requeued
queued_fate false = Fate.untouched

abbrev pub status_fate : ℕ → ℕ → Track → TrackDownloadStatus → Fate
status_fate now m t TrackDownloadStatus.downloading =
    downloading_fate (is_before t.download_lease_expires_at now) (ltb t.download_attempts m)
status_fate now m t TrackDownloadStatus.queued =
    queued_fate (is_older 300 t.download_requested_at now)
status_fate now m t _ = Fate.untouched

abbrev pub time_out : ℕ → Track → Track
time_out now =
    fail_row now "max_attempts_exhausted" "Download attempts exhausted after worker timeout"

abbrev pub meet : ℕ → Track → Fate → Track
meet now t Fate.untouched = t
meet now t Fate.requeued = requeue_row now t
meet now t Fate.exhausted = time_out now t

abbrev step : ℕ → ℕ → Track → Track
step now m t =
    updated (is_stale now m) (requeue_row now) (updated (is_exhausted now m) (time_out now) t)

step-meet :
    (now m : ℕ) (t : Track)
    → IsValidRow m t
    → step now m t ≡ meet now t (status_fate now m t t.download_status)
unfolding is_stale is_exhausted requeue_row fail_row
step-meet now m t h = ground arith

map-map :
    (f g : Track → Track) (o : Option Track)
    → Option.map f (Option.map g o) ≡ Option.map (λ t. f (g t)) o
map-map f g none = refl
map-map f g (some t) = refl

-- the identifiers that RETURNING lists are those of the rows that the WHERE clause takes
contains_id-select_where :
    (i : ℕ) (p : Track → Bool) (ts : List Track)
    → contains_id (ids (select_where p ts)) i ≡ exists_row (λ t. has_id i t && p t) ts
unfolding contains_id select_where exists_row
contains_id-select_where i p [] = refl
contains_id-select_where i p (t ∷ ts) = ground (arith, contains_id-select_where i p ts)

abbrev pub is_requeued : Fate → Bool
is_requeued Fate.requeued = true
is_requeued _ = false

module _ (m now : ℕ) (d : Db) (h : IsSettled m d) where
  row-two_updates :
      (i : ℕ)
      → row i (requeue_stale now m d).1.current.tracks
        ≡ Option.map (step now m) (row i d.current.tracks)
  unfolding requeue_stale exhaust_table requeue_table
  row-two_updates i =
      select_one-update_where (has_id i) (is_stale now m) (requeue_row now) (λ t. refl) _
      ∙ ap (Option.map (updated (is_stale now m) (requeue_row now)))
          (select_one-update_where (has_id i) (is_exhausted now m) _ (λ t. refl) d.current.tracks)
      ∙ map-map _ _ (row i d.current.tracks)

  -- The run meets every row with its fate.
  pub requeue_stale-row :
      (i : ℕ) (t : Track)
      → row i d.current.tracks ≡ some t
      → row i (requeue_stale now m d).1.current.tracks
        ≡ some (meet now t (status_fate now m t t.download_status))
  requeue_stale-row i t e =
      rw (row-two_updates i, e)
        (ap some (
          step-meet now m t
            (All-select_one (IsValidRow m) (has_id i) d.current.tracks t h.table.rows e)))

  step-fresh :
      (t : Track)
      → IsValidRow m t
      → (lease_expired now (step now m t) ≡ false) × (request_forgotten now (step now m t) ≡ false)
  unfolding is_stale is_exhausted requeue_row fail_row
  step-fresh t v = ground arith

  -- After the run no lease has expired and no queued job is forgotten.
  pub requeue_stale_complete :
      All
        (λ t. (lease_expired now t ≡ false) × (request_forgotten now t ≡ false))
        (requeue_stale now m d).1.current.tracks
  unfolding requeue_stale exhaust_table requeue_table
  requeue_stale_complete =
      All-updated
        (λ t. (u : Track) × IsValidRow m u × (t ≡ updated (is_exhausted now m) (time_out now) u)) _
        (is_stale now m) (requeue_row now) (λ t (u, v, e). rw e (step-fresh u v)) _
        (All-updated (IsValidRow m) _ (is_exhausted now m) _ (λ u v. (u, v, refl)) d.current.tracks
          h.table.rows)

  stale_after :
      (t : Track)
      → IsValidRow m t
      → is_stale now m (updated (is_exhausted now m) (time_out now) t)
        ≡ is_requeued (status_fate now m t t.download_status)
  unfolding is_stale is_exhausted fail_row
  stale_after t v = ground arith

  row-exhausted :
      (i : ℕ) (t : Track)
      → row i d.current.tracks ≡ some t
      → row i (exhaust_table now m d.current.tracks)
        ≡ some (updated (is_exhausted now m) (time_out now) t)
  unfolding exhaust_table
  row-exhausted i t e =
      select_one-update_where (has_id i) (is_exhausted now m) (time_out now) (λ t. refl)
        d.current.tracks
      ∙ rw e

  keyed_stale :
      (i : ℕ) (t : Track)
      → has_id i t ≡ true
      → kept_if (λ u. has_id i u && is_stale now m u) (some t)
        ≡ (if is_stale now m t then some t else none)
  keyed_stale i t e = ground (arith, e)

  -- The job of a row is enqueued again exactly when its fate is to be requeued.
  requeue_stale-ids :
      (i : ℕ) (t : Track) (queued : List ℕ)
      → row i d.current.tracks ≡ some t
      → (requeue_stale now m d).0 ≡ ok queued
      → contains_id queued i ≡ is_requeued (status_fate now m t t.download_status)
  unfolding requeue_stale
  requeue_stale-ids i t queued e r =
      let after = exhaust_table now m d.current.tracks in
      let t' = updated (is_exhausted now m) (time_out now) t in
      let listed : queued ≡ ids (select_where (is_stale now m) after) = ground (arith, r) in
      let found : row i after ≡ some t' = row-exhausted i t e in
      let keyed : select_one (λ u. has_id i u && is_stale now m u) after
          ≡ (if is_stale now m t' then some t' else none) =
        select_one-by_id i (λ u. has_id i u && is_stale now m u) after (λ u k. ground (arith, k))
          (exhaust_table-IsValid m d.sequence d.current.tracks h.table now).ids
        ∙ ap (kept_if (λ u. has_id i u && is_stale now m u)) found
        ∙ keyed_stale i t' (select_one_sound (has_id i) after t' found) in
      rw
        (
          listed,
          contains_id-select_where i (is_stale now m) after,
          exists_row-eq (λ u. has_id i u && is_stale now m u) after,
          keyed,
        )
        (ground (
          arith,
          stale_after t
              (All-select_one (IsValidRow m) (has_id i) d.current.tracks t h.table.rows e),
        ))
