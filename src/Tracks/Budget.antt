-- ===== src/Tracks/Budget.antt =====
-- The retry budget: between two requests of users for a track, no more downloads of it are started
-- than CELERY_TASK_MAX_RETRIES allows, whatever retries, recoveries and redeliveries do.
use mathlib.Core.Option
use fuze.Prelude.{
  ℕ, ◌+◌, ◌<◌, ◌≤◌, String, ◌≡◌, ◌≢◌, refl, ◌∙◌, ap, Bool, true, false, Option, none, some, List,
  [], ◌∷◌, arith, nat_eq, string_eq, Option-cases, Bool-cases, inl, inr,
}
use fuze.Core.Result.{Result, ok}
use fuze.Database.Tables.{Db}
use fuze.Database.Sql.{update_where}
use fuze.Database.Sql.Laws.{
  updated, kept_if, select_one-update_where, All-select_one, select_one_sound,
}
use fuze.Tracks.Models.{Track}
use fuze.Tracks.Rows.{has_id, claimable, claim_row}
use fuze.Tracks.Statements.{
  set_task_table, enqueue_failed_table, queued_failed_table, playback_disabled_table, ready_table,
  failed_table, retry_table, exhaust_table, requeue_table, missing_table, claim_table,
}
use fuze.Tracks.Invariant.{IsValidRow}
use fuze.Tracks.Steps.{IsSettled, Step, Step-IsSettled}
use fuze.Tracks.Repository.{
  set_task_id, mark_enqueue_failed, mark_queued_failed, fail_queued_playback_disabled,
  claim_download, claimed, mark_ready, mark_failed, prepare_retry, requeue_stale,
  mark_storage_missing,
}
use fuze.Tracks.ById.{row, row-claim_table, claim_download-result}

-- the attempts that the row of a track has used
abbrev pub attempts_of : Option Track → ℕ
attempts_of none = 0
attempts_of (some t) = t.download_attempts

abbrev pub attempts : ℕ → List Track → ℕ
attempts i ts = attempts_of (row i ts)

-- whether a call of `claim_download` got its row
abbrev pub claims : Result (Option Track) → ℕ
claims (ok (some t)) = 1
claims _ = 0

-- The transactions with no request of a user among them; the number counts the claims of track `i`
-- that succeeded.
pub data Run (m i : ℕ) (d : Db) : Db → ℕ → Type 0 where
  start : Run m i d d 0
  claim :
      {e : Db} {k : ℕ} (now : ℕ) (task : String) (lease : ℕ)
      → Run m i d e k
      → Run m i d
          (claim_download now i task lease e).1
          (k + claims (claim_download now i task lease e).0)
  claim_other :
      {e : Db} {k : ℕ} (now j : ℕ) (task : String) (lease : ℕ)
      → j ≢ i
      → Run m i d e k
      → Run m i d (claim_download now j task lease e).1 k
  assign :
      {e : Db} {k : ℕ} (track_id : ℕ) (task : String)
      → Run m i d e k
      → Run m i d (set_task_id track_id task e).1 k
  refuse :
      {e : Db} {k : ℕ} (now track_id : ℕ) (message : String)
      → Run m i d e k
      → Run m i d (mark_enqueue_failed now track_id message e).1 k
  cancel :
      {e : Db} {k : ℕ} (now track_id : ℕ) (code message : String)
      → Run m i d e k
      → Run m i d (mark_queued_failed now track_id code message e).1 k
  disable :
      {e : Db} {k : ℕ} (now : ℕ)
      → Run m i d e k
      → Run m i d (fail_queued_playback_disabled now e).1 k
  finish :
      {e : Db} {k : ℕ} (now track_id : ℕ) (task key url : String)
      → Run m i d e k
      → Run m i d (mark_ready now track_id task key url e).1 k
  fail :
      {e : Db} {k : ℕ} (now track_id : ℕ) (task code message : String)
      → Run m i d e k
      → Run m i d (mark_failed now track_id task code message e).1 k
  retry :
      {e : Db} {k : ℕ} (now track_id : ℕ)
      → Run m i d e k
      → Run m i d (prepare_retry now m track_id e).1 k
  recover : {e : Db} {k : ℕ} (now : ℕ) → Run m i d e k → Run m i d (requeue_stale now m e).1 k
  reconcile :
      {e : Db} {k : ℕ} (now : ℕ) (ids : List ℕ)
      → Run m i d e k
      → Run m i d (mark_storage_missing now ids e).1 k

-- An UPDATE that leaves the identifiers and the attempts alone.
attempts-update_where :
    (i : ℕ) (p : Track → Bool) (f : Track → Track)
    → ((t : Track) → (f t).id ≡ t.id)
    → ((t : Track) → (f t).download_attempts ≡ t.download_attempts)
    → (ts : List Track) → attempts i (update_where p f ts) ≡ attempts i ts
attempts-update_where i p f id same ts =
    ap attempts_of (select_one-update_where (has_id i) p f (λ t. rw (id t)) ts) ∙ kept (row i ts)
  where
    kept : (o : Option Track) → attempts_of (Option.map (updated p f) o) ≡ attempts_of o
    kept none = refl
    kept (some t) = elim (Bool-cases (p t)) [ inl e ↦ rw e (same t) | inr e ↦ rw e ]

module _ (i now : ℕ) (task : String) (lease : ℕ) where
  attempts-claimed :
      (o : Option Track)
      → attempts_of (Option.map (updated (claimable i task) (claim_row now task lease)) o)
        ≡ attempts_of o + claims (ok (claimed now task lease (kept_if (claimable i task) o)))
  unfolding claimed
  attempts-claimed none = omega arith
  attempts-claimed (some t) = ground arith

  -- a claim that succeeds uses one attempt
  attempts-claim :
      (m : ℕ) (d : Db)
      → IsSettled m d
      → attempts i (claim_download now i task lease d).1.current.tracks
        ≡ attempts i d.current.tracks + claims (claim_download now i task lease d).0
  attempts-claim m d h = rw (claim_download-result m d.sequence now i task lease d h.table) (
      unfold claim_download in
      ap attempts_of (row-claim_table i now i task lease d.current.tracks)
      ∙ attempts-claimed (row i d.current.tracks))

claimable-ne :
    (i j : ℕ) (task : String) (t : Track) → j ≢ i → has_id i t ≡ true → claimable j task t ≡ false
unfolding claimable
claimable-ne i j task t ne e = ground arith

attempts-claim_ne :
    (i now j : ℕ) (task : String) (lease : ℕ) (ts : List Track)
    → j ≢ i
    → attempts i (claim_table now j task lease ts) ≡ attempts i ts
attempts-claim_ne i now j task lease ts ne = elim (Option-cases (row i ts)) [
  | inl e ↦ rw (row-claim_table i now j task lease ts, e) refl
  | inr (t, e) ↦
      rw
        (
          row-claim_table i now j task lease ts,
          e,
          claimable-ne i j task t ne (select_one_sound (has_id i) ts t e),
        )
        refl
]

attempts-claim_other :
    (i now j : ℕ) (task : String) (lease : ℕ) (d : Db)
    → j ≢ i
    → attempts i (claim_download now j task lease d).1.current.tracks ≡ attempts i d.current.tracks
unfolding claim_download
attempts-claim_other i now j task lease d ne =
    attempts-claim_ne i now j task lease d.current.tracks ne

module _ (m i : ℕ) where
  attempts-two :
      (now : ℕ) (d : Db)
      → attempts i (requeue_stale now m d).1.current.tracks ≡ attempts i d.current.tracks
  unfolding requeue_stale requeue_table exhaust_table
  attempts-two now d =
      attempts-update_where i _ _ (λ t. refl) (λ t. refl) _
      ∙ attempts-update_where i _ _ (λ t. refl) (λ t. refl) d.current.tracks

  missing-attempts :
      (now : ℕ) (ids : List ℕ) (d : Db)
      → attempts i (mark_storage_missing now ids d).1.current.tracks ≡ attempts i d.current.tracks
  unfolding mark_storage_missing missing_table
  missing-attempts now [] d = refl
  missing-attempts now (k ∷ ids) d =
      attempts-update_where i _ _ (λ t. refl) (λ t. refl) d.current.tracks

module _ (m i : ℕ) (pos : 0 < m) (d : Db) (h : IsSettled m d) where
  Run-IsSettled : {e : Db} {k : ℕ} → Run m i d e k → IsSettled m e
  Run-IsSettled start = h
  Run-IsSettled (claim {e} now task lease r) =
      Step-IsSettled m pos (Step.claim e now i task lease) (Run-IsSettled r)
  Run-IsSettled (claim_other {e} now j task lease ne r) =
      Step-IsSettled m pos (Step.claim e now j task lease) (Run-IsSettled r)
  Run-IsSettled (assign {e} j task r) =
      Step-IsSettled m pos (Step.assign e j task) (Run-IsSettled r)
  Run-IsSettled (refuse {e} now j message r) =
      Step-IsSettled m pos (Step.refuse e now j message) (Run-IsSettled r)
  Run-IsSettled (cancel {e} now j code message r) =
      Step-IsSettled m pos (Step.cancel e now j code message) (Run-IsSettled r)
  Run-IsSettled (disable {e} now r) = Step-IsSettled m pos (Step.disable e now) (Run-IsSettled r)
  Run-IsSettled (finish {e} now j task key url r) =
      Step-IsSettled m pos (Step.finish e now j task key url) (Run-IsSettled r)
  Run-IsSettled (fail {e} now j task code message r) =
      Step-IsSettled m pos (Step.fail e now j task code message) (Run-IsSettled r)
  Run-IsSettled (retry {e} now j r) = Step-IsSettled m pos (Step.retry e now j) (Run-IsSettled r)
  Run-IsSettled (recover {e} now r) = Step-IsSettled m pos (Step.recover e now) (Run-IsSettled r)
  Run-IsSettled (reconcile {e} now ids r) =
      Step-IsSettled m pos (Step.reconcile e now ids) (Run-IsSettled r)

  -- the attempts count the claims
  Run-attempts :
      {e : Db} {k : ℕ}
      → Run m i d e k
      → attempts i e.current.tracks ≡ attempts i d.current.tracks + k
  unfolding set_task_id mark_enqueue_failed mark_queued_failed fail_queued_playback_disabled
      mark_ready mark_failed prepare_retry set_task_table enqueue_failed_table queued_failed_table
      playback_disabled_table ready_table failed_table retry_table
  Run-attempts start = omega arith
  Run-attempts (claim {e} now task lease r) =
      omega (arith, Run-attempts r, attempts-claim i now task lease m e (Run-IsSettled r))
  Run-attempts (claim_other {e} now j task lease ne r) =
      attempts-claim_other i now j task lease e ne ∙ Run-attempts r
  Run-attempts (assign {e} j task r) =
      attempts-update_where i _ _ (λ t. refl) (λ t. refl) e.current.tracks ∙ Run-attempts r
  Run-attempts (refuse {e} now j message r) =
      attempts-update_where i _ _ (λ t. refl) (λ t. refl) e.current.tracks ∙ Run-attempts r
  Run-attempts (cancel {e} now j code message r) =
      attempts-update_where i _ _ (λ t. refl) (λ t. refl) e.current.tracks ∙ Run-attempts r
  Run-attempts (disable {e} now r) =
      attempts-update_where i _ _ (λ t. refl) (λ t. refl) e.current.tracks ∙ Run-attempts r
  Run-attempts (finish {e} now j task key url r) =
      attempts-update_where i _ _ (λ t. refl) (λ t. refl) e.current.tracks ∙ Run-attempts r
  Run-attempts (fail {e} now j task code message r) =
      attempts-update_where i _ _ (λ t. refl) (λ t. refl) e.current.tracks ∙ Run-attempts r
  Run-attempts (retry {e} now j r) =
      attempts-update_where i _ _ (λ t. refl) (λ t. refl) e.current.tracks ∙ Run-attempts r
  Run-attempts (recover {e} now r) = attempts-two m i now e ∙ Run-attempts r
  Run-attempts (reconcile {e} now ids r) = missing-attempts m i now ids e ∙ Run-attempts r

  attempts-le : (e : Db) → IsSettled m e → attempts i e.current.tracks ≤ m
  attempts-le e v = elim (Option-cases (row i e.current.tracks)) [
    | inl none_found ↦ rw none_found (omega arith)
    | inr (t, found) ↦
        rw found
          ((All-select_one (IsValidRow m) (has_id i) e.current.tracks t v.table.rows found).spent)
  ]

  -- The attempts that were used and the claims that succeed since stay within the budget.
  pub Run-budget :
      {e : Db} {k : ℕ}
      → Run m i d e k
      → (attempts i e.current.tracks ≡ attempts i d.current.tracks + k)
        × (attempts i d.current.tracks + k ≤ m)
  Run-budget {e} r =
      (Run-attempts r, omega (arith, Run-attempts r, attempts-le e (Run-IsSettled r)))
