-- ===== src/Tracks/Table.antt =====
-- Every statement of the repository keeps the table valid.
use fuze.Prelude.{
  [], ◌∷◌, suc, refl, arith, ℕ, ◌<◌, String, ◌≡◌, refl, Bool, true, false, List, arith, All,
  beq_comm, Bool-cases, inl, inr, nat_eq, string_eq,
}
use fuze.Database.Sql.{update_where, exists_row}
use fuze.Database.Sql.Laws.{All-update_where, Distinct, Distinct-update_where}
use fuze.Database.Sql.Insert.{All-append, Distinct-append}
use fuze.Tracks.Models.{Track, TrackSource, source_eq, status_eq}
use fuze.Tracks.Rows.{TrackValues, new_track, has_source, has_id}
use fuze.Tracks.Statements.{
  queue_table, set_task_table, enqueue_failed_table, queued_failed_table, playback_disabled_table,
  claim_table, ready_table, failed_table, retry_table, exhaust_table, requeue_table, missing_table,
  insert_track,
}
use fuze.Tracks.Invariant.{
  IsValidRow, new_track-IsValidRow, queue_row-IsValidRow, fail_row-IsValidRow, claim_row-IsValidRow,
  ready_row-IsValidRow, retry_row-IsValidRow, requeue_row-IsValidRow, missing_row-IsValidRow,
}

-- the two unique keys of the table
abbrev pub same_source : Track → Track → Bool
same_source a b = has_source a.source a.source_id b

abbrev pub same_id : Track → Track → Bool
same_id a b = has_id a.id b

-- The table as a whole.
pub record IsValid (max_attempts next : ℕ) (ts : List Track) : Type 0 where
  pub rows : All (IsValidRow max_attempts) ts
  pub sources : Distinct same_source ts
  pub ids : Distinct same_id ts
  -- every identifier was drawn from the sequence
  pub drawn : All (λ t. t.id < next) ts

-- An UPDATE that keeps each row valid and leaves the keys alone keeps the table valid.
update-IsValid :
    (m n : ℕ) (p : Track → Bool) (f : Track → Track)
    → ((t : Track) → IsValidRow m t → p t ≡ true → IsValidRow m (f t))
    → ((t : Track) → (f t).id ≡ t.id)
    → ((t : Track) → (f t).source ≡ t.source)
    → ((t : Track) → (f t).source_id ≡ t.source_id)
    → (ts : List Track) → IsValid m n ts
    → IsValid m n (update_where p f ts)
update-IsValid m n p f keep id source source_id ts h = record {
  rows = All-update_where (IsValidRow m) p f keep ts h.rows;
  sources =
      Distinct-update_where same_source p f (λ s r. rw (source r, source_id r))
        (λ s. rw (source s, source_id s)) ts h.sources;
  ids = Distinct-update_where same_id p f (λ s r. rw (id r)) (λ s. rw (id s)) ts h.ids;
  drawn = All-update_where (λ t. t.id < n) p f (λ t k e. rw (id t) k) ts h.drawn;
}

same_source_comm : (a b : Track) → same_source a b ≡ same_source b a
same_source_comm a b = rw (beq_comm a.source b.source, beq_comm a.source_id b.source_id)

same_id_comm : (a b : Track) → same_id a b ≡ same_id b a
same_id_comm a b = beq_comm b.id a.id

-- An identifier that was not drawn yet is in no row.
not-has_id : (n : ℕ) (ts : List Track) → All (λ t. t.id < n) ts → exists_row (has_id n) ts ≡ false
unfolding exists_row
not-has_id n [] h = refl
not-has_id n (t ∷ ts) h = ground (arith, not-has_id n ts h.1)

drawn-suc : (n : ℕ) (ts : List Track) → All (λ t. t.id < n) ts → All (λ t. t.id < suc n) ts
drawn-suc n [] h = tt
drawn-suc n (t ∷ ts) h = (omega arith, drawn-suc n ts h.1)

module _ (m n : ℕ) where
  pub insert_track-IsValid :
      (v : TrackValues) (ts : List Track) → IsValid m n ts → IsValid m (suc n) (insert_track n v ts)
  unfolding insert_track
  insert_track-IsValid v ts h =
      elim (Bool-cases (exists_row (has_source v.source v.source_id) ts)) [
        | inl old ↦ rw old (record {
          rows = h.rows;
          sources = h.sources;
          ids = h.ids;
          drawn = drawn-suc n ts h.drawn;
        })
        | inr new ↦ rw new (record {
          rows = All-append (IsValidRow m) ts (new_track n v) h.rows (new_track-IsValidRow m n v);
          sources = Distinct-append same_source ts (new_track n v) same_source_comm new h.sources;
          ids =
              Distinct-append same_id ts (new_track n v) same_id_comm (not-has_id n ts h.drawn)
                h.ids;
          drawn =
              All-append (λ t. t.id < suc n) ts (new_track n v) (drawn-suc n ts h.drawn)
                (omega arith);
        })
      ]

  module _ (ts : List Track) (h : IsValid m n ts) where
    pub queue_table-IsValid :
        (now : ℕ) (source : TrackSource) (source_id : String)
        → 0 < m
        → IsValid m n (queue_table m now source source_id ts)
    unfolding queue_table
    queue_table-IsValid now source source_id pos =
        update-IsValid m n _ _ (λ t k e. queue_row-IsValidRow m now t pos k (ground (arith, e)))
          (λ t. refl) (λ t. refl) (λ t. refl) ts h

    pub set_task_table-IsValid :
        (track_id : ℕ) (task : String) → IsValid m n (set_task_table track_id task ts)
    unfolding set_task_table
    set_task_table-IsValid track_id task =
        update-IsValid m n _ _ (λ t k e. ground arith) (λ t. refl) (λ t. refl) (λ t. refl) ts h

    pub enqueue_failed_table-IsValid :
        (now track_id : ℕ) (message : String)
        → IsValid m n (enqueue_failed_table now track_id message ts)
    unfolding enqueue_failed_table
    enqueue_failed_table-IsValid now track_id message =
        update-IsValid m n _ _ (λ t k e. ground arith) (λ t. refl) (λ t. refl) (λ t. refl) ts h

    pub queued_failed_table-IsValid :
        (now track_id : ℕ) (code message : String)
        → IsValid m n (queued_failed_table now track_id code message ts)
    unfolding queued_failed_table
    queued_failed_table-IsValid now track_id code message =
        update-IsValid m n _ _ (λ t k e. fail_row-IsValidRow m now _ _ t k (ground (arith, e)))
          (λ t. refl) (λ t. refl) (λ t. refl) ts h

    pub playback_disabled_table-IsValid : (now : ℕ) → IsValid m n (playback_disabled_table now ts)
    unfolding playback_disabled_table
    playback_disabled_table-IsValid now =
        update-IsValid m n _ _ (λ t k e. fail_row-IsValidRow m now _ _ t k (ground (arith, e)))
          (λ t. refl) (λ t. refl) (λ t. refl) ts h

    pub claim_table-IsValid :
        (now track_id : ℕ) (task : String) (lease : ℕ)
        → IsValid m n (claim_table now track_id task lease ts)
    unfolding claim_table
    claim_table-IsValid now track_id task lease =
        update-IsValid m n _ _ (λ t k e. claim_row-IsValidRow m now track_id lease task t k e)
          (λ t. refl) (λ t. refl) (λ t. refl) ts h

    pub ready_table-IsValid :
        (now track_id : ℕ) (task key url : String)
        → IsValid m n (ready_table now track_id task key url ts)
    unfolding ready_table
    ready_table-IsValid now track_id task key url =
        update-IsValid m n _ _ (λ t k e. ready_row-IsValidRow m now key url t k) (λ t. refl)
          (λ t. refl) (λ t. refl) ts h

    pub failed_table-IsValid :
        (now track_id : ℕ) (task code message : String)
        → IsValid m n (failed_table now track_id task code message ts)
    unfolding failed_table
    failed_table-IsValid now track_id task code message =
        update-IsValid m n _ _ (λ t k e. fail_row-IsValidRow m now _ _ t k (ground (arith, e)))
          (λ t. refl) (λ t. refl) (λ t. refl) ts h

    pub retry_table-IsValid : (now track_id : ℕ) → IsValid m n (retry_table now m track_id ts)
    unfolding retry_table
    retry_table-IsValid now track_id =
        update-IsValid m n _ _ (λ t k e. retry_row-IsValidRow m now track_id t k e) (λ t. refl)
          (λ t. refl) (λ t. refl) ts h

    pub exhaust_table-IsValid : (now : ℕ) → IsValid m n (exhaust_table now m ts)
    unfolding exhaust_table
    exhaust_table-IsValid now =
        update-IsValid m n _ _ (λ t k e. fail_row-IsValidRow m now _ _ t k (ground (arith, e)))
          (λ t. refl) (λ t. refl) (λ t. refl) ts h

    pub requeue_table-IsValid : (now : ℕ) → IsValid m n (requeue_table now m ts)
    unfolding requeue_table
    requeue_table-IsValid now =
        update-IsValid m n _ _ (λ t k e. requeue_row-IsValidRow m now t k e) (λ t. refl) (λ t. refl)
          (λ t. refl) ts h

    pub missing_table-IsValid : (now : ℕ) (ids : List ℕ) → IsValid m n (missing_table now ids ts)
    unfolding missing_table
    missing_table-IsValid now ids =
        update-IsValid m n _ _ (λ t k e. missing_row-IsValidRow m now t k) (λ t. refl) (λ t. refl)
          (λ t. refl) ts h
