-- ===== src/Tracks/Reconcile/Agreement.antt =====
-- A reconciliation that succeeds brings the table and the object store into agreement.
use fuze.Prelude.{
  ℕ, String, Bool, true, false, List, [], ◌∷◌, ◌≡◌, refl, ◌∙◌, sym, ap, arith, All, not, ◌&&◌, ◌==◌,
  string_eq, inl, inr, length, if◌then◌else◌,
}
use fuze.Prelude.Sets.{contains, unique, contains-unique, contains-minus, All-contains}
use fuze.Core.Result.{Result, ok, err}
use fuze.Database.Tables.{Db}
use fuze.Integrations.Storage.{S3, Reply, Reply-cases, list_object_keys, ensure_bucket}
use fuze.Tracks.Models.{Track}
use fuze.Tracks.Repository.{keys_of, storage_keys, mark_storage_missing}
use fuze.Tracks.Statements.{missing_table}
use fuze.Tracks.Reconcile.{
  Report, missing_keys, orphan_keys, missing_ids, delete_all, delete_if, repair_if, after_delete,
  after_repair, reconcile_objects, reconcile_listed, reconcile_bucket, reconcile,
}
use fuze.Tracks.Reconcile.Laws.{
  is_stored, table_keys, All-is_stored_both, missing_table-is_stored, mark_storage_missing_lem,
}

after_repair_lem :
    {S : Type 0} (s3 : S3 S) (delete_orphans : Bool) (orphans : List String) (report : Report)
    (s : S) (out : Result (Unit {0}) × Db)
    → out.0 ≡ ok tt
    → after_repair s3 delete_orphans orphans report s out
      ≡ after_delete s3 report out.1 (delete_if s3 delete_orphans orphans s)
unfolding after_repair
after_repair_lem s3 delete_orphans orphans report s (ok _, d) good = refl
after_repair_lem s3 delete_orphans orphans report s (err e, d) good = absurd (cc)

after_delete_lem :
    {S : Type 0} (s3 : S3 S) (report r : Report) (d : Db) (out : Reply (Unit {0}) × S)
    → (after_delete s3 report d out).0 ≡ ok r
    → (out.0 ≡ Reply.reply tt) × (after_delete s3 report d out ≡ (ok report, d, out.1))
unfolding after_delete
after_delete_lem s3 report r d (Reply.reply _, s) won = (refl, refl)
after_delete_lem s3 report r d (Reply.client_error e, s) won = absurd (cc)
after_delete_lem s3 report r d (Reply.raised, s) won = absurd (cc)

module _ {S : Type 0} (s3 : S3 S) (keys : S → List String)
    (lists : (s : S) (ks : List String)
      → s3.list_keys s ≡ Reply.reply ks
      → (k : String) → contains k ks ≡ contains k (keys s))
    (deletes : (key : String) (s : S)
      → (s3.delete_object key s).0 ≡ Reply.reply tt
      → (k : String)
      → contains k (keys (s3.delete_object key s).1)
        ≡ (contains k (keys s) && not (key == k))) where
  deleted_one :
      (key : String) (orphans : List String) (s : S)
      → (delete_all s3 (key ∷ orphans) s).0 ≡ Reply.reply tt
      → ((s3.delete_object key s).0 ≡ Reply.reply tt)
        × (delete_all s3 (key ∷ orphans) s ≡ delete_all s3 orphans (s3.delete_object key s).1)
  unfolding delete_all
  deleted_one key orphans s won = elim (Reply-cases (s3.delete_object key s).0) [
    | inl (a, good) ↦ (good, rw (good, delete_all) refl)
    | inr (inl bad) ↦ absurd (ground (arith, bad, won))
    | inr (inr (e, bad)) ↦ absurd (ground (arith, bad, won))
  ]

  delete_all_lem :
      (orphans : List String) (s : S)
      → (delete_all s3 orphans s).0 ≡ Reply.reply tt
      → (k : String)
      → contains k (keys (delete_all s3 orphans s).1)
        ≡ (contains k (keys s) && not (contains k orphans))
  unfolding delete_all contains
  delete_all_lem [] s won k = ground arith
  delete_all_lem (key ∷ orphans) s won k =
      let (gone, same) = deleted_one key orphans s won in
      rw same (
        ground (
          arith,
          deletes key s gone k,
          delete_all_lem orphans (s3.delete_object key s).1 (ap (λ r. r.0) (sym same) ∙ won) k,
        ))

  delete_if_lem :
      (delete_orphans : Bool) (orphans : List String) (s : S)
      → (delete_if s3 delete_orphans orphans s).0 ≡ Reply.reply tt
      → (k : String)
      → contains k (keys (delete_if s3 delete_orphans orphans s).1)
        ≡ (contains k (keys s) && not (delete_orphans && contains k orphans))
  unfolding delete_if
  delete_if_lem true orphans s won k = delete_all_lem orphans s won k
  delete_if_lem false orphans s won k = ground arith

  -- the keys of the table, where not empty, name objects of the store, and where orphans were deleted
  -- the objects have keys that the table held
  abbrev pub Agrees : Bool → List Track → Result Report × Db × S → Type 0
  Agrees delete_orphans ts out =
      All (λ t. is_stored (keys out.2) t ≡ true) out.1.current.tracks
      × All (λ k. contains k (table_keys ts) ≡ true) (if delete_orphans then keys out.2 else [])

  kept_keys :
      (chosen : Bool) (ts : List Track) (ks : List String)
      → (chosen ≡ true → (k : String) → contains k ks ≡ true → contains k (table_keys ts) ≡ true)
      → All (λ k. contains k (table_keys ts) ≡ true) (if chosen then ks else [])
  kept_keys true ts ks h = All-contains _ ks (h refl)
  kept_keys false ts ks h = tt

  -- the store and the table after the repair and the deletions
  agreed_objects :
      (now : ℕ) (delete_orphans : Bool) (objects : List String) (s : S) (d : Db) (r : Report)
      → ((k : String) → contains k objects ≡ contains k (keys s))
      → let out =
          reconcile_objects s3 now delete_orphans true (keys_of d.current.tracks) objects s d in
        out.0 ≡ ok r → Agrees delete_orphans d.current.tracks out
  unfolding reconcile_objects repair_if orphan_keys
  agreed_objects now delete_orphans objects s d r same won =
      let ts = d.current.tracks in
      let missing = missing_keys (keys_of ts) objects in
      let orphans = orphan_keys (keys_of ts) objects in
      let ids = missing_ids missing (keys_of ts) in
      let report : Report = (length missing, length orphans) in
      let marked = mark_storage_missing now ids d in
      let removed = delete_if s3 delete_orphans orphans s in
      let (done, repaired) = mark_storage_missing_lem now ids d in
      let step = after_repair_lem s3 delete_orphans orphans report s marked done in
      let (good, end) =
        after_delete_lem s3 report r marked.1 removed (ap (λ o. o.0) (sym step) ∙ won) in
      let (listed, named) = missing_table-is_stored now objects ts in
      let held = delete_if_lem delete_orphans orphans s good in
      let orphan = λ (k : String). contains-minus k objects (unique (table_keys ts)) in
      rw (step ∙ end) (
        rw repaired (
            All-is_stored_both objects (table_keys ts) (keys removed.1)
              (λ k a b.
                held k ∙ ground (arith, same k, orphan k, contains-unique k (table_keys ts), a, b))
              (missing_table now ids ts) listed named),
        kept_keys delete_orphans ts (keys removed.1) λ chosen k there.
            ground
              (arith, held k, same k, orphan k, contains-unique k (table_keys ts), chosen, there),
      )

  -- the listing, as a set, has the keys of the store
  read :
      (s : S) (objects : List String)
      → list_object_keys s3 s ≡ Reply.reply objects
      → (k : String) → contains k objects ≡ contains k (keys s)
  unfolding list_object_keys
  read s objects listed k = elim (Reply-cases (s3.list_keys s)) [
    | inl (ks, good) ↦
        let same : unique ks ≡ objects = ground (arith, good, listed) in
        rw (← same) (contains-unique k ks ∙ lists s ks good k)
    | inr (inl bad) ↦ absurd (ground (arith, bad, listed))
    | inr (inr (e, bad)) ↦ absurd (ground (arith, bad, listed))
  ]

  agreed_listed :
      (now : ℕ) (delete_orphans : Bool) (s : S) (d : Db) (r : Report)
      (listing : Reply (List String))
      → list_object_keys s3 s ≡ listing
      → let out = reconcile_listed s3 now delete_orphans true (storage_keys d) listing s in
        out.0 ≡ ok r → Agrees delete_orphans d.current.tracks out
  unfolding reconcile_listed storage_keys
  agreed_listed now delete_orphans s d r (Reply.reply objects) listed won =
      agreed_objects now delete_orphans objects s d r (read s objects listed) won
  agreed_listed now delete_orphans s d r (Reply.client_error e) listed won = absurd (cc)
  agreed_listed now delete_orphans s d r Reply.raised listed won = absurd (cc)

  agreed_bucket :
      (now : ℕ) (delete_orphans : Bool) (d : Db) (r : Report) (bucket : Reply (Unit {0}) × Bool × S)
      → let out = reconcile_bucket s3 now delete_orphans true bucket d in
        out.0 ≡ ok r → Agrees delete_orphans d.current.tracks out
  unfolding reconcile_bucket
  agreed_bucket now delete_orphans d r (Reply.reply _, ready, s) won =
      agreed_listed now delete_orphans s d r (list_object_keys s3 s) refl won
  agreed_bucket now delete_orphans d r (Reply.client_error e, ready, s) won = absurd (cc)
  agreed_bucket now delete_orphans d r (Reply.raised, ready, s) won = absurd (cc)

  -- A reconciliation that repairs and succeeds leaves a table whose keys, where not empty, all name
  -- objects of the store, also where it deletes orphans; where it deletes them, every object that
  -- is left has a key that the table held when it was read. The listing and the deletions are those
  -- of a store of keys.
  pub reconcile_lem :
      (now : ℕ) (bucket_ready delete_orphans : Bool) (s : S) (d : Db) (r : Report)
      → let out = reconcile s3 now bucket_ready delete_orphans true s d in
        out.0 ≡ ok r → Agrees delete_orphans d.current.tracks out
  unfolding reconcile
  reconcile_lem now bucket_ready delete_orphans s d r won =
      agreed_bucket now delete_orphans d r (ensure_bucket s3 bucket_ready s) won
