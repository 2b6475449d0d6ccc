-- ===== src/Tracks/Reconcile.antt =====
-- worker/tasks.py: `_reconcile`, the comparison of the table with the object store.
pub mod Laws
pub mod Agreement
use fuze.Prelude.{ℕ, String, Bool, List, [], ◌∷◌, length, string_eq, if◌then◌else◌}
use fuze.Prelude.Sets.{contains, unique, minus}
use fuze.Core.Errors.{Error}
use fuze.Core.Result.{Result, ok, err}
use fuze.Database.Tables.{Db}
use fuze.Integrations.Storage.{S3, Reply, ensure_bucket, list_object_keys, delete_object}
use fuze.Tracks.Repository.{storage_keys, mark_storage_missing}

-- `database_keys.values()`
abbrev pub values : List (ℕ × String) → List String
values [] = []
values ((track_id, key) ∷ keys) = key ∷ values keys

abbrev pub Report : Type 0
Report = ℕ × ℕ

unfoldable pub missing_keys : List (ℕ × String) → List String → List String
unfolding unique minus
missing_keys database_keys object_keys = minus (unique (values database_keys)) object_keys

unfoldable pub orphan_keys : List (ℕ × String) → List String → List String
unfolding unique minus
orphan_keys database_keys object_keys = minus object_keys (unique (values database_keys))

-- the identifiers whose key is in `missing`
unfoldable pub missing_ids : List String → List (ℕ × String) → List ℕ
unfolding contains
missing_ids missing [] = []
missing_ids missing ((track_id, key) ∷ keys) =
    let rest = missing_ids missing keys in if contains key missing then track_id ∷ rest else rest

module _ {S : Type 0} (s3 : S3 S) where
  -- the loop over the orphans, which ends with the first deletion that raises
  unfoldable pub delete_all : List String → S → Reply (Unit {0}) × S
  unfolding delete_object
  delete_all [] s = (Reply.reply tt, s)
  delete_all (key ∷ keys) s =
      let (r, s') = delete_object s3 key s in
      elim r [
        | Reply.reply _ ↦ delete_all keys s'
        | Reply.client_error e ↦ (Reply.client_error e, s')
        | Reply.raised ↦ (Reply.raised, s')
      ]

  unfoldable pub delete_if : Bool → List String → S → Reply (Unit {0}) × S
  unfolding delete_all
  delete_if delete_orphans keys s =
      if delete_orphans then delete_all keys s else (Reply.reply tt, s)

  unfoldable pub repair_if : ℕ → Bool → List ℕ → Db → Result (Unit {0}) × Db
  unfolding mark_storage_missing
  repair_if now repair_missing ids d =
      if repair_missing then mark_storage_missing now ids d else (ok tt, d)

  unfoldable pub after_delete : Report → Db → Reply (Unit {0}) × S → Result Report × Db × S
  after_delete report d (Reply.reply _, s) = (ok report, d, s)
  after_delete report d (_, s) = (err Error.runtime_error, d, s)

  unfoldable pub after_repair :
      Bool → List String → Report → S → Result (Unit {0}) × Db → Result Report × Db × S
  unfolding after_delete delete_if
  after_repair delete_orphans orphans report s (ok _, d) =
      after_delete report d (delete_if delete_orphans orphans s)
  after_repair delete_orphans orphans report s (err e, d) = (err e, d, s)

  unfoldable pub reconcile_objects :
      ℕ → Bool → Bool → List (ℕ × String) → List String → S → Db → Result Report × Db × S
  unfolding missing_keys orphan_keys missing_ids repair_if after_repair
  reconcile_objects now delete_orphans repair_missing database_keys object_keys s d =
      let missing = missing_keys database_keys object_keys in
      let orphans = orphan_keys database_keys object_keys in
      after_repair delete_orphans orphans (length missing, length orphans) s
        (repair_if now repair_missing (missing_ids missing database_keys) d)

  unfoldable pub reconcile_listed :
      ℕ
      → Bool
      → Bool
      → Result (List (ℕ × String)) × Db
      → Reply (List String)
      → S
      → Result Report × Db × S
  unfolding reconcile_objects
  reconcile_listed now delete_orphans repair_missing (ok database_keys, d) (Reply.reply object_keys)
        s =
      reconcile_objects now delete_orphans repair_missing database_keys object_keys s d
  reconcile_listed now delete_orphans repair_missing (ok _, d) _ s = (err Error.runtime_error, d, s)
  reconcile_listed now delete_orphans repair_missing (err e, d) _ s = (err e, d, s)

  unfoldable pub reconcile_bucket :
      ℕ → Bool → Bool → Reply (Unit {0}) × Bool × S → Db → Result Report × Db × S
  unfolding reconcile_listed storage_keys list_object_keys
  reconcile_bucket now delete_orphans repair_missing (Reply.reply _, ready, s) d =
      reconcile_listed now delete_orphans repair_missing (storage_keys d) (list_object_keys s3 s) s
  reconcile_bucket now delete_orphans repair_missing (_, ready, s) d =
      (err Error.runtime_error, d, s)

  -- `_bucket_ready` is the flag of the worker's process
  unfoldable pub reconcile : ℕ → Bool → Bool → Bool → S → Db → Result Report × Db × S
  unfolding reconcile_bucket ensure_bucket
  reconcile now bucket_ready delete_orphans repair_missing s d =
      reconcile_bucket now delete_orphans repair_missing (ensure_bucket s3 bucket_ready s) d
