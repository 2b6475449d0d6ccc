-- ===== src/Tracks/Reconcile/Laws.antt =====
-- What a reconciliation leaves: the keys of the table and the objects of the store.
use fuze.Prelude.{
  ℕ, String, Bool, true, false, List, [], ◌∷◌, ◌≡◌, refl, ◌∙◌, sym, ap, arith, All, string_eq,
  nat_eq, Bool-cases, Option-cases, inl, inr, beq_refl, some, none, if◌then◌else◌,
}
use fuze.Prelude.Texts.{is_empty}
use fuze.Prelude.Sets.{contains, unique, minus, contains-unique, contains-minus}
use fuze.Database.Sql.{update_where}
use fuze.Database.Sql.Laws.{All-updated, updated}
use fuze.Tracks.Models.{Track}
use fuze.Tracks.Rows.{contains_id, missing_row}
use fuze.Tracks.Statements.{missing_table}
use fuze.Core.Result.{ok}
use fuze.Database.Tables.{Db}
use fuze.Tracks.Repository.{keys_of, mark_storage_missing}
use fuze.Tracks.Reconcile.{values, missing_keys, missing_ids}

-- the row has no key, the empty one, or one of `keys`
abbrev pub is_stored : List String → Track → Bool
is_stored keys t = elim t.storage_key [
  | none ↦ true
  | some key ↦ if is_empty key then true else contains key keys
]

-- the keys that `storage_keys` reads from the table
abbrev pub table_keys : List Track → List String
table_keys ts = values (keys_of ts)

-- a row that is not stored has a key, which is not listed
unstored_key :
    (keys : List String) (t : Track)
    → is_stored keys t ≡ false
    → (key : String) × (t.storage_key ≡ some key)
      × (is_empty key ≡ false)
      × (contains key keys ≡ false)
unstored_key keys t h = elim (Option-cases t.storage_key) [
  | inl bare ↦ absurd (ground (arith, bare, h))
  | inr (key, named) ↦ (key, named, ground (arith, named, h), ground (arith, named, h))
]

stored_listed :
    (keys : List String) (t : Track) (key : String)
    → t.storage_key ≡ some key
    → is_empty key ≡ false
    → is_stored keys t ≡ contains key keys
stored_listed keys t key named full = ground (arith, named, full)

keys_of_keyed :
    (t : Track) (ts : List Track) (key : String)
    → t.storage_key ≡ some key
    → is_empty key ≡ false
    → keys_of (t ∷ ts) ≡ (t.id, key) ∷ keys_of ts
unfolding keys_of
keys_of_keyed t ts key named full = simp (named, full)

keys_of_mono :
    (k : String) (t : Track) (ts : List Track)
    → contains k (table_keys ts) ≡ true
    → contains k (table_keys (t ∷ ts)) ≡ true
unfolding keys_of contains
keys_of_mono k t ts h = ground (arith, h)

missing_ids_mono :
    (missing : List String) (i : ℕ) (t : Track) (ts : List Track)
    → contains_id (missing_ids missing (keys_of ts)) i ≡ true
    → contains_id (missing_ids missing (keys_of (t ∷ ts))) i ≡ true
unfolding keys_of missing_ids contains_id
missing_ids_mono missing i t ts h = ground (arith, h)

-- every key of a row is among those of its table
is_stored-table_keys :
    (ts : List Track) (keys : List String)
    → ((k : String) → contains k (table_keys ts) ≡ true → contains k keys ≡ true)
    → All (λ t. is_stored keys t ≡ true) ts
is_stored-table_keys [] keys sub = tt
is_stored-table_keys (t ∷ ts) keys sub = (
  elim (Bool-cases (is_stored keys t)) [
    | inl stored ↦ stored
    | inr apart ↦
        let (key, named, full, unlisted) = unstored_key keys t apart in
        let mine : contains key (table_keys (t ∷ ts)) ≡ true =
          unfold contains in
          rw (keys_of_keyed t ts key named full) (ground (arith, beq_refl key)) in
        absurd (cc (sub key mine, unlisted))
  ],
  is_stored-table_keys ts keys (λ k h. sub k (keys_of_mono k t ts h)),
)

-- a row whose key is not in the store is among those that are repaired
listed-missing_ids :
    (missing objects : List String) (ids : List ℕ) (ts : List Track)
    → ((k : String)
        → contains k (table_keys ts) ≡ true
        → contains k objects ≡ false
        → contains k missing ≡ true)
    → ((i : ℕ) → contains_id (missing_ids missing (keys_of ts)) i ≡ true → contains_id ids i ≡ true)
    → All (λ t. is_stored objects t ≡ false → contains_id ids t.id ≡ true) ts
unfolding contains missing_ids contains_id
listed-missing_ids missing objects ids [] m sub = tt
listed-missing_ids missing objects ids (t ∷ ts) m sub = (
  λ apart.
      let (key, named, full, unlisted) = unstored_key objects t apart in
      let same = keys_of_keyed t ts key named full in
      let gone : contains key missing ≡ true =
        m key (rw same (ground (arith, beq_refl key))) unlisted in
      sub t.id (rw (same, gone) (ground (arith, beq_refl t.id))),
  listed-missing_ids missing objects ids ts (λ k h. m k (keys_of_mono k t ts h))
      (λ i h. sub i (missing_ids_mono missing i t ts h)),
)

-- a row is stored in the listing after the repair
repaired-is_stored :
    (now : ℕ) (objects : List String) (ids : List ℕ) (t : Track)
    → (is_stored objects t ≡ false → contains_id ids t.id ≡ true)
    → is_stored objects (updated (λ r. contains_id ids r.id) (missing_row now) t) ≡ true
unfolding missing_row
repaired-is_stored now objects ids t listed = elim (Bool-cases (contains_id ids t.id)) [
  | inl hit ↦ rw hit refl
  | inr miss ↦ elim (Bool-cases (is_stored objects t)) [
    | inl stored ↦ rw miss stored
    | inr apart ↦ absurd (cc (listed apart, miss))
  ]
]

repaired-is_stored_same :
    (now : ℕ) (keys : List String) (ids : List ℕ) (t : Track)
    → is_stored keys t ≡ true
    → is_stored keys (updated (λ r. contains_id ids r.id) (missing_row now) t) ≡ true
unfolding missing_row
repaired-is_stored_same now keys ids t h = elim (Bool-cases (contains_id ids t.id)) [
  | inl hit ↦ rw hit refl
  | inr miss ↦ rw miss h
]

-- stored in both lists, and so in one that holds what both hold
is_stored_both :
    (xs ys zs : List String)
    → ((k : String) → contains k xs ≡ true → contains k ys ≡ true → contains k zs ≡ true)
    → (t : Track) → is_stored xs t ≡ true
    → is_stored ys t ≡ true
    → is_stored zs t ≡ true
is_stored_both xs ys zs both t hx hy = elim (Bool-cases (is_stored zs t)) [
  | inl stored ↦ stored
  | inr apart ↦
      let (key, named, full, unlisted) = unstored_key zs t apart in
      let listed = λ (ws : List String). stored_listed ws t key named full in
      absurd (cc (both key (sym (listed xs) ∙ hx) (sym (listed ys) ∙ hy), unlisted))
]

pub All-is_stored_both :
    (xs ys zs : List String)
    → ((k : String) → contains k xs ≡ true → contains k ys ≡ true → contains k zs ≡ true)
    → (ts : List Track) → All (λ t. is_stored xs t ≡ true) ts
    → All (λ t. is_stored ys t ≡ true) ts
    → All (λ t. is_stored zs t ≡ true) ts
All-is_stored_both xs ys zs both [] hx hy = tt
All-is_stored_both xs ys zs both (t ∷ ts) hx hy =
    (is_stored_both xs ys zs both t hx.0 hy.0, All-is_stored_both xs ys zs both ts hx.1 hy.1)

-- the repaired table: its keys are in the listing, and were in the table
pub missing_table-is_stored :
    (now : ℕ) (objects : List String) (ts : List Track)
    → let ids = missing_ids (missing_keys (keys_of ts) objects) (keys_of ts) in
      All (λ t. is_stored objects t ≡ true) (missing_table now ids ts)
      × All (λ t. is_stored (table_keys ts) t ≡ true) (missing_table now ids ts)
unfolding missing_table missing_keys
missing_table-is_stored now objects ts =
    let gone = minus (unique (table_keys ts)) objects in
    let ids = missing_ids gone (keys_of ts) in
    let m = λ (k : String) (h : contains k (table_keys ts) ≡ true) (u : contains k objects ≡ false).
      contains-minus k (unique (table_keys ts)) objects
      ∙ ground (arith, contains-unique k (table_keys ts), h, u) in
    (
      All-updated (λ t. is_stored objects t ≡ false → contains_id ids t.id ≡ true)
          (λ t. is_stored objects t ≡ true) (λ r. contains_id ids r.id) (missing_row now)
          (repaired-is_stored now objects ids) ts
          (listed-missing_ids gone objects ids ts m (λ i h. h)),
      All-updated (λ t. is_stored (table_keys ts) t ≡ true)
          (λ t. is_stored (table_keys ts) t ≡ true) (λ r. contains_id ids r.id) (missing_row now)
          (repaired-is_stored_same now (table_keys ts) ids) ts
          (is_stored-table_keys ts (table_keys ts) (λ k h. h)),
    )

missing_table_nil : (now : ℕ) (ts : List Track) → missing_table now [] ts ≡ ts
unfolding missing_table update_where contains_id
missing_table_nil now [] = refl
missing_table_nil now (t ∷ ts) = ap (λ r. t ∷ r) (missing_table_nil now ts)

pub mark_storage_missing_lem :
    (now : ℕ) (ids : List ℕ) (d : Db)
    → ((mark_storage_missing now ids d).0 ≡ ok tt)
      × ((mark_storage_missing now ids d).1.current.tracks ≡ missing_table now ids d.current.tracks)
unfolding mark_storage_missing
mark_storage_missing_lem now [] d = (refl, sym (missing_table_nil now d.current.tracks))
mark_storage_missing_lem now (i ∷ ids) d = (refl, refl)
