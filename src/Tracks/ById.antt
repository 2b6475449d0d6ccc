-- ===== src/Tracks/ById.antt =====
-- The methods of the repository as seen through the one row that an identifier names.
use mathlib.Core.Option
use fuze.Prelude.{ℕ, String, ◌≡◌, refl, Bool, true, Option, List, arith, nat_eq}
use fuze.Core.Result.{ok}
use fuze.Database.Tables.{Db}
use fuze.Database.Sql.{select_one}
use fuze.Database.Sql.Laws.{updated, kept_if, select_one-update_where, select_one-keyed, Distinct}
use fuze.Tracks.Models.{Track}
use fuze.Tracks.Rows.{has_id, claimable, claim_row, owns, can_retry}
use fuze.Tracks.Statements.{claim_table}
use fuze.Tracks.Table.{IsValid, same_id}
use fuze.Tracks.Repository.{claim_download, claimed}

-- `SELECT … WHERE id = track_id`
abbrev pub row : ℕ → List Track → Option Track
row i = select_one (has_id i)

same_id_of : (i : ℕ) (s t : Track) → has_id i s ≡ true → has_id i t ≡ true → same_id s t ≡ true
same_id_of i s t p q = ground arith

-- A condition on `id` and more is a test on that row.
pub select_one-by_id :
    (i : ℕ) (p : Track → Bool) (ts : List Track)
    → ((t : Track) → p t ≡ true → has_id i t ≡ true)
    → Distinct same_id ts
    → select_one p ts ≡ kept_if p (row i ts)
select_one-by_id i p ts imp = select_one-keyed same_id (has_id i) p imp (same_id_of i) ts

pub claimable-has_id :
    (i : ℕ) (task : String) (t : Track) → claimable i task t ≡ true → has_id i t ≡ true
unfolding claimable
claimable-has_id i task t e = ground arith

pub owns-has_id : (i : ℕ) (task : String) (t : Track) → owns i task t ≡ true → has_id i t ≡ true
unfolding owns
owns-has_id i task t e = ground arith

pub can_retry-has_id : (m i : ℕ) (t : Track) → can_retry m i t ≡ true → has_id i t ≡ true
unfolding can_retry
can_retry-has_id m i t e = ground arith

pub row-claim_table :
    (i now j : ℕ) (task : String) (lease : ℕ) (ts : List Track)
    → row i (claim_table now j task lease ts)
      ≡ Option.map (updated (claimable j task) (claim_row now task lease)) (row i ts)
unfolding claim_table
row-claim_table i now j task lease ts = select_one-update_where (has_id i) _ _ (λ t. refl) ts

-- `claim_download` returns the row that `id` names, claimed, if it may be claimed.
pub claim_download-result :
    (m n now i : ℕ) (task : String) (lease : ℕ) (d : Db)
    → IsValid m n d.current.tracks
    → (claim_download now i task lease d).0
      ≡ ok (claimed now task lease (kept_if (claimable i task) (row i d.current.tracks)))
unfolding claim_download
claim_download-result m n now i task lease d h =
    rw (select_one-by_id i (claimable i task) d.current.tracks (claimable-has_id i task) h.ids) refl
