-- ===== src/Tracks/Ownership.antt =====
-- One download of a track at a time: a claim excludes every other claim, and a worker that has lost
-- its claim changes nothing.
use fuze.Prelude.{
  ◌∙◌, ◌<◌, ℕ, String, ◌≡◌, ◌≢◌, refl, true, false, Option, none, some, arith, nat_eq, string_eq,
  inl, inr, Bool-cases,
}
use text.Mathlib.TextEquality.{eq_iff}
use fuze.Core.Result.{ok}
use fuze.Database.Tables.{Db}
use fuze.Database.Sql.{select_one}
use fuze.Database.Sql.Laws.{kept_if, update_where-none}
use fuze.Tracks.Models.{Track}
use fuze.Tracks.Rows.{claimable, claim_row, owns}
use fuze.Tracks.Statements.{ready_table, failed_table}
use fuze.Tracks.Steps.{IsSettled, Step, Step-IsSettled}
use fuze.Tracks.Repository.{claim_download, claimed, mark_ready, mark_failed}
use fuze.Tracks.ById.{owns-has_id, row, select_one-by_id, row-claim_table, claim_download-result}

module _ (now i : ℕ) (task : String) (lease : ℕ) where
  claimed-kept_if :
      (o : Option Track) (t : Track)
      → claimed now task lease (kept_if (claimable i task) o) ≡ some t
      → (s : Track) × (o ≡ some s) × (claimable i task s ≡ true) × (t ≡ claim_row now task lease s)
  unfolding claimed
  claimed-kept_if none t e = absurd (cc)
  claimed-kept_if (some s) t e = elim (Bool-cases (claimable i task s)) [
    | inl fits ↦ (s, refl, fits, ground (arith, fits))
    | inr fails ↦ absurd (ground (arith, fails))
  ]

  -- The row after a claim that succeeded is DOWNLOADING for the task that claimed it.
  pub row-claimed :
      (m : ℕ) (d : Db) (t : Track)
      → IsSettled m d
      → (claim_download now i task lease d).0 ≡ ok (some t)
      → row i (claim_download now i task lease d).1.current.tracks ≡ some t
  unfolding claim_download
  row-claimed m d t h won =
      let got : claimed now task lease (kept_if (claimable i task) (row i d.current.tracks))
          ≡ some t =
        ground (arith, won, claim_download-result m d.sequence now i task lease d h.table) in
      let (s, found, fits, same) = claimed-kept_if (row i d.current.tracks) t got in
      rw (row-claim_table i now i task lease d.current.tracks, found) (ground (arith, fits, same))

claimed-not-claimable :
    (now i lease j : ℕ) (task other : String) (s : Track)
    → claimable j other (claim_row now task lease s) ≡ false
unfolding claimable claim_row
claimed-not-claimable now i lease j task other s = ground arith

claimed-not-owned :
    (now lease j : ℕ) (task other : String) (s : Track)
    → task ≢ other
    → owns j other (claim_row now task lease s) ≡ false
unfolding owns claim_row
claimed-not-owned now lease j task other s ne = ground (arith, eq_iff task other)

-- What a claim leaves: a settled database in which the row is the one that was claimed.
module _ (m : ℕ) (d : Db) (h : IsSettled m d) (now i : ℕ) (task : String) (lease : ℕ) (t s : Track)
    (held : row i d.current.tracks ≡ some t) (mine : t ≡ claim_row now task lease s) where
  held-not-claimable :
      (later : ℕ) (other : String) (lease' : ℕ)
      → (claim_download later i other lease' d).0 ≡ ok none
  unfolding claimed
  held-not-claimable later other lease' =
      claim_download-result m d.sequence later i other lease' d h.table
      ∙ rw (held, mine, claimed-not-claimable now i lease i task other s) refl

  held-not-owned :
      (other : String) → task ≢ other → select_one (owns i other) d.current.tracks ≡ none
  held-not-owned other ne =
      select_one-by_id i (owns i other) d.current.tracks (owns-has_id i other) h.table.ids
      ∙ rw (held, mine, claimed-not-owned now lease i task other s ne) refl

  held-mark_ready :
      (later : ℕ) (other key url : String)
      → task ≢ other
      → mark_ready later i other key url d ≡ (ok tt, d)
  unfolding mark_ready ready_table
  held-mark_ready later other key url ne =
      rw (update_where-none (owns i other) _ d.current.tracks (held-not-owned other ne))
        (rw (← h.saved) refl)

  held-mark_failed :
      (later : ℕ) (other code message : String)
      → task ≢ other
      → mark_failed later i other code message d ≡ (ok tt, d)
  unfolding mark_failed failed_table
  held-mark_failed later other code message ne =
      rw (update_where-none (owns i other) _ d.current.tracks (held-not-owned other ne))
        (rw (← h.saved) refl)

module _ (m : ℕ) (pos : 0 < m) (d : Db) (h : IsSettled m d) (now i : ℕ) (task : String) (lease : ℕ)
    (t : Track) (won : (claim_download now i task lease d).0 ≡ ok (some t)) where
  shape : (s : Track) × (t ≡ claim_row now task lease s)
  shape =
      let got : claimed now task lease (kept_if (claimable i task) (row i d.current.tracks))
          ≡ some t =
        ground (arith, won, claim_download-result m d.sequence now i task lease d h.table) in
      let (s, found, fits, same) =
        claimed-kept_if now i task lease (row i d.current.tracks) t got in
      (s, same)

  settled : IsSettled m (claim_download now i task lease d).1
  settled = Step-IsSettled m pos (Step.claim d now i task lease) h

  -- After a claim has succeeded, another claim of the track, by whatever task, gets nothing.
  pub claim_exclusive :
      (later : ℕ) (other : String) (lease' : ℕ)
      → (claim_download later i other lease' (claim_download now i task lease d).1).0 ≡ ok none
  claim_exclusive later other lease' =
      let (s, same) = shape in
      held-not-claimable m (claim_download now i task lease d).1 settled now i task lease t s
        (row-claimed now i task lease m d t h won) same later other lease'

  -- While a task holds the claim, what another task reports, success or failure, changes nothing.
  pub stale_worker_silent :
      (later : ℕ) (other key url code message : String)
      → task ≢ other
      → (mark_ready later i other key url (claim_download now i task lease d).1
          ≡ (ok tt, (claim_download now i task lease d).1))
        × (mark_failed later i other code message (claim_download now i task lease d).1
            ≡ (ok tt, (claim_download now i task lease d).1))
  stale_worker_silent later other key url code message ne =
      let (s, same) = shape in
      let got = row-claimed now i task lease m d t h won in
      (
        held-mark_ready m (claim_download now i task lease d).1 settled now i task lease t s got
            same later other key url ne,
        held-mark_failed m (claim_download now i task lease d).1 settled now i task lease t s got
            same later other code message ne,
      )
