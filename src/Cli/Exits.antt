-- ===== src/Cli/Exits.antt =====
-- How `db-status` of cli/commands/rescue.py ends, and what a revoked key leaves.

use mathlib.Core.Path.{subst}
use fuze.Prelude.{
  ℕ, sym, String, ◌≡◌, refl, ◌∙◌, ap, true, Option, none, some, List, [], ◌∷◌, arith, Bool-cases,
  inl, inr, ◌==◌, is_equal, nat_eq, string_eq, if◌then◌else◌,
}
use fuze.Core.Errors.{Error}
use fuze.Core.Result.{err}
use fuze.Database.Tables.{Db}
use fuze.Database.Sql.{update_where, select_one}
use fuze.Database.Sql.Laws.{select_one-update_where, updated}
use fuze.Auth.Models.{AccessKey, AuthSession}
use fuze.Auth.Repository.{is_session, of_live_key}
use fuze.Auth.Service.{Context, TokenPayload, rotate}
use fuze.Auth.Access.{current_active_user, admit_parsed, unauthorized}
use fuze.Auth.Sessions.{session_at}
use fuze.Auth.Logout.{is_closed, admit-closed, rotate-closed}
use fuze.Cli.Command.{Ended, transaction, ◌>>=◌}
use fuze.Cli.Keys.{revoke_key, is_live_key}
use fuze.Cli.Diagnosis.{db_status, compare_revisions}

-- A database at the head of the migrations is reported as such. One at another revision, or at
-- none, is reported to drift, and then as unavailable: the command ends with the code 4 of an
-- unreachable database, and not with the 5 of its drift.
pub db_status_lem :
    (current : Option String) (head : String)
    → db_status (some current) (some head) ≡ (
        if is_equal current head then (("ok", "") ∷ [], Ended.done tt) else (
          ("drift", "") ∷ ("error", "database_unavailable") ∷ [],
          Ended.exited 4 "database_unavailable",
        ))
unfolding db_status compare_revisions
db_status_lem none head = refl
db_status_lem (some current) head = elim (Bool-cases (current == head)) [
  | inl same ↦ rw same refl
  | inr apart ↦ rw apart refl
]

abbrev IsDone {ℓ} : {A : Type ℓ} → Ended A → Type 0
IsDone (Ended.done _) = Unit {0}
IsDone _ = ⊥

failed_ne_done :
    (e : Ended (Unit {0})) (n : ℕ) (code : String) → e ≡ Ended.exited n code → e ≡ Ended.done tt → ⊥
failed_ne_done e n code failed won = subst IsDone (sym won ∙ failed) tt

-- the sessions after those of a key were revoked
abbrev closed : ℕ → ℕ → List AuthSession → List AuthSession
closed now key_id = update_where (of_live_key key_id) λ a. record a { revoked_at = some now }

updated-closed :
    (now key_id u : ℕ) (a : AuthSession)
    → is_equal a.access_key_id key_id ≡ true
    → is_closed u (
        some (
          updated (of_live_key key_id) (λ (b : AuthSession). record b { revoked_at = some now }) a))
      ≡ true
unfolding of_live_key
updated-closed now key_id u a mine = ground (arith, mine)

closed_at :
    (now key_id u s : ℕ) (xs : List AuthSession) (a : AuthSession)
    → select_one (is_session s) xs ≡ some a
    → is_equal a.access_key_id key_id ≡ true
    → is_closed u (select_one (is_session s) (closed now key_id xs)) ≡ true
closed_at now key_id u s xs a found mine =
    rw
      (select_one-update_where (is_session s) (of_live_key key_id)
        (λ (b : AuthSession). record b { revoked_at = some now }) (λ b. refl) xs)
      (rw found (updated-closed now key_id u a mine))

revoke_key-sessions :
    (now key_id : ℕ) (d : Db) (o : Option AccessKey)
    → select_one (is_live_key key_id) d.committed.access_keys ≡ o
    → (revoke_key now key_id d).0 ≡ Ended.done tt
    → (revoke_key now key_id d).1.current.auth_sessions
      ≡ closed now key_id d.committed.auth_sessions
unfolding revoke_key ◌>>=◌ transaction
revoke_key-sessions now key_id d none found won =
    absurd (failed_ne_done _ 2 "Active access key not found" (rw found refl) won)
revoke_key-sessions now key_id d (some k) found won = rw found refl

refused_after :
    (now key_id : ℕ) (xs : List AuthSession) (d : Db)
    → d.current.auth_sessions ≡ closed now key_id xs
    → (u s later : ℕ) (jti : String) (y : Context) (a : AuthSession)
    → select_one (is_session s) xs ≡ some a
    → is_equal a.access_key_id key_id ≡ true
    → ((current_active_user later (record { sub = some u; sid = some s; jti = jti }) d).0
        ≡ err unauthorized)
      × ((rotate y (record { sub = some u; sid = some s; jti = jti }) d).0
          ≡ err Error.invalid_auth_credentials)
unfolding current_active_user admit_parsed
refused_after now key_id xs d e u s later jti y a found mine =
    let shut : is_closed u (session_at s d) ≡ true =
      ap (λ rows. is_closed u (select_one (is_session s) rows)) e
      ∙ closed_at now key_id u s xs a found mine in
    (admit-closed later u s d shut, rotate-closed y u s jti d shut)

-- After a revocation of an access key that succeeded, no session that was opened with the key opens
-- anything any more: the guards and the rotation refuse its tokens.
pub revoke_key_locks_out :
    (now key_id : ℕ) (d : Db) (u s later : ℕ) (jti : String) (y : Context) (a : AuthSession)
    → select_one (is_session s) d.committed.auth_sessions ≡ some a
    → is_equal a.access_key_id key_id ≡ true
    → (revoke_key now key_id d).0 ≡ Ended.done tt
    → let payload : TokenPayload = record { sub = some u; sid = some s; jti = jti } in
      ((current_active_user later payload (revoke_key now key_id d).1).0 ≡ err unauthorized)
      × ((rotate y payload (revoke_key now key_id d).1).0 ≡ err Error.invalid_auth_credentials)
revoke_key_locks_out now key_id d u s later jti y a found mine won =
    refused_after now key_id d.committed.auth_sessions (revoke_key now key_id d).1
      (revoke_key-sessions now key_id d _ refl won) u s later jti y a found mine
