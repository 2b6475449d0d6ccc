-- ===== src/Auth/Sessions.antt =====
-- What a session is worth after its tokens were rotated or it was revoked.
use fuze.Prelude.{
  ℕ, String, ◌≡◌, refl, ◌∙◌, ap, sym, Bool, true, false, ◌||◌, not, ◌++◌, [], ◌∷◌, Option, none,
  some, List, arith, ◌==◌, nat_eq, string_eq, beq_refl, Bool-cases, inl, inr,
}
use fuze.Core.Errors.{Error}
use fuze.Core.Result.{Result, ok, err}
use fuze.Database.Tables.{Tables, Db}
use fuze.Database.Exec.{◌>>◌, rollback_on_error, commit, pure}
use fuze.Database.Exec.Laws.{seq-ok, seq-err, rolled-ok, rolled-err}
use fuze.Database.Sql.{update_where, select_one, exists_row}
use fuze.Database.Sql.Laws.{select_one-update_where, select_one-insert}
use fuze.Users.Repository.{is_user, get_user_by_id}
use fuze.Auth.Models.{AuthSession}
use fuze.Auth.Repository
use fuze.Auth.Repository.{is_session, get, key_missing}
use fuze.Auth.Service.{
  Context, TokenPayload, Tokens, new_session, may_rotate, retire, rotate_session, rotate_parsed,
  rotate, parsed, generate_tokens, refuse, is_live_user,
}

abbrev pub session_at : ℕ → Db → Option AuthSession
session_at s d = select_one (is_session s) d.current.auth_sessions

abbrev pub live_at : ℕ → Db → Bool
live_at u d = is_live_user (select_one (is_user u) d.current.users)

-- the INSERT of a session conflicts
abbrev pub clashes : AuthSession → Tables → Bool
clashes session s =
    exists_row
      (λ (a : AuthSession). a.id == session.id || a.refresh_jti_hash == session.refresh_jti_hash)
      s.auth_sessions
    || (not (exists_row (is_user session.user_id) s.users)
        || key_missing session.access_key_id s.access_keys)

-- the database with new rows in `auth_sessions`, before and after the commit
abbrev pub with_sessions : Db → List AuthSession → Db
with_sessions d sessions = record d { current = record d.current { auth_sessions = sessions } }

abbrev pub committed_sessions : Db → List AuthSession → Db
committed_sessions d sessions =
    let after : Tables = record d.current { auth_sessions = sessions } in
    record d { current = after; committed = after }

pub create-clash :
    (session : AuthSession) (d : Db)
    → clashes session d.current ≡ true
    → Repository.create session d ≡ (err Error.integrity_error, d)
unfolding Repository.create
create-clash session d h = rw h refl

pub create-free :
    (session : AuthSession) (d : Db)
    → clashes session d.current ≡ false
    → Repository.create session d
      ≡ (ok tt, with_sessions d (d.current.auth_sessions ++ session ∷ []))
unfolding Repository.create
create-free session d h = rw h refl

-- the session as `rotate` leaves it
abbrev pub retired : Context → AuthSession → AuthSession
retired x b = record b { revoked_at = some x.now; replaced_by = some x.session_id }

-- the sessions after a rotation
abbrev pub rotated : Context → ℕ → AuthSession → List AuthSession → List AuthSession
rotated x u a sessions =
    update_where (is_session a.id) (retired x) (sessions ++ new_session x u a.access_key_id ∷ [])

module _ (x : Context) (u : ℕ) (jti : String) (a : AuthSession) (d : Db) where
  pub rotate_session-free :
      may_rotate x u jti a ≡ true
      → clashes (new_session x u a.access_key_id) d.current ≡ false
      → rotate_session x u jti (some a) d
        ≡ (ok (generate_tokens x u), committed_sessions d (rotated x u a d.current.auth_sessions))
  unfolding rotate_session retire
  rotate_session-free may free = rw may (
      seq-ok
        (rollback_on_error
          (do Repository.create (new_session x u a.access_key_id); retire x a; commit))
        (pure (generate_tokens x u)) d
        (committed_sessions d (rotated x u a d.current.auth_sessions))
        (rolled-ok (do Repository.create (new_session x u a.access_key_id); retire x a; commit) d
          (committed_sessions d (rotated x u a d.current.auth_sessions)) tt
          (seq-ok (Repository.create (new_session x u a.access_key_id)) (retire x a >> commit) d
            (with_sessions d (d.current.auth_sessions ++ new_session x u a.access_key_id ∷ []))
            (create-free (new_session x u a.access_key_id) d free))))

  rotate_session-clash :
      may_rotate x u jti a ≡ true
      → clashes (new_session x u a.access_key_id) d.current ≡ true
      → rotate_session x u jti (some a) d
        ≡ (err Error.integrity_error, record d { current = d.committed })
  unfolding rotate_session
  rotate_session-clash may clash = rw may (
      seq-err
        (rollback_on_error
          (do Repository.create (new_session x u a.access_key_id); retire x a; commit))
        (pure (generate_tokens x u)) d (record d { current = d.committed }) Error.integrity_error
        (rolled-err (do Repository.create (new_session x u a.access_key_id); retire x a; commit) d d
          Error.integrity_error
          (seq-err (Repository.create (new_session x u a.access_key_id)) (retire x a >> commit) d d
            Error.integrity_error (create-clash (new_session x u a.access_key_id) d clash))))

  -- a session that was found is retired by the rotation
  rotated-found :
      (s : ℕ)
      → session_at s d ≡ some a
      → select_one (is_session s) (rotated x u a d.current.auth_sessions) ≡ some (retired x a)
  rotated-found s found =
      select_one-update_where (is_session s) (is_session a.id) (retired x) (λ b. refl) _
      ∙ rw
          (
            select_one-insert (is_session s) d.current.auth_sessions a
                (new_session x u a.access_key_id) found,
            beq_refl a.id,
          )
          refl

not-may_rotate :
    (y x : Context) (u : ℕ) (jti : String) (a : AuthSession)
    → may_rotate y u jti (retired x a) ≡ false
unfolding may_rotate
not-may_rotate y x u jti a = ground arith

-- a session that may not rotate is refused
pub refused :
    (y : Context) (u : ℕ) (jti : String) (b : AuthSession) (d : Db)
    → may_rotate y u jti b ≡ false
    → (rotate_session y u jti (some b) d).0 ≡ err Error.invalid_auth_credentials
unfolding rotate_session refuse
refused y u jti b d no_more = rw no_more refl

pub not-ok {ℓ} : {A : Type ℓ} (r : Result A) (e : Error) (t : A) → r ≡ err e → r ≡ ok t → ⊥
not-ok r e t h k = cc

module _ (x y : Context) (u s : ℕ) (jti : String) (d : Db) (t : Tokens) where
  again :
      (found : Option AuthSession)
      → session_at s d ≡ found
      → (rotate_session x u jti found d).0 ≡ ok t
      → (b : AuthSession) × (session_at s (rotate_session x u jti found d).1 ≡ some b)
        × (may_rotate y u jti b ≡ false)
  unfolding rotate_session refuse
  again none e won = absurd (cc)
  again (some a) e won = elim (Bool-cases (may_rotate x u jti a)) [
    | inr refusal ↦ absurd (not-ok _ _ _ (refused x u jti a d refusal) won)
    | inl may ↦ elim (Bool-cases (clashes (new_session x u a.access_key_id) d.current)) [
      | inl clash ↦
          absurd (not-ok _ _ _ (ap (λ out. out.0) (rotate_session-clash x u jti a d may clash)) won)
      | inr free ↦ (
        retired x a,
        (ap (λ out. session_at s out.1) (rotate_session-free x u jti a d may free)
            ∙ rotated-found x u jti a d s e),
        not-may_rotate y x u jti a,
      )
    ]
  ]

pub rotate_parsed-live :
    (x : Context) (u s : ℕ) (jti : String) (d : Db)
    → live_at u d ≡ true
    → rotate_parsed x (some (u, s, jti)) d ≡ rotate_session x u jti (session_at s d) d
unfolding rotate_parsed get_user_by_id get
rotate_parsed-live x u s jti d live = rw live refl

pub rotate_parsed-dead :
    (x : Context) (u s : ℕ) (jti : String) (d : Db)
    → live_at u d ≡ false
    → (rotate_parsed x (some (u, s, jti)) d).0 ≡ err Error.invalid_auth_credentials
unfolding rotate_parsed get_user_by_id
rotate_parsed-dead x u s jti d dead = rw dead refl

rotate_parsed-refused :
    (y : Context) (u s : ℕ) (jti : String) (d : Db) (b : AuthSession)
    → session_at s d ≡ some b
    → may_rotate y u jti b ≡ false
    → (rotate_parsed y (some (u, s, jti)) d).0 ≡ err Error.invalid_auth_credentials
rotate_parsed-refused y u s jti d b found no_more = elim (Bool-cases (live_at u d)) [
  | inr dead ↦ rotate_parsed-dead y u s jti d dead
  | inl live ↦ rw (rotate_parsed-live y u s jti d live, found) (refused y u jti b d no_more)
]

-- once the claims are parsed
replayed :
    (x y : Context) (o : Option (ℕ × ℕ × String)) (d : Db) (t : Tokens)
    → (rotate_parsed x o d).0 ≡ ok t
    → (rotate_parsed y o (rotate_parsed x o d).1).0 ≡ err Error.invalid_auth_credentials
replayed x y none d t won = unfold rotate_parsed in refl
replayed x y (some (u, s, jti)) d t won = elim (Bool-cases (live_at u d)) [
  | inr dead ↦ absurd (not-ok _ _ _ (rotate_parsed-dead x u s jti d dead) won)
  | inl live ↦
      let same = rotate_parsed-live x u s jti d live in
      let (b, found, no_more) =
        again x y u s jti d t (session_at s d) refl (ap (λ out. out.0) (sym same) ∙ won) in
      rw same (rotate_parsed-refused y u s jti _ b found no_more)
]

-- A refresh token works once: after a rotation that succeeded, the same token is refused at any later
-- time.
pub rotate_once :
    (x y : Context) (payload : TokenPayload) (d : Db) (t : Tokens)
    → (rotate x payload d).0 ≡ ok t
    → (rotate y payload (rotate x payload d).1).0 ≡ err Error.invalid_auth_credentials
unfolding rotate
rotate_once x y payload d t won = replayed x y (parsed payload) d t won
