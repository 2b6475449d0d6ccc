-- ===== src/Auth/Logout.antt =====
-- `revoke`: a session that was logged out opens nothing any more.
use fuze.Prelude.{
  ℕ, String, ◌≡◌, refl, ◌∙◌, ap, Bool, true, false, ◌&&◌, not, Option, none, some, arith, nat_eq,
  beq_refl, Bool-cases, inl, inr, if◌then◌else◌,
}
use fuze.Prelude.Texts.{is_empty}
use fuze.Core.Errors.{Error}
use fuze.Core.Result.{Result, ok, err}
use fuze.Database.Tables.{Db}
use fuze.Database.Sql.{select_one}
use fuze.Database.Sql.Laws.{select_one-update_where}
use fuze.Users.Models.{User}
use fuze.Users.Repository.{is_user, get_user_by_id}
use fuze.Auth.Models.{AuthSession}
use fuze.Auth.Repository.{is_session, get}
use fuze.Auth.Service.{
  Context, TokenPayload, may_rotate, rotate_session, rotate_parsed, rotate, refuse, may_revoke,
  revoke_session, revoke_parsed, revoke,
}
use fuze.Auth.Access.{in_force, admit, admit_parsed, current_active_user, unauthorized}
use fuze.Auth.Sessions.{session_at, live_at, rotate_parsed-live, rotate_parsed-dead, refused}

-- no session of the user that could be used
abbrev pub is_closed : ℕ → Option AuthSession → Bool
is_closed u none = true
is_closed u (some b) = not (may_revoke u b)

abbrev stamped : ℕ → AuthSession → AuthSession
stamped now b = record b { revoked_at = some now }

revoke_session-closed :
    (now u s : ℕ) (found : Option AuthSession) (d : Db)
    → d.committed ≡ d.current
    → session_at s d ≡ found
    → is_closed u (session_at s (revoke_session now u found d).1) ≡ true
unfolding revoke_session
revoke_session-closed now u s none d saved e = rw (saved, e) refl
revoke_session-closed now u s (some a) d saved e = elim (Bool-cases (may_revoke u a)) [
  | inr other ↦ rw (other, saved, e, other) refl
  | inl mine ↦
      let after : session_at s (revoke_session now u (some a) d).1 ≡ some (stamped now a) =
        rw mine (
          select_one-update_where (is_session s) (is_session a.id) (stamped now) (λ b. refl)
            d.current.auth_sessions
          ∙ rw (e, beq_refl a.id) refl) in
      rw after (ground arith)
]

in_force-closed :
    (now u : ℕ) (found : Option AuthSession)
    → is_closed u found ≡ true
    → in_force now u found ≡ false
unfolding in_force
in_force-closed now u none h = refl
in_force-closed now u (some a) h = ground (arith, h)

may_rotate-closed :
    (y : Context) (u : ℕ) (jti : String) (a : AuthSession)
    → is_closed u (some a) ≡ true
    → may_rotate y u jti a ≡ false
unfolding may_rotate
may_rotate-closed y u jti a h = ground (arith, h)

-- what the guard of a route answers, from the account and the state of the session
abbrev pub admitted : Option User → Bool → Result User
admitted none b = err unauthorized
admitted (some w) b = if w.is_active && b then ok w else err unauthorized

admit-found :
    (now u s : ℕ) (d : Db) (o : Option User) (b : Bool)
    → select_one (is_user u) d.current.users ≡ o
    → in_force now u (session_at s d) ≡ b
    → admit now u s d ≡ (admitted o b, d)
unfolding admit get_user_by_id get
admit-found now u s d none b e f = rw e refl
admit-found now u s d (some w) true e f = elim (Bool-cases w.is_active) [
  | inr dead ↦ rw (e, dead) refl
  | inl live ↦ rw e (simp (live, f) refl)
]
admit-found now u s d (some w) false e f = elim (Bool-cases w.is_active) [
  | inr dead ↦ rw (e, dead) refl
  | inl live ↦ rw e (simp (live, f) refl)
]

pub admit-admitted :
    (now u s : ℕ) (d : Db)
    → admit now u s d
      ≡ (admitted (select_one (is_user u) d.current.users) (in_force now u (session_at s d)), d)
admit-admitted now u s d = admit-found now u s d _ _ refl refl

admitted-closed : (o : Option User) → admitted o false ≡ err unauthorized
admitted-closed none = refl
admitted-closed (some w) = ground arith

-- a guard of a route refuses where the session is closed
pub admit-closed :
    (now u s : ℕ) (d : Db)
    → is_closed u (session_at s d) ≡ true
    → (admit now u s d).0 ≡ err unauthorized
admit-closed now u s d h =
    ap (λ out. out.0) (admit-admitted now u s d)
    ∙ rw (in_force-closed now u (session_at s d) h)
        (admitted-closed (select_one (is_user u) d.current.users))

rotate_session-closed :
    (y : Context) (u : ℕ) (jti : String) (d : Db) (found : Option AuthSession)
    → is_closed u found ≡ true
    → (rotate_session y u jti found d).0 ≡ err Error.invalid_auth_credentials
unfolding rotate_session refuse
rotate_session-closed y u jti d none k = refl
rotate_session-closed y u jti d (some a) k = refused y u jti a d (may_rotate-closed y u jti a k)

rotate_parsed-closed :
    (y : Context) (u s : ℕ) (jti : String) (d : Db)
    → is_closed u (session_at s d) ≡ true
    → (rotate_parsed y (some (u, s, jti)) d).0 ≡ err Error.invalid_auth_credentials
rotate_parsed-closed y u s jti d h = elim (Bool-cases (live_at u d)) [
  | inr dead ↦ rotate_parsed-dead y u s jti d dead
  | inl live ↦
      rw (rotate_parsed-live y u s jti d live) (rotate_session-closed y u jti d (session_at s d) h)
]

revoke_parsed-closed :
    (now u s : ℕ) (d : Db)
    → d.committed ≡ d.current
    → is_closed u (session_at s (revoke_parsed now (some u) (some s) d).1) ≡ true
unfolding revoke_parsed get
revoke_parsed-closed now u s d saved = revoke_session-closed now u s (session_at s d) d saved refl

-- the same for a payload, of which the identifier of the token may be empty
pub rotate-closed :
    (y : Context) (u s : ℕ) (jti : String) (d : Db)
    → is_closed u (session_at s d) ≡ true
    → (rotate y (record { sub = some u; sid = some s; jti = jti }) d).0
      ≡ err Error.invalid_auth_credentials
unfolding rotate
rotate-closed y u s jti d h = elim (Bool-cases (is_empty jti)) [
  | inl blank ↦ rw blank (unfold rotate_parsed in refl)
  | inr filled ↦ rw filled (rotate_parsed-closed y u s jti d h)
]

module _ (now later : ℕ) (y : Context) (jti : String) (d : Db)
    (saved : d.committed ≡ d.current) where
  locked_out :
      (sub sid : Option ℕ)
      → let after = (revoke_parsed now sub sid d).1 in
        let payload : TokenPayload = record { sub = sub; sid = sid; jti = jti } in
        ((current_active_user later payload after).0 ≡ err unauthorized)
        × ((rotate y payload after).0 ≡ err Error.invalid_auth_credentials)
  unfolding current_active_user admit_parsed rotate rotate_parsed
  locked_out (some u) (some s) = (
    admit-closed later u s _ (revoke_parsed-closed now u s d saved),
    rotate-closed y u s jti _ (revoke_parsed-closed now u s d saved),
  )
  locked_out none sid = (refl, refl)
  locked_out (some u) none = (refl, refl)

-- After a logout the tokens of the session open nothing: every guarded route and the rotation refuse
-- them, from then on.
pub revoke_locks_out :
    (now later : ℕ) (y : Context) (payload : TokenPayload) (d : Db)
    → d.committed ≡ d.current
    → ((current_active_user later payload (revoke now payload d).1).0 ≡ err unauthorized)
      × ((rotate y payload (revoke now payload d).1).0 ≡ err Error.invalid_auth_credentials)
unfolding revoke
revoke_locks_out now later y payload d saved =
    locked_out now later y payload.jti d saved payload.sub payload.sid
