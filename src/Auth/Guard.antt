-- ===== src/Auth/Guard.antt =====
-- What `current_active_user` of core/dependencies.py lets pass.
use fuze.Prelude.{ℕ, ◌≡◌, refl, true, not, Option, none, some, arith, Bool-cases, inl, inr, ◌<◌}
use fuze.Core.Result.{Result, ok, err}
use fuze.Database.Tables.{Db}
use fuze.Database.Exec.{raise_if, or_raise, pure, ◌>>=◌, ◌>>◌}
use fuze.Database.Sql.{select_one}
use fuze.Users.Models.{User}
use fuze.Users.Repository.{is_user, get_user_by_id}
use fuze.Auth.Models.{AuthSession}
use fuze.Auth.Repository.{is_session, get}
use fuze.Auth.Service.{TokenPayload, is_live_user}
use fuze.Auth.Access.{in_force, admit, admit_parsed, current_active_user, unauthorized}

-- how the guard ended
pub data Guarded (now : ℕ) (payload : TokenPayload) (d : Db) (out : Result User × Db) : Type 0 where
  refused : out ≡ (err unauthorized, d) → Guarded now payload d out
  -- the user and the session of the token
  passed :
      (i j : ℕ) (u : User) (a : AuthSession)
      → payload.sub ≡ some i
      → payload.sid ≡ some j
      → select_one (is_user i) d.current.users ≡ some u
      → select_one (is_session j) d.current.auth_sessions ≡ some a
      → u.is_active ≡ true
      → a.user_id ≡ i
      → a.revoked_at ≡ none
      → now < a.expires_at
      → out ≡ (ok u, d)
      → Guarded now payload d out

module _ (now : ℕ) (payload : TokenPayload) (d : Db) (i j : ℕ) (sub : payload.sub ≡ some i)
    (sid : payload.sid ≡ some j) where
  session-Guarded :
      (u : User) (s : Option AuthSession)
      → select_one (is_user i) d.current.users ≡ some u
      → u.is_active ≡ true
      → select_one (is_session j) d.current.auth_sessions ≡ s
      → Guarded now payload d ((raise_if (not (in_force now i s)) unauthorized >> pure u) d)
  unfolding in_force
  session-Guarded u none found active e = Guarded.refused refl
  session-Guarded u (some a) found active e = elim (Bool-cases (in_force now i (some a))) [
    | inl live ↦ rw live (
        Guarded.passed i j u a sub sid found e active (ground (arith, live)) (ground (arith, live))
          (ground (arith, live)) refl)
    | inr dead ↦ simp dead (Guarded.refused refl)
  ]

  user-Guarded :
      (o : Option User)
      → select_one (is_user i) d.current.users ≡ o
      → Guarded now payload d (
          (raise_if (not (is_live_user o)) unauthorized
              >> (or_raise o unauthorized >>= λ user. get j >>= λ session.
                  raise_if (not (in_force now i session)) unauthorized >> pure user))
            d)
  unfolding get
  user-Guarded none e = Guarded.refused refl
  user-Guarded (some u) e = elim (Bool-cases u.is_active) [
    | inl live ↦ simp live (session-Guarded u _ e live refl)
    | inr dead ↦ simp dead (Guarded.refused refl)
  ]

parsed-Guarded :
    (now : ℕ) (payload : TokenPayload) (d : Db) (sub sid : Option ℕ)
    → payload.sub ≡ sub
    → payload.sid ≡ sid
    → Guarded now payload d (admit_parsed now sub sid d)
unfolding admit_parsed admit get_user_by_id
parsed-Guarded now payload d (some i) (some j) e f = user-Guarded now payload d i j e f _ refl
parsed-Guarded now payload d (some i) none e f = Guarded.refused refl
parsed-Guarded now payload d none sid e f = Guarded.refused refl

-- The guard of the routes writes nothing; it answers 401, or it passes the user of the token, who is
-- active, whose session the token names, and the session is of this user, not revoked and not expired.
pub current_active_user-Guarded :
    (now : ℕ) (payload : TokenPayload) (d : Db)
    → Guarded now payload d (current_active_user now payload d)
unfolding current_active_user
current_active_user-Guarded now payload d =
    parsed-Guarded now payload d payload.sub payload.sid refl refl
