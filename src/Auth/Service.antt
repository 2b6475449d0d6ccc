-- ===== src/Auth/Service.antt =====
-- modules/auth/service.py: `AuthService`. The clock, the random identifiers and the libraries that hash
-- and sign are arguments.
use fuze.Prelude.{
  ℕ, ◌+◌, ◌*◌, String, Bool, true, false, ◌&&◌, not, Option, none, some, leb, ◌==◌, is_none, nat_eq,
  string_eq, if◌then◌else◌,
}
use fuze.Prelude.Texts.{is_empty}
use fuze.Core.Config.{AuthMode, FuzeConfig, UserRole}
use fuze.Core.Errors.{Error}
use fuze.Database.Exec.{
  Exec, pure, raise, raise_if, commit, rollback, rollback_on_error, ◌>>=◌, ◌>>◌,
}
use fuze.Database.Sql.{update_where}
use fuze.Users.Models.{User}
use fuze.Users.Repository.{get_user_by_id}
use fuze.Users.Service.{Crypto, get_user_by_email, create_key_user}
use fuze.Auth.Models.{AccessKey, AuthSession}
use fuze.Auth.Repository
use fuze.Auth.Repository.{is_session, on_sessions, get_access_key_for_update, mark_key_used}

-- what a request to the service depends on
pub record Context : Type 0 where
  pub config : FuzeConfig
  pub crypto : Crypto
  -- `datetime.now(timezone.utc)`
  pub now : ℕ
  -- REFRESH_TOKEN_EXPIRES, in days
  pub refresh_days : ℕ
  -- what `uuid4()` gives for the session and, as a text, for its refresh token
  pub session_id : ℕ
  pub refresh_jti : String

-- the claims of a JWT whose signature was verified: `sub` and `sid` as far as `int` and `UUID` read
-- them, and `jti`
pub record TokenPayload : Type 0 where
  pub sub : Option ℕ
  pub sid : Option ℕ
  pub jti : String

-- a pair of tokens, by the claims that are signed
pub record Tokens : Type 0 where
  pub user_id : ℕ
  pub session_id : ℕ
  pub refresh_jti : String

abbrev pub allows_password : AuthMode → Bool
allows_password AuthMode.key = false
allows_password _ = true

abbrev pub allows_key : AuthMode → Bool
allows_key AuthMode.password = false
allows_key _ = true

unfoldable pub register : Context → ℕ → String → String → Exec (User × String)
register x uuid token name = do
  raise_if (not x.config.auth.registration) (Error.capability_disabled "registration_disabled")
  create_key_user x.crypto uuid token name UserRole.user "registration"

unfoldable pub refresh_expiry : Context → ℕ
refresh_expiry x = x.now + x.refresh_days * 86400

-- the row of a session that starts now
unfoldable pub new_session : Context → ℕ → Option ℕ → AuthSession
unfolding refresh_expiry
new_session x user_id access_key_id = record {
  id = x.session_id;
  user_id = user_id;
  access_key_id = access_key_id;
  refresh_jti_hash = x.crypto.digest x.refresh_jti;
  expires_at = refresh_expiry x;
  revoked_at = none;
  replaced_by = none;
}

unfoldable pub generate_tokens : Context → ℕ → Tokens
generate_tokens x user_id = record {
  user_id = user_id;
  session_id = x.session_id;
  refresh_jti = x.refresh_jti;
}

unfoldable pub start_session : Context → ℕ → Option ℕ → Exec Tokens
unfolding generate_tokens
start_session x user_id access_key_id = do
  rollback_on_error (do Repository.create (new_session x user_id access_key_id); commit)
  pure (generate_tokens x user_id)

-- the password of an account is there and verifies
abbrev pub password_fits : Crypto → String → Option String → Bool
password_fits c plain none = false
password_fits c plain (some hashed) = c.verify plain hashed

abbrev pub is_live_user : Option User → Bool
is_live_user none = false
is_live_user (some u) = u.is_active

unfoldable pub authenticate_found : Context → String → Option User → Exec (User × Tokens)
authenticate_found x password none = raise Error.invalid_auth_credentials
authenticate_found x password (some u) = do
  raise_if (not u.is_active) Error.invalid_auth_credentials
  raise_if (not (password_fits x.crypto password u.password)) Error.invalid_auth_credentials
  tokens ← start_session x u.id none
  pure (u, tokens)

unfoldable pub authenticate : Context → String → String → Exec (User × Tokens)
authenticate x email password = do
  raise_if (not (allows_password x.config.auth.mode))
      (Error.capability_disabled "password_login_disabled")
  user ← get_user_by_email email
  authenticate_found x password user

-- `await rollback(); raise InvalidAuthCredentials()`
unfoldable pub refuse {ℓ} : {A : Type ℓ} → Exec A
refuse = do rollback; raise Error.invalid_auth_credentials

unfoldable pub login_owner : Context → AccessKey → Option User → Exec (User × Tokens)
unfolding refuse
login_owner x key none = refuse
login_owner x key (some u) =
    if u.is_active
    then (do mark_key_used key x.now; tokens ← start_session x u.id (some key.id); pure (u, tokens))
    else refuse

unfoldable pub login_key : Context → Option AccessKey → Exec (User × Tokens)
unfolding refuse
login_key x none = refuse
login_key x (some key) =
    if is_none key.revoked_at
    then (do user ← get_user_by_id key.user_id; login_owner x key user)
    else refuse

unfoldable pub authenticate_key : Context → String → Exec (User × Tokens)
authenticate_key x secret = do
  raise_if (not (allows_key x.config.auth.mode)) (Error.capability_disabled "key_login_disabled")
  key ← get_access_key_for_update (x.crypto.digest secret)
  login_key x key

-- the condition of `rotate`, negated: the refresh token is that of a session in force
unfoldable pub may_rotate : Context → ℕ → String → AuthSession → Bool
may_rotate x user_id jti a =
    a.user_id == user_id
    && (is_none a.revoked_at
        && (not (leb a.expires_at x.now) && a.refresh_jti_hash == x.crypto.digest jti))

-- `session.revoked_at = now; session.replaced_by = new_session_id`, with the flush
unfoldable pub retire : Context → AuthSession → Exec (Unit {0})
retire x a = on_sessions (
    update_where (is_session a.id)
      λ b. record b { revoked_at = some x.now; replaced_by = some x.session_id })

unfoldable pub rotate_session : Context → ℕ → String → Option AuthSession → Exec Tokens
unfolding refuse generate_tokens
rotate_session x user_id jti none = refuse
rotate_session x user_id jti (some a) =
    if may_rotate x user_id jti a
    then (do
      rollback_on_error
          (do Repository.create (new_session x user_id a.access_key_id); retire x a; commit)
      pure (generate_tokens x user_id))
    else refuse

-- the result of `_parse_payload`
abbrev pub parsed : TokenPayload → Option (ℕ × ℕ × String)
parsed payload = elim payload.sub [
  | none ↦ none
  | some user_id ↦ elim payload.sid [
    | none ↦ none
    | some session_id ↦
        if is_empty payload.jti then none else some (user_id, session_id, payload.jti)
  ]
]

unfoldable pub rotate_parsed : Context → Option (ℕ × ℕ × String) → Exec Tokens
rotate_parsed x none = raise Error.invalid_auth_credentials
rotate_parsed x (some (user_id, session_id, jti)) = do
  user ← get_user_by_id user_id
  raise_if (not (is_live_user user)) Error.invalid_auth_credentials
  session ← Repository.get session_id
  rotate_session x user_id jti session

unfoldable pub rotate : Context → TokenPayload → Exec Tokens
rotate x payload = rotate_parsed x (parsed payload)

-- the condition of `revoke`
abbrev pub may_revoke : ℕ → AuthSession → Bool
may_revoke user_id a = a.user_id == user_id && is_none a.revoked_at

unfoldable pub revoke_session : ℕ → ℕ → Option AuthSession → Exec (Unit {0})
revoke_session now user_id none = rollback
revoke_session now user_id (some a) =
    if may_revoke user_id a
    then (do
      on_sessions (update_where (is_session a.id) λ b. record b { revoked_at = some now })
      commit)
    else rollback

unfoldable pub revoke_parsed : ℕ → Option ℕ → Option ℕ → Exec (Unit {0})
revoke_parsed now (some user_id) (some session_id) = do
  session ← Repository.get session_id
  revoke_session now user_id session
revoke_parsed now _ _ = raise Error.invalid_auth_credentials

unfoldable pub revoke : ℕ → TokenPayload → Exec (Unit {0})
revoke now payload = revoke_parsed now payload.sub payload.sid
