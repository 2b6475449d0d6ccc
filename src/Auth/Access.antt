-- ===== src/Auth/Access.antt =====
-- core/dependencies.py: `current_active_user` and `require_role`, which stand in front of the
-- routes, with the access token that they are given.
use fuze.Prelude.{
  ℕ, ◌+◌, ◌*◌, Bool, true, false, ◌&&◌, ◌||◌, not, Option, none, some, List, [], ◌∷◌, leb, ◌==◌,
  is_none, nat_eq,
}
use fuze.Core.Config.{UserRole, is_admin}
use fuze.Core.Errors.{Error}
use fuze.Core.Result.{Result, ok, err}
use fuze.Database.Exec.{Exec, pure, raise, raise_if, or_raise, ◌>>=◌, ◌>>◌}
use fuze.Users.Models.{User}
use fuze.Users.Repository.{get_user_by_id}
use fuze.Auth.Models.{AuthSession}
use fuze.Auth.Repository
use fuze.Auth.Service.{TokenPayload, Tokens, is_live_user}

abbrev pub unauthorized : Error
unauthorized = Error.http_exception 401 "Invalid authentication credentials"

-- the condition on the session, negated
unfoldable pub in_force : ℕ → ℕ → Option AuthSession → Bool
in_force now user_id none = false
in_force now user_id (some a) =
    a.user_id == user_id && (is_none a.revoked_at && not (leb a.expires_at now))

unfoldable pub admit : ℕ → ℕ → ℕ → Exec User
unfolding in_force
admit now user_id session_id = do
  found ← get_user_by_id user_id
  raise_if (not (is_live_user found)) unauthorized
  user ← or_raise found unauthorized
  session ← Repository.get session_id
  raise_if (not (in_force now user_id session)) unauthorized
  pure user

unfoldable pub admit_parsed : ℕ → Option ℕ → Option ℕ → Exec User
admit_parsed now (some user_id) (some session_id) = admit now user_id session_id
admit_parsed now _ _ = raise unauthorized

-- the payload is one that `access_token_required` returned
unfoldable pub current_active_user : ℕ → TokenPayload → Exec User
current_active_user now payload = admit_parsed now payload.sub payload.sid

-- an access token: the claims that AuthX signs, and `exp`
pub record AccessToken : Type 0 where
  pub claims : TokenPayload
  pub expires_at : ℕ

-- the access token of `generate_tokens`, which JWT_ACCESS_TOKEN_EXPIRES bounds:
-- ACCESS_TOKEN_EXPIRES minutes
unfoldable pub create_access_token : ℕ → ℕ → Tokens → AccessToken
create_access_token access_minutes now t = record {
  claims = record { sub = some t.user_id; sid = some t.session_id; jti = t.refresh_jti };
  expires_at = now + access_minutes * 60;
}

unfoldable pub admit_verified : ℕ → Result TokenPayload → Exec User
admit_verified now (ok payload) = current_active_user now payload
admit_verified now (err e) = raise e

-- the route's dependency: AuthX's `access_token_required` at this time, an argument, and then the guard
unfoldable pub guarded_user : (ℕ → AccessToken → Result TokenPayload) → ℕ → AccessToken → Exec User
guarded_user access_token_required now token = admit_verified now (access_token_required now token)

abbrev pub role_beq : UserRole → UserRole → Bool
role_beq UserRole.admin UserRole.admin = true
role_beq UserRole.user UserRole.user = true
role_beq _ _ = false

abbrev pub role_in : UserRole → List UserRole → Bool
role_in r [] = false
role_in r (x ∷ xs) = role_beq x r || role_in r xs

-- an administrator may do what a user may
unfoldable pub role_allowed : List UserRole → UserRole → Bool
role_allowed roles r = role_in r roles || (role_in UserRole.user roles && is_admin r)

unfoldable pub require_role : List UserRole → User → Exec User
unfolding role_allowed
require_role roles user = do
  raise_if (not (role_allowed roles user.role)) (Error.http_exception 403 "Forbidden")
  pure user
