-- ===== src/Auth/Login.antt =====
-- `authenticate` and `authenticate_key`: who gets in, and what the tokens then open.
use fuze.Prelude.{ℕ, ◌<◌, ◌≤◌, ◌≡◌, Option, some, List, [], ◌∷◌, ◌++◌, nat_eq, string_eq}
use fuze.Core.Errors.{Error}
use fuze.Core.Result.{Result, ok, err}
use fuze.Database.Exec.{◌>>◌}
use fuze.Users.Repository.{get_user_by_email as email_lookup}
use fuze.Users.Service.{get_user_by_email}
use fuze.Auth.Models.{AuthSession}
use fuze.Auth.Repository
use fuze.Auth.Service.{Context, TokenPayload, Tokens, new_session}
use fuze.Auth.Access.{AccessToken}

-- the sessions with one more
abbrev pub opened : Context → ℕ → Option ℕ → List AuthSession → List AuthSession
opened x u key sessions = sessions ++ new_session x u key ∷ []

-- the payload of the tokens that were handed out
abbrev payload_of : Tokens → TokenPayload
payload_of t = record { sub = some t.user_id; sid = some t.session_id; jti = t.refresh_jti }

-- what AuthX promises of `access_token_required`: it passes on the claims of a token that it signed
-- until `exp` and refuses it from then on
pub record IsAuthx (required : ℕ → AccessToken → Result TokenPayload) : Type 0 where
  pub passes : (now : ℕ) (a : AccessToken) → now < a.expires_at → required now a ≡ ok a.claims
  pub refuses :
      (now : ℕ) (a : AccessToken) → a.expires_at ≤ now → (e : Error) × (required now a ≡ err e)
