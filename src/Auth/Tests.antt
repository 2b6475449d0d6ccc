-- ===== src/Auth/Tests.antt =====
-- A login by password, a rotation of its tokens and a logout.
use fuze.Prelude.{ℕ, ltb, Bool, ◌≡◌, refl, true, false, none, some, [], ◌∷◌, string_eq}
use fuze.Core.Errors.{Error}
use fuze.Core.Result.{Result, ok, err}
use fuze.Database.Tables.{Db}
use fuze.Database.Sql.{select_one, exists_row}
use fuze.Users.Repository.{get_user_by_id, get_user_by_email as email_lookup}
use fuze.Users.Service.{get_user_by_email}
use fuze.Auth.Models.{AuthSession}
use fuze.Auth.Repository
use fuze.Auth.Repository.{get}
use fuze.Auth.Service.{
  Context, TokenPayload, rotate, rotate_parsed, rotate_session, may_rotate, retire, new_session,
  generate_tokens, revoke,
}
use fuze.Auth.Access.{current_active_user, unauthorized, AccessToken}
use fuze.Auth.Guard.{Guarded, current_active_user-Guarded}
use fuze.Auth.Sessions.{rotate_once}
use fuze.Auth.Logout.{revoke_locks_out}
use fuze.Fixtures.{no_rows, settled_db, config, crypto, listener, stranger}

abbrev context : Context
context = record {
  config = config;
  crypto = crypto;
  now = 1000;
  refresh_days = 7;
  session_id = 50;
  refresh_jti = "b";
}

abbrev session : AuthSession
session = record {
  id = 40;
  user_id = 2;
  access_key_id = none;
  refresh_jti_hash = "a";
  expires_at = 5000;
  revoked_at = none;
  replaced_by = none;
}

abbrev store : Db
store =
    settled_db 20
      (record no_rows { users = listener ∷ stranger ∷ []; auth_sessions = session ∷ [] })

abbrev payload : TokenPayload
payload = record { sub = some 2; sid = some 40; jti = "a" }

rotated_one : (rotate context payload store).0 ≡ ok (generate_tokens context 2)
unfolding rotate rotate_parsed rotate_session may_rotate retire Repository.create get get_user_by_id
    select_one exists_row new_session
rotated_one = refl

rotate_once_example :
    (rotate context payload (rotate context payload store).1).0 ≡ err Error.invalid_auth_credentials
rotate_once_example =
    rotate_once context context payload store (generate_tokens context 2) rotated_one

revoke_locks_out_example :
    ((current_active_user 2000 payload (revoke 1000 payload store).1).0 ≡ err unauthorized)
    × ((rotate context payload (revoke 1000 payload store).1).0
        ≡ err Error.invalid_auth_credentials)
revoke_locks_out_example = revoke_locks_out 1000 2000 context payload store refl

-- a library that looks at the expiry alone
abbrev checked : Bool → AccessToken → Result TokenPayload
checked true a = ok a.claims
checked false a = err Error.invalid_auth_credentials

abbrev required : ℕ → AccessToken → Result TokenPayload
required now a = checked (ltb now a.expires_at) a

current_active_user-Guarded_example :
    Guarded 2000 payload store (current_active_user 2000 payload store)
current_active_user-Guarded_example = current_active_user-Guarded 2000 payload store
