-- ===== src/Auth/Repository.antt =====
-- modules/auth/repository.py: the methods of `AuthSessionRepository`.
use fuze.Prelude.{
  ℕ, String, Bool, false, ◌&&◌, ◌||◌, not, Option, none, some, List, [], ◌∷◌, ◌++◌, ◌==◌, is_equal,
  is_none, nat_eq, string_eq,
}
use fuze.Core.Errors.{Error}
use fuze.Database.Exec.{Exec, gets, raise_if, modify, ◌>>=◌, ◌>>◌}
use fuze.Database.Sql.{update_where, select_one, exists_row}
use fuze.Users.Repository.{is_user}
use fuze.Auth.Models.{AccessKey, AuthSession}

abbrev pub on_sessions : (List AuthSession → List AuthSession) → Exec (Unit {0})
on_sessions f = modify (λ s. record s { auth_sessions = f s.auth_sessions })

abbrev pub is_session : ℕ → AuthSession → Bool
is_session i a = a.id == i

abbrev pub has_key_hash : String → AccessKey → Bool
has_key_hash key_hash k = k.key_hash == key_hash

-- the foreign key on `access_keys`, which NULL passes
abbrev pub key_missing : Option ℕ → List AccessKey → Bool
key_missing none ks = false
key_missing (some i) ks = not (exists_row (λ (k : AccessKey). k.id == i) ks)

-- INSERT of a session: the primary key, the unique hash and the foreign keys are checked
unfoldable pub create : AuthSession → Exec (Unit {0})
create session = do
  taken ← gets (λ s.
      exists_row
        (λ (a : AuthSession). a.id == session.id || a.refresh_jti_hash == session.refresh_jti_hash)
        s.auth_sessions)
  owner ← gets (λ s. exists_row (is_user session.user_id) s.users)
  dangling ← gets (λ s. key_missing session.access_key_id s.access_keys)
  raise_if (taken || (not owner || dangling)) Error.integrity_error
  on_sessions (λ sessions. sessions ++ session ∷ [])

-- `get_for_update` and `get`
unfoldable pub get : ℕ → Exec (Option AuthSession)
get session_id = gets (λ s. select_one (is_session session_id) s.auth_sessions)

unfoldable pub get_access_key_for_update : String → Exec (Option AccessKey)
get_access_key_for_update key_hash = gets (λ s. select_one (has_key_hash key_hash) s.access_keys)

unfoldable pub mark_key_used : AccessKey → ℕ → Exec (Unit {0})
mark_key_used key used_at = modify λ s. record s {
  access_keys =
      update_where (λ (k : AccessKey). k.id == key.id)
        (λ k. record k { last_used_at = some used_at }) s.access_keys;
}

-- the WHERE clause of `revoke_sessions_for_key`
unfoldable pub of_live_key : ℕ → AuthSession → Bool
of_live_key key_id a = is_equal a.access_key_id key_id && is_none a.revoked_at

unfoldable pub revoke_sessions_for_key : ℕ → ℕ → Exec (Unit {0})
unfolding of_live_key
revoke_sessions_for_key key_id revoked_at =
    on_sessions (update_where (of_live_key key_id) λ a. record a { revoked_at = some revoked_at })
