-- ===== src/Cli/Recovery.antt =====
-- What the commands of cli/commands/rescue.py that replace a credential do to the accounts, the keys and
-- the sessions of the instance.
use mathlib.Core.Option
use fuze.Prelude.{
  ℕ, String, ◌≡◌, refl, ◌∙◌, ap, sym, Bool, true, ◌&&◌, Option, none, some, List, [], ◌∷◌, ◌++◌,
  arith, Bool-cases, Option-cases, inl, inr, ◌⊎◌, is_none, ◌==◌, nat_eq, string_eq,
}
use fuze.Prelude.Texts.{lower, join}
use fuze.Core.Errors.{Error}
use fuze.Core.Result.{Result, ok, err}
use fuze.Database.Tables.{Db}
use fuze.Database.Sql.{update_where, select_one}
use fuze.Database.Sql.Laws.{select_one-update_where, updated}
use fuze.Users.Models.{User}
use fuze.Users.Repository.{is_user, create_access_key}
use fuze.Users.Service.{Crypto}
use fuze.Users.Outcomes.{key_clash, new_key, key-free, key-taken}
use mathlib.Core.Path.{subst}
use fuze.Auth.Models.{AccessKey, AuthSession}
use fuze.Auth.Repository.{is_session}
use fuze.Auth.Service.{Context, rotate}
use fuze.Auth.Access.{current_active_user, admit_parsed, unauthorized}
use fuze.Auth.Sessions.{session_at}
use fuze.Auth.Logout.{is_closed, admit-closed, rotate-closed}
use fuze.Cli.Command.{HasFailed, Ended, transaction, statement, pure, ◌>>=◌}
use fuze.Cli.Rescue.{
  Typed, read_password, trimmed, of_user, is_admin_named, reset_admin_password, reset_access_key,
  replace_key,
}

-- the sessions after those of a user were revoked
abbrev pub revoked : ℕ → ℕ → List AuthSession → List AuthSession
revoked now u = update_where (of_user u) λ a. record a { revoked_at = some now }

updated-closed :
    (now u : ℕ) (o : Option AuthSession)
    → is_closed u (Option.map (updated (of_user u) (λ a. record a { revoked_at = some now })) o)
      ≡ true
updated-closed now u none = refl
updated-closed now u (some a) = ground arith

revoked-closed :
    (now u s : ℕ) (rows : List AuthSession)
    → is_closed u (select_one (is_session s) (revoked now u rows)) ≡ true
revoked-closed now u s rows =
    rw
      (select_one-update_where (is_session s) (of_user u) (λ a. record a { revoked_at = some now })
        (λ a. refl) rows)
      (updated-closed now u (select_one (is_session s) rows))

-- the tokens of every session of the user are refused, by the guards and by the rotation
abbrev pub LockedOut : ℕ → Db → Type 0
LockedOut u d =
    (later s : ℕ) (jti : String) (y : Context)
    → ((current_active_user later (record { sub = some u; sid = some s; jti = jti }) d).0
        ≡ err unauthorized)
      × ((rotate y (record { sub = some u; sid = some s; jti = jti }) d).0
          ≡ err Error.invalid_auth_credentials)

revoked-LockedOut :
    (now u : ℕ) (d : Db) (rows : List AuthSession)
    → d.current.auth_sessions ≡ revoked now u rows
    → LockedOut u d
unfolding current_active_user admit_parsed
revoked-LockedOut now u d rows e later s jti y =
    let closed : is_closed u (session_at s d) ≡ true =
      ap (λ xs. is_closed u (select_one (is_session s) xs)) e ∙ revoked-closed now u s rows in
    (admit-closed later u s d closed, rotate-closed y u s jti d closed)

-- the users after the password of an administrator was replaced
abbrev pub with_password : String → String → List User → List User
with_password address hashed =
    update_where (is_admin_named address) λ u. record u { password = some hashed }

-- how `reset_admin_password` ended
pub data PasswordReset (valid : String → Option String) (hash : String → String) (now : ℕ)
    (email : String) (typed : Typed) (d : Db) (out : Ended User × Db) : Type 0 where
  invalid :
      ((valid email ≡ none) ⊎ (read_password typed ≡ none))
      → out ≡ (Ended.exited 2 "invalid_input", d)
      → PasswordReset valid hash now email typed d out
  no_admin :
      (address : String)
      → valid email ≡ some address
      → select_one (is_admin_named (lower address)) d.committed.users ≡ none
      → out.0 ≡ Ended.exited 3 "admin_not_found"
      → out.1.committed ≡ d.committed
      → PasswordReset valid hash now email typed d out
  replaced :
      (address password : String) (u : User)
      → valid email ≡ some address
      → read_password typed ≡ some password
      → select_one (is_admin_named (lower address)) d.committed.users ≡ some u
      → out.0 ≡ Ended.done u
      → out.1.committed ≡ record d.committed {
        users = with_password (lower address) (hash password) d.committed.users;
        auth_sessions = revoked now u.id d.committed.auth_sessions;
      }
      → LockedOut u.id out.1
      → PasswordReset valid hash now email typed d out

-- A reset of a password refuses an invalid address or password, and an address that no active
-- administrator has, and commits nothing then; otherwise it stores the hash of the new password, and no
-- session that the administrator had opens anything any more.
pub reset_admin_password-PasswordReset :
    (valid : String → Option String) (c : Crypto) (now : ℕ) (email : String) (typed : Typed)
    (d : Db)
    → PasswordReset valid c.hash now email typed d (reset_admin_password valid c now email typed d)
unfolding reset_admin_password ◌>>=◌ transaction
reset_admin_password-PasswordReset valid c now email typed d = elim (Option-cases (valid email)) [
  | inl bad ↦ rw bad (PasswordReset.invalid (inl bad) refl)
  | inr (address, good) ↦ elim (Option-cases (read_password typed)) [
    | inl bad ↦ rw (good, bad) (PasswordReset.invalid (inr bad) refl)
    | inr (password, read) ↦
        elim (Option-cases (select_one (is_admin_named (lower address)) d.committed.users)) [
          | inl nobody ↦
              rw (good, read, nobody) (PasswordReset.no_admin address good nobody refl refl)
          | inr (u, found) ↦
              rw (good, read, found)
                (PasswordReset.replaced address password u good read found refl refl
                  (revoked-LockedOut now u.id _ d.committed.auth_sessions refl))
        ]
  ]
]

-- the keys after those of a user were revoked
abbrev pub keys_revoked : ℕ → ℕ → List AccessKey → List AccessKey
keys_revoked now u =
    update_where (λ k. k.user_id == u && is_none k.revoked_at)
      (λ k. record k { revoked_at = some now })

-- how `reset_access_key` ended
pub data KeyReset (c : Crypto) (now user_id : ℕ) (d : Db) (out : Ended (AccessKey × String) × Db)
    : Type 0 where
  refused : HasFailed out.0 → out.1.committed ≡ d.committed → KeyReset c now user_id d out
  issued :
      (u : User) (key : AccessKey) (secret : String)
      → select_one (is_user user_id) d.committed.users ≡ some u
      → u.is_active ≡ true
      → out.0 ≡ Ended.done (key, secret)
      → key.user_id ≡ user_id
      → key.revoked_at ≡ none
      → key.key_hash ≡ c.digest secret
      → out.1.committed ≡ record d.committed {
        access_keys = keys_revoked now user_id d.committed.access_keys ++ key ∷ [];
        auth_sessions = revoked now user_id d.committed.auth_sessions;
      }
      → LockedOut user_id out.1
      → KeyReset c now user_id d out

-- the database once the old credentials of a user are revoked
abbrev stripped : ℕ → ℕ → Db → Db
stripped now u d = record d {
  current = record d.committed {
    access_keys = keys_revoked now u d.committed.access_keys;
    auth_sessions = revoked now u d.committed.auth_sessions;
  };
}

-- what follows the INSERT of the key
abbrev issue : String → Result AccessKey × Db → Ended (AccessKey × String) × Db
issue secret (ok key, d) = (Ended.done (key, secret), record d { committed = d.current })
issue secret (err e, d) = (Ended.crashed e, record d { current = d.committed })

transaction-issue :
    (secret : String) (out : Result AccessKey × Db) (d : Db)
    → transaction (statement (λ _. out) >>= λ key. pure (key, secret)) d ≡ issue secret out
unfolding transaction ◌>>=◌
transaction-issue secret (ok key, e) d = refl
transaction-issue secret (err x, e) d = refl

module _ (c : Crypto) (now key_id : ℕ) (token : String) (user_id : ℕ) (d : Db) where
  abbrev secret : String
  secret = join "fuze_" token

  replace_key-issue :
      (name : String)
      → transaction (replace_key c now key_id token user_id name) d
        ≡ issue secret
            (create_access_key key_id user_id name (c.digest secret) (stripped now user_id d))
  unfolding replace_key ◌>>=◌ transaction
  replace_key-issue name =
      transaction-issue secret
        (create_access_key key_id user_id name (c.digest secret) (stripped now user_id d)) d

  replace_key-KeyReset :
      (name : String) (u : User)
      → select_one (is_user user_id) d.committed.users ≡ some u
      → u.is_active ≡ true
      → KeyReset c now user_id d (transaction (replace_key c now key_id token user_id name) d)
  replace_key-KeyReset name u found live =
      let held = stripped now user_id d in
      let hash = c.digest secret in
      subst (KeyReset c now user_id d) (sym (replace_key-issue name))
        (elim (Bool-cases (key_clash key_id user_id hash held.current)) [
          | inl clash ↦
              rw (key-taken key_id user_id name hash held clash) (KeyReset.refused tt refl)
          | inr free ↦ rw (key-free key_id user_id name hash held free) (
              KeyReset.issued u (new_key key_id user_id name hash) secret found live refl refl refl
                refl refl (revoked-LockedOut now user_id _ d.committed.auth_sessions refl))
        ])

-- A reset of an access key refuses an inactive or unknown user, and commits nothing then; otherwise it
-- issues a key of the user in force, all older keys of the user are revoked, and no session that the user
-- had opens anything any more.
pub reset_access_key-KeyReset :
    (c : Crypto) (now key_id : ℕ) (token : String) (user_id : ℕ) (label : String) (confirmed : Bool)
    (d : Db)
    → KeyReset c now user_id d (reset_access_key c now key_id token user_id label confirmed d)
unfolding reset_access_key ◌>>=◌ transaction
reset_access_key-KeyReset c now key_id token user_id label confirmed d =
    elim (Option-cases (trimmed label)) [
      | inl bad ↦ rw bad (KeyReset.refused tt refl)
      | inr (name, good) ↦ elim (Bool-cases confirmed) [
        | inr cancelled ↦ rw (good, cancelled) (KeyReset.refused tt refl)
        | inl agreed ↦ elim (Option-cases (select_one (is_user user_id) d.committed.users)) [
          | inl nobody ↦ rw (good, agreed, nobody) (KeyReset.refused tt refl)
          | inr (u, found) ↦ elim (Bool-cases u.is_active) [
            | inr dead ↦ rw (good, agreed, found) (simp dead (KeyReset.refused tt refl))
            | inl live ↦
                rw (good, agreed, found)
                  (simp live (replace_key-KeyReset c now key_id token user_id d name u found live))
          ]
        ]
      ]
    ]
