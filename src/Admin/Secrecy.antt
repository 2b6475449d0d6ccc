-- ===== src/Admin/Secrecy.antt =====
-- The credentials in `ConfigService.update` of modules/admin/service.py: what an administrator and
-- the audit see of them.
use fuze.Prelude.{
  ℕ, ◌≡◌, refl, sym, ap, ◌∙◌, String, Option, none, some, List, [], ◌∷◌, ◌++◌, map, arith,
  Bool-cases, Option-cases, inl, inr, not, suc, ◌==◌, nat_eq,
}
use fuze.Prelude.Texts.{strip}
use fuze.Core.Config.{FuzeConfig, validate_config}
use fuze.Core.Errors.{Error}
use fuze.Core.Result.{Result, ok, err}
use fuze.Database.Tables.{Db}
use fuze.Database.Exec.{Exec, modify, lift, or_raise, raise_if, commit, ◌>>=◌, ◌>>◌}
use fuze.Database.Sql.{exists_row, update_where, delete_where}
use fuze.Admin.Models.{InstanceSettings, InstanceSecret, InstanceSettingsAudit}
use fuze.Admin.Json.{Change}
use fuze.Admin.Diff.{safe_diff, model_dump}
use fuze.Admin.Service.{
  CredentialWrite, SettingsWrite, SettingsRead, Pending, has_name, configured, read, app_config,
  write_credential, write_credentials, has_credentials, store_settings, write_settings,
  apply_update, update, version_conflict, not_initialized,
}

-- whether a credential is set, removed or left alone
abbrev pub masked_field : Option (Option String) → Option (Option String)
masked_field (some (some _)) = some (some "")
masked_field v = v

abbrev pub masked : Option CredentialWrite → Option CredentialWrite
masked none = none
masked (some c) = some (record {
  yandex_token = masked_field c.yandex_token;
  spotify_client_id = masked_field c.spotify_client_id;
  spotify_client_secret = masked_field c.spotify_client_secret;
})

-- a stored secret without its ciphertext
abbrev erase : InstanceSecret → InstanceSecret
erase s = record s { ciphertext = "" }

abbrev erased : Pending → Pending
erased w = (map erase w.0, w.1)

abbrev blank : String → String
blank _ = ""

configured-erase :
    (n : String) (ss : List InstanceSecret) → configured n (map erase ss) ≡ configured n ss
unfolding exists_row
configured-erase n [] = refl
configured-erase n (s ∷ ss) = rw (configured-erase n ss) refl

delete-erase :
    (n : String) (ss : List InstanceSecret)
    → map erase (delete_where (has_name n) ss) ≡ delete_where (has_name n) (map erase ss)
unfolding delete_where
delete-erase n [] = refl
delete-erase n (s ∷ ss) = ground (arith, delete-erase n ss)

set-erase :
    (n c : String) (ss : List InstanceSecret)
    → map erase (update_where (has_name n) (λ s. record s { ciphertext = c }) ss)
      ≡ update_where (has_name n) (λ s. record s { ciphertext = "" }) (map erase ss)
unfolding update_where
set-erase n c [] = refl
set-erase n c (s ∷ ss) = ground (arith, set-erase n c ss)

add-erase :
    (s : InstanceSecret) (ss : List InstanceSecret)
    → map erase (ss ++ s ∷ []) ≡ map erase ss ++ erase s ∷ []
add-erase s [] = refl
add-erase s (t ∷ ss) = ap (λ rest. erase t ∷ rest) (add-erase s ss)

write_credential-erased :
    (encrypt : String → String) (n : String) (v : Option (Option String)) (w : Pending)
    → erased (write_credential encrypt n v w) ≡ write_credential blank n (masked_field v) (erased w)
unfolding write_credential
write_credential-erased encrypt n none (ss, events) = refl
write_credential-erased encrypt n (some none) (ss, events) = elim (Bool-cases (configured n ss)) [
  | inl e ↦ rw (configured-erase n ss, e, delete-erase n ss) refl
  | inr e ↦ rw (configured-erase n ss, e) refl
]
write_credential-erased encrypt n (some (some value)) (ss, events) =
    elim (Bool-cases (configured n ss)) [
      | inl e ↦ rw (configured-erase n ss, e, set-erase n (encrypt (strip value)) ss) refl
      | inr e ↦ rw (configured-erase n ss, e, add-erase _ ss) refl
    ]

write_credentials-erased :
    (encrypt : String → String) (c : Option CredentialWrite) (ss : List InstanceSecret)
    → erased (write_credentials encrypt c ss) ≡ write_credentials blank (masked c) (map erase ss)
unfolding write_credentials
write_credentials-erased encrypt none ss = refl
write_credentials-erased encrypt (some c) ss =
    write_credential-erased encrypt _ c.spotify_client_secret _
    ∙ ap (write_credential blank _ (masked_field c.spotify_client_secret)) (
        write_credential-erased encrypt _ c.spotify_client_id _
        ∙ ap (write_credential blank _ (masked_field c.spotify_client_id))
            (write_credential-erased encrypt _ c.yandex_token (ss, [])))

has_credentials-erase :
    (config : FuzeConfig) (ss : List InstanceSecret)
    → has_credentials config.providers (map erase ss) ≡ has_credentials config.providers ss
unfolding has_credentials
has_credentials-erase config ss = simp (configured-erase)

-- what a user can see of a request: its answer, and the audit records
abbrev pub Seen : Type 0
Seen = Result SettingsRead × List InstanceSettingsAudit × List InstanceSettingsAudit

abbrev pub seen : Result SettingsRead × Db → Seen
seen out = (out.0, out.1.current.audits, out.1.committed.audits)

-- the end of `update`, after the credentials
abbrev finish :
    ℕ → SettingsWrite → InstanceSettings → FuzeConfig → Db → Pending → Result SettingsRead × Db
finish actor p row config d w =
    (lift (has_credentials config.providers w.0)
        >> (store_settings actor p.version config
              (safe_diff (model_dump row.settings) (model_dump config) ++ w.1)
            >> read))
      (record d { current = record d.current { instance_secrets = w.0 } })

-- the UPDATE of the settings once its row was read, the audit record, the commit and the answer
abbrev store_on :
    ℕ → ℕ → FuzeConfig → List (String × Change) → Option InstanceSettings → Exec SettingsRead
store_on actor version config diff o =
    (write_settings actor version config o
      >> (modify (λ s. record s {
        audits =
            s.audits
            ++ record { actor_id = some actor; config_version = suc version; diff = diff } ∷ [];
      })
          >> commit))
    >> read

store_on-erase :
    (actor version : ℕ) (config : FuzeConfig) (diff : List (String × Change)) (d : Db)
    (ss : List InstanceSecret) (o : Option InstanceSettings)
    → seen (
        store_on actor version config diff o
          (record d { current = record d.current { instance_secrets = map erase ss } }))
      ≡ seen (
          store_on actor version config diff o
            (record d { current = record d.current { instance_secrets = ss } }))
unfolding write_settings read
store_on-erase actor version config diff d ss none = refl
store_on-erase actor version config diff d ss (some old) =
    elim (Bool-cases (old.version == version)) [
      | inl e ↦ elim (Option-cases (validate_config config)) [
        | inl bad ↦ simp (e, bad)
        | inr (c, good) ↦ simp (e, good, configured-erase)
      ]
      | inr e ↦ simp e
    ]

finish-erased :
    (actor : ℕ) (p : SettingsWrite) (row : InstanceSettings) (config : FuzeConfig) (d : Db)
    (w : Pending) (c : Result Unit)
    → has_credentials config.providers w.0 ≡ c
    → seen (finish actor p row config d (erased w)) ≡ seen (finish actor p row config d w)
unfolding store_settings
finish-erased actor p row config d w (err e) checked =
    rw (has_credentials-erase config w.0, checked) refl
finish-erased actor p row config d w (ok _) checked =
    rw (has_credentials-erase config w.0, checked)
      (store_on-erase actor p.version config
        (safe_diff (model_dump row.settings) (model_dump config) ++ w.1) d w.0
        d.current.instance_settings)

module _ (encrypt other : String → String) (p : SettingsWrite) (c : Option CredentialWrite)
    (actor : ℕ) (d : Db) (alike : masked p.credentials ≡ masked c) where
  same_pending :
      erased (write_credentials encrypt p.credentials d.current.instance_secrets)
      ≡ erased (write_credentials other c d.current.instance_secrets)
  same_pending =
      write_credentials-erased encrypt p.credentials d.current.instance_secrets
      ∙ ap (λ m. write_credentials blank m (map erase d.current.instance_secrets)) alike
      ∙ sym (write_credentials-erased other c d.current.instance_secrets)

  apply_hides_values :
      (row : InstanceSettings) (config : FuzeConfig)
      → seen (apply_update encrypt p actor row config d)
        ≡ seen (apply_update other (record p { credentials = c }) actor row config d)
  unfolding apply_update
  apply_hides_values row config =
      let w = write_credentials encrypt p.credentials d.current.instance_secrets in
      let v = write_credentials other c d.current.instance_secrets in
      sym (finish-erased actor p row config d w _ refl)
      ∙ ap (λ x. seen (finish actor p row config d x)) same_pending
      ∙ finish-erased actor p row config d v _ refl

  config_hides_values :
      (row : InstanceSettings) (o : Option FuzeConfig)
      → seen ((or_raise o Error.value_error >>= apply_update encrypt p actor row) d)
        ≡ seen (
            (or_raise o Error.value_error
                >>= apply_update other (record p { credentials = c }) actor row)
              d)
  config_hides_values row none = refl
  config_hides_values row (some config) = apply_hides_values row config

  -- `update`, once the row was read
  abbrev on_row : (String → String) → SettingsWrite → InstanceSettings → Exec SettingsRead
  on_row f q row =
      raise_if (not (row.version == q.version)) version_conflict
      >> (or_raise (app_config q) Error.value_error >>= λ config. apply_update f q actor row config)

  row_hides_values :
      (o : Option InstanceSettings)
      → seen ((or_raise o not_initialized >>= on_row encrypt p) d)
        ≡ seen ((or_raise o not_initialized >>= on_row other (record p { credentials = c })) d)
  unfolding app_config
  row_hides_values none = refl
  row_hides_values (some row) = elim (Bool-cases (row.version == p.version)) [
    | inl same ↦ rw same (config_hides_values row (app_config p))
    | inr old ↦ rw old refl
  ]

-- The answer to a request to change the settings and the audit records do not depend on the values
-- of the credentials, nor on their encryption: two requests that agree but for these values, and
-- that set and remove the same credentials, show the same.
pub update_hides_values :
    (encrypt other : String → String) (p : SettingsWrite) (c : Option CredentialWrite) (actor : ℕ)
    (d : Db)
    → masked p.credentials ≡ masked c
    → seen (update encrypt p actor d) ≡ seen (update other (record p { credentials = c }) actor d)
unfolding update
update_hides_values encrypt other p c actor d alike =
    row_hides_values encrypt other p c actor d alike d.current.instance_settings
