-- ===== src/Cli/Import.antt =====
-- What `import-legacy-config` of cli/commands/rescue.py stores.
use fuze.Prelude.{
  ℕ, suc, String, ◌≡◌, refl, ◌∙◌, ap, Bool, true, false, ◌&&◌, not, Option, none, some, List, [],
  ◌∷◌, ◌++◌, ◌||◌, arith, Bool-cases, Option-cases, inl, inr, ◌==◌, nat_eq, string_eq, length,
  if◌then◌else◌,
}
use fuze.Prelude.Texts.{is_empty}
use fuze.Core.Config.{FuzeConfig}
use fuze.Database.Tables.{Db}
use fuze.Database.Sql.{update_where, select_one, exists_row}
use fuze.Admin.Models.{InstanceSettings, InstanceSecret}
use fuze.Admin.Service.{has_name, configured}
use fuze.Cli.Command.{HasFailed, Ended, transaction, ◌>>=◌}
use fuze.Cli.Legacy.{
  upsert_secret, import_secrets, legacy_credentials, import_legacy_config, next_settings,
  import_diff,
}

abbrev pub secret_of : String → List InstanceSecret → Option InstanceSecret
secret_of n = select_one (has_name n)

select_one-renewed :
    (n name c : String) (ss : List InstanceSecret)
    → secret_of n (update_where (has_name name) (λ s. record s { ciphertext = c }) ss) ≡ (
        if name == n
        then (if configured name ss then some (record { name = name; ciphertext = c }) else none)
        else secret_of n ss)
unfolding select_one update_where exists_row
select_one-renewed n name c [] = ground arith
select_one-renewed n name c (s ∷ ss) = ground (
  arith,
  string_eq.test_iff s.name name,
  string_eq.test_iff s.name n,
  string_eq.test_iff name n,
  select_one-renewed n name c ss,
)

select_one-added :
    (n : String) (ss : List InstanceSecret) (s : InstanceSecret)
    → configured s.name ss ≡ false
    → secret_of n (ss ++ s ∷ []) ≡ (if s.name == n then some s else secret_of n ss)
unfolding select_one exists_row
select_one-added n [] s new = ground arith
select_one-added n (r ∷ ss) s new = ground (
  arith,
  string_eq.test_iff r.name s.name,
  string_eq.test_iff s.name n,
  string_eq.test_iff r.name n,
  new,
  select_one-added n ss s,
)

-- an upsert is read back under its name, and leaves the other names alone
secret_of-upsert :
    (n name c : String) (ss : List InstanceSecret)
    → secret_of n (upsert_secret name c ss)
      ≡ (if name == n then some (record { name = name; ciphertext = c }) else secret_of n ss)
unfolding upsert_secret
secret_of-upsert n name c ss = elim (Bool-cases (configured name ss)) [
  | inl old ↦ rw old (rw (select_one-renewed n name c ss) (rw old refl))
  | inr new ↦ rw new (select_one-added n ss (record { name = name; ciphertext = c }) new)
]

-- what the credentials of the file leave under a name, where `old` was there
abbrev pub imported_as :
    (String → String)
    → String
    → List (String × Option String)
    → Option InstanceSecret
    → Option InstanceSecret
imported_as encrypt n [] old = old
imported_as encrypt n ((name, none) ∷ cs) old = imported_as encrypt n cs old
imported_as encrypt n ((name, some value) ∷ cs) old = imported_as encrypt n cs (
    if not (is_empty value) && name == n
    then some (record { name = name; ciphertext = encrypt value })
    else old)

import_secrets-imported :
    (encrypt : String → String) (n : String) (cs : List (String × Option String))
    (ss : List InstanceSecret)
    → secret_of n (import_secrets encrypt cs ss).0 ≡ imported_as encrypt n cs (secret_of n ss)
unfolding import_secrets
import_secrets-imported encrypt n [] ss = refl
import_secrets-imported encrypt n ((name, none) ∷ cs) ss = import_secrets-imported encrypt n cs ss
import_secrets-imported encrypt n ((name, some value) ∷ cs) ss =
    elim (Bool-cases (is_empty value)) [
      | inl blank ↦ rw blank (import_secrets-imported encrypt n cs ss)
      | inr filled ↦ rw filled (
          import_secrets-imported encrypt n cs (upsert_secret name (encrypt value) ss)
          ∙ ap (imported_as encrypt n cs) (secret_of-upsert n name (encrypt value) ss))
    ]

-- the names whose credential is there and is not empty
abbrev pub present : List (String × Option String) → List String
present [] = []
present ((name, none) ∷ cs) = present cs
present ((name, some value) ∷ cs) = if is_empty value then present cs else name ∷ present cs

import_secrets-names :
    (encrypt : String → String) (cs : List (String × Option String)) (ss : List InstanceSecret)
    → (import_secrets encrypt cs ss).1 ≡ present cs
unfolding import_secrets
import_secrets-names encrypt [] ss = refl
import_secrets-names encrypt ((name, none) ∷ cs) ss = import_secrets-names encrypt cs ss
import_secrets-names encrypt ((name, some value) ∷ cs) ss = elim (Bool-cases (is_empty value)) [
  | inl blank ↦ rw blank (import_secrets-names encrypt cs ss)
  | inr filled ↦ rw filled (
      ap (λ names. name ∷ names)
        (import_secrets-names encrypt cs (upsert_secret name (encrypt value) ss)))
]

-- how `import_legacy_config` ended
pub data Import (encrypt : String → String) (toml : Option FuzeConfig)
    (env : List (String × String)) (replace : Bool) (d : Db) (out : Ended (ℕ × List String) × Db)
    : Type 0 where
  refused : HasFailed out.0 → out.1.committed ≡ d.committed → Import encrypt toml env replace d out
  stored :
      (row : InstanceSettings) (config : FuzeConfig) (names : List String)
      → toml ≡ some config
      → names ≡ present (legacy_credentials env)
      → d.committed.instance_settings ≡ some row
      → (((length d.committed.audits == 0) || replace) ≡ true)
      → out.0 ≡ Ended.done (suc row.version, names)
      → out.1.committed.instance_settings ≡ some (next_settings row config)
      → ((n : String)
          → secret_of n out.1.committed.instance_secrets
            ≡ imported_as encrypt n
                (legacy_credentials env)
                (secret_of n d.committed.instance_secrets))
      → out.1.committed.audits
        ≡ d.committed.audits
          ++ record { actor_id = none; config_version = suc row.version; diff = import_diff names }
            ∷ []
      → Import encrypt toml env replace d out

-- An import of a legacy configuration fails and commits nothing, or has found no edit before (or was told
-- to replace it), and has committed the next version of the settings and an audit record that names the
-- imported credentials; under each name the secret is the encrypted credential of the file where there is
-- one, and what it was otherwise.
pub import_legacy_config-Import :
    (encrypt : String → String) (toml : Option FuzeConfig) (env : List (String × String))
    (replace confirmed : Bool) (d : Db)
    → Import encrypt toml env replace d (import_legacy_config encrypt toml env replace confirmed d)
unfolding import_legacy_config ◌>>=◌ transaction
import_legacy_config-Import encrypt toml env replace confirmed d =
    elim (Bool-cases (replace && not confirmed)) [
      | inl cancelled ↦ rw cancelled (Import.refused tt refl)
      | inr asked ↦ elim (Option-cases toml) [
        | inl bad ↦ rw (asked, bad) (Import.refused tt refl)
        | inr (config, good) ↦
            elim (Bool-cases (not (length d.committed.audits == 0) && not replace)) [
              | inl edited ↦ rw (asked, good, edited) (Import.refused tt refl)
              | inr open_ ↦ elim (Option-cases d.committed.instance_settings) [
                | inl nothing ↦ rw (asked, good, open_) (simp nothing (Import.refused tt refl))
                | inr (row, found) ↦
                    rw (asked, good, open_)
                      (simp found (
                        Import.stored row config _ refl
                          (import_secrets-names encrypt (legacy_credentials env)
                            d.committed.instance_secrets)
                          found (ground (arith, open_)) refl refl
                          (λ n.
                            import_secrets-imported encrypt n (legacy_credentials env)
                              d.committed.instance_secrets)
                          refl))
              ]
            ]
      ]
    ]
