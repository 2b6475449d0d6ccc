-- ===== src/Admin/Update.antt =====
-- What `update` and the cache of modules/admin/service.py leave behind.
use mathlib.Core.Path.{subst}
use fuze.Prelude.{
  ℕ, suc, ◌+◌, ◌<◌, String, ◌≡◌, refl, ◌∙◌, sym, Bool, true, false, not, Option, none, some, List,
  map, [], ◌∷◌, ◌++◌, arith, ltb, ltb→lt, ◌==◌, nat_eq, Bool-cases, inl, inr,
}
use fuze.Core.Config.{FuzeConfig, validate_config}
use fuze.Core.Config.Stored.{validate_config_again}
use fuze.Core.Errors.{Error}
use fuze.Core.Result.{Result, ok, err}
use fuze.Database.Tables.{Tables, Db}
use fuze.Database.Exec.{Exec, or_raise, raise_if, ◌>>=◌, ◌>>◌}
use fuze.Database.Exec.Laws.{seq-ok}
use fuze.Admin.Json.{Change}
use fuze.Admin.Models.{InstanceSettings, InstanceSecret}
use fuze.Admin.Diff.{safe_diff, model_dump}
use fuze.Admin.Service.{
  SettingsWrite, SettingsRead, app_config, write_credentials, has_credentials, write_settings,
  store_settings, apply_update, update, read, version_conflict, not_initialized, configured,
  secret_names,
}
use fuze.Admin.Cache.{ConfigSnapshot, Cache, load, get_snapshot, cache_hit, serve}

-- the tables after the UPDATE and the audit record
abbrev pub next_settings : ℕ → ℕ → FuzeConfig → List (String × Change) → Tables → Tables
next_settings actor version config diff s = record s {
  instance_settings =
      some (record { version = suc version; settings = config; updated_by = some actor });
  audits =
      s.audits ++ record { actor_id = some actor; config_version = suc version; diff = diff } ∷ [];
}

-- a database with everything committed
abbrev pub with_tables : Db → Tables → Db
with_tables d s = record d { current = s; committed = s }

module _ (actor version : ℕ) (config : FuzeConfig) (diff : List (String × Change)) (d : Db)
    (row : InstanceSettings) (found : d.current.instance_settings ≡ some row) where
  store-next :
      row.version == version ≡ true
      → store_settings actor version config diff d
        ≡ (ok tt, with_tables d (next_settings actor version config diff d.current))
  unfolding store_settings write_settings
  store-next same = rw found (simp same refl)

  -- An UPDATE that meets another version than the one that was read changes nothing: what the
  -- session had written is rolled back.
  pub store-conflict :
      row.version == version ≡ false
      → store_settings actor version config diff d
        ≡ (err version_conflict, record d { current = d.committed })
  unfolding store_settings write_settings
  store-conflict other = rw found (simp other refl)

abbrev shown : InstanceSettings → List InstanceSecret → SettingsRead
shown row secrets = record {
  version = row.version;
  updated_by = row.updated_by;
  config = row.settings;
  credentials = map (λ name. (name, configured name secrets)) secret_names;
}

shown-read :
    (row : InstanceSettings) (d : Db)
    → d.current.instance_settings ≡ some row
    → validate_config row.settings ≡ some row.settings
    → read d ≡ (ok (shown row d.current.instance_secrets), d)
unfolding read
shown-read row d found valid = simp (found, valid) refl

-- the settings that a request stores are read as they were stored
app_config_again :
    (p : SettingsWrite) (config : FuzeConfig)
    → app_config p ≡ some config
    → validate_config config ≡ some config
unfolding app_config
app_config_again p config e =
    validate_config_again
      (record {
        instance_name = p.instance_name;
        auth = p.auth;
        features = p.features;
        providers = p.providers;
      })
      config e

-- how a request to change the settings ended
pub data Outcome (d : Db) (p : SettingsWrite) (actor : ℕ) (out : Result SettingsRead × Db)
    : Type 0 where
  -- it raised, and nothing was committed
  refused : (e : Error) → out.0 ≡ err e → out.1.committed ≡ d.committed → Outcome d p actor out
  -- it found the version that it expected, and committed the next one
  stored :
      (row : InstanceSettings) (config : FuzeConfig) (r : SettingsRead)
      → d.current.instance_settings ≡ some row
      → row.version ≡ p.version
      → app_config p ≡ some config
      → out.0 ≡ ok r
      → out.1.committed.instance_settings
        ≡ some (record { version = suc p.version; settings = config; updated_by = some actor })
      → has_credentials config.providers out.1.committed.instance_secrets ≡ ok tt
      → out.1.current ≡ out.1.committed
      → Outcome d p actor out

module _ (encrypt : String → String) (p : SettingsWrite) (actor : ℕ) (d : Db) where
  apply-Outcome :
      (row : InstanceSettings) (config : FuzeConfig) (c : Result (Unit {0}))
      → d.current.instance_settings ≡ some row
      → row.version ≡ p.version
      → app_config p ≡ some config
      → has_credentials config.providers
          (write_credentials encrypt p.credentials d.current.instance_secrets).0
        ≡ c
      → Outcome d p actor (apply_update encrypt p actor row config d)
  unfolding apply_update
  apply-Outcome row config (err e) found same named checked =
      Outcome.refused e (rw checked refl) (rw checked refl)
  apply-Outcome row config (ok _) found same named checked =
      let written = write_credentials encrypt p.credentials d.current.instance_secrets in
      let diff = safe_diff (model_dump row.settings) (model_dump config) ++ written.1 in
      let d' : Db = record d { current = record d.current { instance_secrets = written.0 } } in
      let after = next_settings actor p.version config diff d'.current in
      let run : apply_update encrypt p actor row config d ≡ (
        ok (
            shown (record { version = suc p.version; settings = config; updated_by = some actor })
              written.0),
        with_tables d after,
      ) =
        rw checked (
          seq-ok (store_settings actor p.version config diff) read d' (with_tables d after)
            (store-next actor p.version config diff d' row found (ground (arith, same)))
          ∙ shown-read
              (record { version = suc p.version; settings = config; updated_by = some actor })
              (with_tables d after) refl (app_config_again p config named)) in
      subst (Outcome d p actor) (sym run)
        (Outcome.stored row config _ found same named refl refl checked refl)

  config-Outcome :
      (row : InstanceSettings) (o : Option FuzeConfig)
      → d.current.instance_settings ≡ some row
      → row.version ≡ p.version
      → app_config p ≡ o
      → Outcome d p actor
          ((or_raise o Error.value_error >>= λ config. apply_update encrypt p actor row config) d)
  config-Outcome row none found same e = Outcome.refused Error.value_error refl refl
  config-Outcome row (some config) found same e = apply-Outcome row config _ found same e refl

  -- `update`, once the row was read
  abbrev on_row : InstanceSettings → Exec SettingsRead
  on_row row =
      raise_if (not (row.version == p.version)) version_conflict
      >> (or_raise (app_config p) Error.value_error >>= λ config.
          apply_update encrypt p actor row config)

  row-Outcome :
      (o : Option InstanceSettings)
      → d.current.instance_settings ≡ o
      → Outcome d p actor ((or_raise o not_initialized >>= on_row) d)
  row-Outcome none e = Outcome.refused not_initialized refl refl
  row-Outcome (some row) e = elim (Bool-cases (row.version == p.version)) [
    | inr other ↦ simp other (Outcome.refused version_conflict refl refl)
    | inl same ↦ simp same (config-Outcome row (app_config p) e (ground (arith, same)) refl)
  ]

-- A request to change the settings either raises and commits nothing, or found the version that it
-- expects and has committed its settings under the next version, as the change of this actor, and
-- with a credential for each provider that needs one.
pub update-Outcome :
    (encrypt : String → String) (p : SettingsWrite) (actor : ℕ) (d : Db)
    → Outcome d p actor (update encrypt p actor d)
unfolding update
update-Outcome encrypt p actor d = row-Outcome encrypt p actor d d.current.instance_settings refl

-- where a snapshot comes from
pub data Origin (decrypt : String → Option String) (fresh : Bool) (now : ℕ) (s : Tables) (c : Cache)
    (r : Result ConfigSnapshot) : Type 0 where
  from_tables : r ≡ load decrypt s → Origin decrypt fresh now s c r
  from_cache :
      (snapshot : ConfigSnapshot)
      → fresh ≡ false
      → c.snapshot ≡ some snapshot
      → now < c.cached_at + 5000
      → r ≡ ok snapshot
      → Origin decrypt fresh now s c r

hit-Origin :
    (decrypt : String → Option String) (now : ℕ) (s : Tables) (c : Cache)
    (snapshot : ConfigSnapshot)
    → cache_hit false now c ≡ some snapshot
    → Origin decrypt false now s c (ok snapshot)
unfolding cache_hit
hit-Origin decrypt now s c snapshot e = elim (Bool-cases (ltb now (c.cached_at + 5000))) [
  | inr old ↦ absurd (ground (arith, old, e))
  | inl recent ↦
      Origin.from_cache snapshot refl (ground (arith, recent, e))
        (ltb→lt now (c.cached_at + 5000) recent) refl
]

forced : (now : ℕ) (c : Cache) → cache_hit true now c ≡ none
unfolding cache_hit
forced now c = refl

serve-Origin :
    (decrypt : String → Option String) (fresh : Bool) (now : ℕ) (s : Tables) (c : Cache)
    (o : Option ConfigSnapshot)
    → cache_hit fresh now c ≡ o
    → Origin decrypt fresh now s c (serve decrypt now s c o).0
unfolding serve
serve-Origin decrypt fresh now s c none e = Origin.from_tables refl
serve-Origin decrypt false now s c (some snapshot) e = hit-Origin decrypt now s c snapshot e
serve-Origin decrypt true now s c (some snapshot) e = let f = forced now c in absurd (cc)

-- A snapshot is what the tables hold at the call, or the one in the cache, which is served only to
-- a call that does not ask for a fresh one and less than five seconds after it was cached.
pub get_snapshot-Origin :
    (decrypt : String → Option String) (fresh : Bool) (now : ℕ) (s : Tables) (c : Cache)
    → Origin decrypt fresh now s c (get_snapshot decrypt fresh now s c).0
unfolding get_snapshot
get_snapshot-Origin decrypt fresh now s c =
    serve-Origin decrypt fresh now s c (cache_hit fresh now c) refl
