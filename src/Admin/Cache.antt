-- ===== src/Admin/Cache.antt =====
-- `get_snapshot` and `invalidate_config_cache` of modules/admin/service.py. The cache is a variable of
-- the process; the clock is `time.monotonic()` in milliseconds.
use fuze.Prelude.{
  ℕ, ◌+◌, String, Bool, true, false, Option, none, some, List, [], ◌∷◌, ltb, if◌then◌else◌,
}
use fuze.Core.Config.{FuzeConfig, validate_config}
use fuze.Core.Errors.{Error}
use fuze.Core.Result.{Result, ok, err}
use fuze.Database.Tables.{Tables, Db}
use fuze.Admin.Models.{InstanceSecret}
use fuze.Admin.Service.{SettingsWrite, SettingsRead, update}

pub record ConfigSnapshot : Type 0 where
  pub version : ℕ
  pub config : FuzeConfig
  pub secrets : List (String × String)

-- `_cached_snapshot` with `_cached_at`
pub record Cache : Type 0 where
  pub snapshot : Option ConfigSnapshot
  pub cached_at : ℕ

abbrev pub cache_ttl : ℕ
cache_ttl = 5000

abbrev pub empty_cache : Cache
empty_cache = record { snapshot = none; cached_at = 0 }

-- a secret that cannot be decrypted makes the whole snapshot fail
unfoldable pub decrypt_all :
    (String → Option String) → List InstanceSecret → Option (List (String × String))
decrypt_all decrypt [] = some []
decrypt_all decrypt (s ∷ ss) = elim (decrypt s.ciphertext) [
  | none ↦ none
  | some plain ↦ elim (decrypt_all decrypt ss) [
    | none ↦ none
    | some rest ↦ some ((s.name, plain) ∷ rest)
  ]
]

-- the snapshot of the tables as they are
unfoldable pub load : (String → Option String) → Tables → Result ConfigSnapshot
unfolding decrypt_all validate_config
load decrypt s = elim s.instance_settings [
  | none ↦ err Error.runtime_error
  | some row ↦ elim (validate_config row.settings) [
    | none ↦ err Error.value_error
    | some config ↦ elim (decrypt_all decrypt s.instance_secrets) [
      | none ↦ err Error.value_error
      | some secrets ↦ ok (record { version = row.version; config = config; secrets = secrets })
    ]
  ]
]

-- not fresh and _cached_snapshot is not None and now - _cached_at < _CACHE_TTL_SECONDS
unfoldable pub cache_hit : Bool → ℕ → Cache → Option ConfigSnapshot
cache_hit true now c = none
cache_hit false now c = if ltb now (c.cached_at + cache_ttl) then c.snapshot else none

abbrev pub remember : ℕ → Result ConfigSnapshot → Cache → Cache
remember now (ok snapshot) c = record { snapshot = some snapshot; cached_at = now }
remember now (err e) c = c

unfoldable pub serve :
    (String → Option String)
    → ℕ
    → Tables
    → Cache
    → Option ConfigSnapshot
    → Result ConfigSnapshot × Cache
serve decrypt now s c (some snapshot) = (ok snapshot, c)
serve decrypt now s c none = (load decrypt s, remember now (load decrypt s) c)

unfoldable pub get_snapshot :
    (String → Option String) → Bool → ℕ → Tables → Cache → Result ConfigSnapshot × Cache
get_snapshot decrypt fresh now s c = serve decrypt now s c (cache_hit fresh now c)

-- `update`, with the invalidation after its commit
abbrev pub after_update : Result SettingsRead → Cache → Cache
after_update (ok r) c = empty_cache
after_update (err e) c = c

unfoldable pub update_invalidate :
    (String → String) → SettingsWrite → ℕ → Db → Cache → Result SettingsRead × Db × Cache
update_invalidate encrypt payload actor_id d c =
    let (r, d') = update encrypt payload actor_id d in (r, d', after_update r c)
