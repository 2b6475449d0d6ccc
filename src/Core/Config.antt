-- ===== src/Core/Config.antt =====
-- core/instance_config.py and core/enums.py: the instance configuration and its model validators.
pub mod Stored
use fuze.Prelude.{
  ◌==◌, nat_eq, String, Bool, true, false, ◌&&◌, not, Option, none, some, leb, if◌then◌else◌,
}
use fuze.Prelude.Texts.{strip, count_chars, upper, is_alpha}
use fuze.Core.Errors.{Error}
use fuze.Core.Result.{Result, ok, err}

pub data AuthMode : Type 0 where
  password key both : AuthMode

abbrev pub is_password : AuthMode → Bool
is_password AuthMode.password = true
is_password _ = false

pub record AuthConfig : Type 0 where
  pub mode : AuthMode
  pub registration : Bool

-- `registration_requires_key_login`
unfoldable pub is_valid_auth : AuthConfig → Bool
is_valid_auth c = not (c.registration && is_password c.mode)

pub record FeaturesConfig : Type 0 where
  pub playback : Bool

pub record ProvidersConfig : Type 0 where
  pub youtube : Bool
  pub yandex : Bool
  pub spotify : Bool
  pub spotify_market : String

-- `normalize_market`: a country code of two letters, or ValueError
unfoldable pub normalize_market : String → Option String
normalize_market value =
    let market = upper (strip value) in
    if count_chars market == 2 && is_alpha market then some market else none

pub record FuzeConfig : Type 0 where
  pub instance_name : String
  pub auth : AuthConfig
  pub features : FeaturesConfig
  pub providers : ProvidersConfig

-- `normalize_instance_name`: the name without white space round it, or ValueError
unfoldable pub normalize_instance_name : String → Option String
normalize_instance_name value =
    let name = strip value in
    if leb 1 (count_chars name) && leb (count_chars name) 100 then some name else none

-- the validators of all parts, as `FuzeConfig.model_validate` runs them
unfoldable pub validate_config : FuzeConfig → Option FuzeConfig
unfolding is_valid_auth normalize_market normalize_instance_name
validate_config c = elim (normalize_market c.providers.spotify_market) [
  | none ↦ none
  | some market ↦ elim (normalize_instance_name c.instance_name) [
    | none ↦ none
    | some name ↦
        if is_valid_auth c.auth
        then some (record c {
          instance_name = name;
          providers = record c.providers { spotify_market = market };
        })
        else none
  ]
]

-- a configuration file: not there, no TOML, or the values of the fields where they have their types
pub data TomlFile : Type 0 where
  missing malformed : TomlFile
  contents : Option FuzeConfig → TomlFile

unfoldable pub load_fuze_config : TomlFile → Result FuzeConfig
unfolding validate_config
load_fuze_config TomlFile.missing = err Error.runtime_error
load_fuze_config TomlFile.malformed = err Error.runtime_error
load_fuze_config (TomlFile.contents none) = err Error.value_error
load_fuze_config (TomlFile.contents (some c)) = elim (validate_config c) [
  | none ↦ err Error.value_error
  | some valid ↦ ok valid
]

pub data UserRole : Type 0 where
  admin user : UserRole

abbrev pub is_admin : UserRole → Bool
is_admin UserRole.admin = true
is_admin UserRole.user = false
