-- ===== src/Admin/Diff.antt =====
-- `_safe_diff` of modules/admin/service.py: what an audit record says of two configurations.
use Prim.Native.Nat.{Ordering}
use Prim.Native.String.{compare}
use fuze.Prelude.{
  String, Bool, true, false, ◌&&◌, not, Option, none, some, List, [], ◌∷◌, ◌++◌, ◌==◌, string_eq,
  if◌then◌else◌,
}
use fuze.Prelude.Texts.{is_empty, join}
use fuze.Core.Config.{AuthMode, FuzeConfig}
use fuze.Admin.Json.{Json, Fields, Change}

abbrev pub flag_beq : Bool → Bool → Bool
flag_beq true b = b
flag_beq false b = not b

-- `left == right`: the dicts of a configuration have the same keys in the same order
unfoldable mutual
  pub json_beq : Json → Json → Bool
  json_beq (Json.text a) (Json.text b) = a == b
  json_beq (Json.flag a) (Json.flag b) = flag_beq a b
  json_beq (Json.dict a) (Json.dict b) = fields_beq a b
  json_beq _ _ = false

  pub fields_beq : Fields → Fields → Bool
  fields_beq Fields.end Fields.end = true
  fields_beq (Fields.field k a x) (Fields.field l b y) = k == l && (json_beq a b && fields_beq x y)
  fields_beq _ _ = false

-- `d.get(key)`
unfoldable pub get_field : String → Fields → Option Json
get_field key Fields.end = none
get_field key (Fields.field k v rest) =
    let later = get_field key rest in if k == key then some v else later

-- f"{prefix}.{key}" if prefix else key
unfoldable pub path_of : String → String → String
path_of prefix key = if is_empty prefix then key else join prefix (join "." key)

-- the changes below each key
abbrev pub Entries : Type 0
Entries = List (String × List (String × Change))

-- the keys of `new` that `old` does not have
unfoldable pub added : Fields → Fields → String → Entries
unfolding get_field path_of
added old Fields.end prefix = []
added old (Fields.field k v rest) prefix =
    let later = added old rest prefix in
    elim (get_field k old) [
      | some _ ↦ later
      | none ↦ (k, (path_of prefix k, Change.changed none (some v)) ∷ []) ∷ later
    ]

-- `sorted(set(old) | set(new))`: the entries by their keys
unfoldable pub insert_entry : String × List (String × Change) → Entries → Entries
insert_entry e [] = e ∷ []
insert_entry e (x ∷ xs) =
    let rest = insert_entry e xs in
    elim (compare e.0 x.0) [ Ordering.gt ↦ x ∷ rest | _ ↦ e ∷ x ∷ xs ]

unfoldable pub by_key : Entries → Entries
unfolding insert_entry
by_key [] = []
by_key (e ∷ es) = insert_entry e (by_key es)

abbrev pub changes_of : Entries → List (String × Change)
changes_of [] = []
changes_of (e ∷ es) = e.1 ++ changes_of es

-- one key: a dict on both sides is compared key by key, anything else as a whole
unfoldable mutual
  pub value_diff : Json → Option Json → String → List (String × Change)
  value_diff left none path = (path, Change.changed (some left) none) ∷ []
  value_diff (Json.dict a) (some (Json.dict b)) path =
      changes_of (by_key (entries_diff a b path ++ added a b path))
  value_diff left (some right) path =
      if json_beq left right then [] else (path, Change.changed (some left) (some right)) ∷ []

  pub entries_diff : Fields → Fields → String → Entries
  entries_diff Fields.end new prefix = []
  entries_diff (Fields.field k v rest) new prefix =
      (k, value_diff v (get_field k new) (path_of prefix k)) ∷ entries_diff rest new prefix

unfoldable pub safe_diff : Fields → Fields → List (String × Change)
unfolding entries_diff added by_key
safe_diff old new = changes_of (by_key (entries_diff old new "" ++ added old new ""))

abbrev pub mode_text : AuthMode → String
mode_text AuthMode.password = "password"
mode_text AuthMode.key = "key"
mode_text AuthMode.both = "both"

-- `config.model_dump()`
unfoldable pub model_dump : FuzeConfig → Fields
model_dump c = Fields.field "instance_name" (Json.text c.instance_name) (
    Fields.field "auth"
      (Json.dict (
        Fields.field "mode" (Json.text (mode_text c.auth.mode))
          (Fields.field "registration" (Json.flag c.auth.registration) Fields.end)))
      (Fields.field "features"
        (Json.dict (Fields.field "playback" (Json.flag c.features.playback) Fields.end))
        (Fields.field "providers"
          (Json.dict (
            Fields.field "youtube" (Json.flag c.providers.youtube) (
              Fields.field "yandex" (Json.flag c.providers.yandex) (
                Fields.field "spotify" (Json.flag c.providers.spotify) (
                  Fields.field "spotify_market" (Json.text c.providers.spotify_market)
                    Fields.end)))))
          Fields.end)))
