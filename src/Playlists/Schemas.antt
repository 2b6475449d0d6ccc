-- ===== src/Playlists/Schemas.antt =====
-- modules/playlists/schemas.py: the validators of the requests; none is a ValueError, which is answered
-- by 422. The number of bytes that base64 decodes is an argument.
use Prim.Native.Char.{code}
use fuze.Prelude.{
  ℕ, zero, suc, ◌-◌, String, Bool, true, false, ◌&&◌, ◌||◌, not, Option, none, some, List, [], ◌∷◌,
  length, leb, nat_beq, ◌==◌, nat_eq, string_eq, is_none, if◌then◌else◌,
}
use fuze.Prelude.Int.{ℤ, pos, negsuc}
use fuze.Prelude.Sets.{unique}
use fuze.Prelude.Texts.{strip, lower, is_empty, count_chars, take_chars, starts_with}
use fuze.Playlists.Service.{PlaylistUpdate}

abbrev pub max_artwork_bytes : ℕ
max_artwork_bytes = 1048576

abbrev pub is_allowed_mime_type : String → Bool
is_allowed_mime_type s = s == "image/jpeg" || (s == "image/png" || s == "image/webp")

-- `s[n:]`
abbrev drop_chars : ℕ → String → String
drop_chars zero s = s
drop_chars (suc n) String.[] = String.[]
drop_chars (suc n) (String.◌∷◌ c s) = drop_chars n s

-- `s.endswith(";base64")`
abbrev ends_base64 : String → Bool
ends_base64 s = drop_chars (count_chars s - 7) s == ";base64"

-- `value.split(",", 1)`, where there are two parts
unfoldable pub split_header : String → Option (String × String)
split_header String.[] = none
split_header (String.◌∷◌ c s) =
    let rest = split_header s in
    if nat_beq (code c) b','
    then some (String.[], s)
    else elim rest [ none ↦ none | some (header, encoded) ↦ some (String.◌∷◌ c header, encoded) ]

-- `header[5:-7]`
abbrev mime_type : String → String
mime_type header = take_chars (count_chars header - 12) (drop_chars 5 header)

abbrev is_image_header : String → Bool
is_image_header header =
    starts_with "data:" header
    && (ends_base64 header && is_allowed_mime_type (lower (mime_type header)))

abbrev fits_artwork : Option ℕ → Bool
fits_artwork none = false
fits_artwork (some size) = not (size == 0) && leb size max_artwork_bytes

unfoldable pub validate_artwork : (String → Option ℕ) → Option String → Option (Option String)
unfolding split_header starts_with count_chars lower take_chars
validate_artwork b64decode none = some none
validate_artwork b64decode (some value) = elim (split_header value) [
  | none ↦ none
  | some (header, encoded) ↦
      if is_image_header header && fits_artwork (b64decode encoded) then some (some value) else none
]

unfoldable pub strip_required : String → Option String
unfolding strip
strip_required value = let text = strip value in if is_empty text then none else some text

unfoldable pub normalize_description : Option String → Option String
unfolding strip_required
normalize_description none = none
normalize_description (some value) = strip_required value

-- `Field(min_length=low, max_length=high)`
abbrev has_length : ℕ → ℕ → String → Bool
has_length low high s = leb low (count_chars s) && leb (count_chars s) high

abbrev is_short : ℕ → Option String → Bool
is_short high none = true
is_short high (some s) = has_length 0 high s

abbrev checked_title : String → Option String
checked_title title = if has_length 1 100 title then strip_required title else none

-- `PlaylistCreate`: the title and the description
unfoldable pub validate_create : String → Option String → Option (String × Option String)
unfolding strip_required normalize_description count_chars
validate_create title description = elim (checked_title title) [
  | none ↦ none
  | some text ↦
      if is_short 255 description then some (text, normalize_description description) else none
]

abbrev is_label_style : Option String → Bool
is_label_style none = true
is_label_style (some s) =
    s == "aged"
    || (s == "archival"
        || (s == "stripe"
            || (s == "blue"
                || (s == "yellow"
                    || (s == "minimal"
                        || (s == "redline" || (s == "typed" || (s == "white" || s == "green"))))))))

-- the body of an update: whether a field was set, and its value, which may be null
pub record UpdateBody : Type 0 where
  pub title : Option (Option String)
  pub description : Option (Option String)
  pub label_style : Option (Option String)
  pub label_art : Option (Option String)
  pub cover_art : Option (Option String)

-- `require_update`: some field was set
abbrev sets_nothing : UpdateBody → Bool
sets_nothing b =
    is_none b.title
    && (is_none b.description
        && (is_none b.label_style && (is_none b.label_art && is_none b.cover_art)))

-- a title that was set is no null
abbrev updated_title : Option (Option String) → Option (Option String)
updated_title none = some none
updated_title (some none) = none
updated_title (some (some title)) = elim (checked_title title) [
  | none ↦ none
  | some text ↦ some (some text)
]

-- the validators of a field that was set
abbrev if_set :
    (Option String → Option (Option String))
    → Option (Option String)
    → Option (Option (Option String))
if_set check none = some none
if_set check (some value) = elim (check value) [ none ↦ none | some checked ↦ some (some checked) ]

abbrev checked_description : Option String → Option (Option String)
checked_description value = if is_short 255 value then some (normalize_description value) else none

abbrev checked_style : Option String → Option (Option String)
checked_style value = if is_label_style value then some value else none

abbrev checked_art : (String → Option ℕ) → Option String → Option (Option String)
checked_art b64decode value =
    if is_short 1500000 value then validate_artwork b64decode value else none

infixl 5 ◌>>=◌
abbrev ◌>>=◌ : {A B : Type 0} → Option A → (A → Option B) → Option B
none >>= f = none
some a >>= f = f a

unfoldable pub validate_update : (String → Option ℕ) → UpdateBody → Option PlaylistUpdate
unfolding strip_required normalize_description validate_artwork count_chars
validate_update b64decode b = if sets_nothing b then none else (do
  title ← updated_title b.title
  description ← if_set checked_description b.description
  label_style ← if_set checked_style b.label_style
  label_art ← if_set (checked_art b64decode) b.label_art
  cover_art ← if_set (checked_art b64decode) b.cover_art
  some (record {
    title = title;
    description = description;
    label_style = label_style;
    label_art = label_art;
    cover_art = cover_art;
  }))

-- the positive numbers of a list, where all are
unfoldable pub positive_ids : List ℤ → Option (List ℕ)
positive_ids [] = some []
positive_ids (negsuc n ∷ ids) = none
positive_ids (pos n ∷ ids) =
    if n == 0 then none else elim (positive_ids ids) [ none ↦ none | some rest ↦ some (n ∷ rest) ]

-- `PlaylistReorder.validate_item_ids`
unfoldable pub validate_item_ids : List ℤ → Option (List ℕ)
unfolding positive_ids unique
validate_item_ids item_ids = elim (positive_ids item_ids) [
  | none ↦ none
  | some ids ↦ if length (unique ids) == length ids then some ids else none
]
