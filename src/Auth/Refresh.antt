-- ===== src/Auth/Refresh.antt =====
-- core/security.py: `refresh_token_required`, which reads the refresh token where cookies of two
-- paths carry one each. What authx answers on a token is an argument.
use Prim.Native.Char.{code}
use fuze.Prelude.{
  String, Bool, true, false, ◌&&◌, not, Option, none, some, List, [], ◌∷◌, ◌++◌, ◌≡◌, refl, ◌∙◌,
  All, ◌==◌, string_eq, nat_beq, if◌then◌else◌, leb, length,
}
use fuze.Prelude.Texts.{strip, is_empty}
use fuze.Core.Errors.{Error}
use fuze.Core.Result.{Result, ok, err}
use fuze.Auth.Service.{TokenPayload}

-- `header.split(";")`
unfoldable pub chunks : String → List String
chunks String.[] = "" ∷ []
chunks (String.◌∷◌ c s) =
    let rest = chunks s in
    if nat_beq (code c) b';'
    then "" ∷ rest
    else elim rest [ [] ↦ String.◌∷◌ c "" ∷ [] | t ∷ ts ↦ String.◌∷◌ c t ∷ ts ]

-- `chunk.partition("=")`: the key and the value, or none where there is no separator
unfoldable pub partition : String → Option (String × String)
partition String.[] = none
partition (String.◌∷◌ c s) =
    let rest = partition s in
    if nat_beq (code c) b'='
    then some ("", s)
    else elim rest [ none ↦ none | some (key, value) ↦ some (String.◌∷◌ c key, value) ]

abbrev pub named : String → Option (String × String) → List String
named name none = []
named name (some (key, value)) = if key == name && not (is_empty value) then value ∷ [] else []

unfoldable pub values_in : String → List String → List String
unfolding partition strip
values_in name [] = []
values_in name (chunk ∷ rest) = named name (partition (strip chunk)) ++ values_in name rest

unfoldable pub candidates : String → List String → List String
unfolding chunks values_in
candidates name [] = []
candidates name (header ∷ headers) = values_in name (chunks header) ++ candidates name headers

-- what authx says of a token: it is blocked, it is valid, or the exception that the check raises
pub data Checked : Type 0 where
  blocked : Checked
  valid : TokenPayload → Checked
  refused : Error → Checked

-- `raise last_error`, if there is one
abbrev pub raise_last : Result TokenPayload → Option Error → Result TokenPayload
raise_last fallback none = fallback
raise_last fallback (some e) = err e

-- the loop over the candidates, with `last_error`
unfoldable pub first_valid :
    (String → Checked) → Result TokenPayload → Option Error → List String → Result TokenPayload
first_valid check fallback last [] = raise_last fallback last
first_valid check fallback last (token ∷ tokens) = elim (check token) [
  | blocked ↦ first_valid check fallback last tokens
  | valid payload ↦ ok payload
  | refused e ↦ first_valid check fallback (some e) tokens
]

abbrev pub has_one : List String → Bool
has_one xs = leb (length xs) 1

-- `fallback` is authx's own reading of the request
unfoldable pub refresh_token_required :
    (String → Checked) → Result TokenPayload → List String → Result TokenPayload
unfolding candidates first_valid
refresh_token_required check fallback headers =
    let tokens = candidates "refresh_token" headers in
    if has_one tokens then fallback else first_valid check fallback none tokens

abbrev pub is_valid : Checked → Bool
is_valid (Checked.valid _) = true
is_valid _ = false

skip-first_valid :
    (check : String → Checked) (fallback : Result TokenPayload) (last : Option Error)
    (token : String) (tokens : List String) (c : Checked)
    → check token ≡ c
    → is_valid c ≡ false
    → (e : Option Error) × (first_valid check fallback last (token ∷ tokens)
        ≡ first_valid check fallback e tokens)
unfolding first_valid
skip-first_valid check fallback last token tokens Checked.blocked e fails =
    (last, rw (e, first_valid) refl)
skip-first_valid check fallback last token tokens (Checked.refused x) e fails =
    (some x, rw (e, first_valid) refl)
skip-first_valid check fallback last token tokens (Checked.valid payload) e fails = absurd (cc)

-- Behind any number of tokens that are blocked or refused, the first valid one is taken.
first_valid_lem :
    (check : String → Checked) (fallback : Result TokenPayload) (last : Option Error)
    (before after : List String) (token : String) (payload : TokenPayload)
    → All (λ t. is_valid (check t) ≡ false) before
    → check token ≡ Checked.valid payload
    → first_valid check fallback last (before ++ token ∷ after) ≡ ok payload
unfolding first_valid
first_valid_lem check fallback last [] after token payload fails good = rw (good, first_valid) refl
first_valid_lem check fallback last (t ∷ before) after token payload fails good =
    let (e, same) =
      skip-first_valid check fallback last t (before ++ token ∷ after) (check t) refl fails.0 in
    same ∙ first_valid_lem check fallback e before after token payload fails.1 good
