-- ===== src/Prelude/Texts.antt =====
-- Python's operations on `str` that the program uses, on native texts.
use Prim.Native.Nat.{ℕ, zero, suc, ◌/◌, ◌%◌, ◌<◌}
use mathlib.Core.Path.{◌≡◌, refl}
use mathlib.Core.Logic.{inl, inr}
use native.Mathlib.Omega.{arith}
use Prim.Native.Char.{Char, code}
use Prim.Native.String.{String, [], ◌∷◌}
use mathlib.Core.Option.{Option, none, some}
use mathlib.Core.Bool.{Bool, true, false, ◌&&◌, ◌||◌}
use fuze.Prelude.Tests.{leb, nat_beq, if◌then◌else◌, Bool-cases}

-- `s[:n]`
unfoldable pub take_chars : ℕ → String → String
take_chars zero s = []
take_chars (suc n) [] = []
take_chars (suc n) (c ∷ s) = c ∷ take_chars n s

-- `s + t`
unfoldable pub join : String → String → String
join [] t = t
join (c ∷ s) t = c ∷ join s t

-- `len(s)`
unfoldable pub count_chars : String → ℕ
count_chars [] = 0
count_chars (c ∷ s) = suc (count_chars s)

-- truth of a text
abbrev pub is_empty : String → Bool
is_empty [] = true
is_empty (c ∷ s) = false

-- `s or d`: None and the empty text are false
abbrev pub text_or : Option String → String → String
text_or none d = d
text_or (some s) d = if is_empty s then d else s

-- the white space that `strip` removes, within ASCII
abbrev pub is_space : Char → Bool
is_space c =
    nat_beq (code c) 32
    || (leb 9 (code c) && leb (code c) 13)
    || (leb 28 (code c) && leb (code c) 31)

-- `s.lstrip()`
unfoldable pub strip_left : String → String
strip_left [] = []
strip_left (c ∷ s) = let rest = strip_left s in if is_space c then rest else c ∷ s

-- `s.rstrip()`: a space is dropped where nothing else follows it
unfoldable pub strip_right : String → String
strip_right [] = []
strip_right (c ∷ s) =
    let rest = strip_right s in if is_space c && is_empty rest then [] else c ∷ rest

-- `s.strip()`
unfoldable pub strip : String → String
unfolding strip_left strip_right
strip s = strip_right (strip_left s)

-- the character beside `c` in the second text, or `c`
abbrev pub mapped_in : String → String → Char → Char
mapped_in (u ∷ us) (l ∷ ls) c = if nat_beq (code c) (code u) then l else mapped_in us ls c
mapped_in _ _ c = c

-- `s.lower()`, within ASCII
unfoldable pub lower : String → String
lower [] = []
lower (c ∷ s) = mapped_in "ABCDEFGHIJKLMNOPQRSTUVWXYZ" "abcdefghijklmnopqrstuvwxyz" c ∷ lower s

-- `s.upper()`, within ASCII
unfoldable pub upper : String → String
upper [] = []
upper (c ∷ s) = mapped_in "abcdefghijklmnopqrstuvwxyz" "ABCDEFGHIJKLMNOPQRSTUVWXYZ" c ∷ upper s

abbrev pub is_letter : Char → Bool
is_letter c = (leb 65 (code c) && leb (code c) 90) || (leb 97 (code c) && leb (code c) 122)

-- `s.isalpha()` of a text that is not empty, within ASCII
unfoldable pub is_alpha : String → Bool
is_alpha [] = true
is_alpha (c ∷ s) = is_letter c && is_alpha s

-- `s.strip(chars)`, for the characters that satisfy `p`
unfoldable pub trim_left : (Char → Bool) → String → String
trim_left p [] = []
trim_left p (c ∷ s) = let rest = trim_left p s in if p c then rest else c ∷ s

unfoldable pub trim_right : (Char → Bool) → String → String
trim_right p [] = []
trim_right p (c ∷ s) = let rest = trim_right p s in if p c && is_empty rest then [] else c ∷ rest

-- `s.startswith(prefix)`
unfoldable pub starts_with : String → String → Bool
starts_with [] s = true
starts_with (p ∷ ps) [] = false
starts_with (p ∷ ps) (c ∷ s) = nat_beq (code p) (code c) && starts_with ps s

-- `part in s`
unfoldable pub occurs : String → String → Bool
unfolding starts_with
occurs part [] = is_empty part
occurs part (c ∷ s) = starts_with part (c ∷ s) || occurs part s

abbrev char_at : Char → String → ℕ → Char
char_at c [] i = c
char_at c (d ∷ s) zero = d
char_at c (d ∷ s) (suc i) = char_at c s i

abbrev digit : ℕ → Char
digit n = char_at "0" "0123456789" n

-- the decimal digits of `n` in front of `acc`
unfoldable pub digits : ℕ → ℕ → String → String
digits zero n acc = acc
digits (suc fuel) n acc =
    let rest = digits fuel (n / 10) (digit (n % 10) ∷ acc) in
    if leb n 9 then digit n ∷ acc else rest

-- more fuel than the number changes nothing
pub digits-enough :
    (fuel n : ℕ) (acc : String) → n < fuel → digits (suc fuel) n acc ≡ digits fuel n acc
unfolding digits
digits-enough zero n acc h = elim h [ ]
digits-enough (suc fuel) n acc h = elim (Bool-cases (leb n 9)) [
  | inl small ↦ rw small refl
  | inr large ↦
      rw large (digits-enough fuel (n / 10) (digit (n % 10) ∷ acc) (ground (arith, large, h)))
]

-- `str(n)` of a natural number
unfoldable pub str : ℕ → String
unfolding digits
str n = digits (suc n) n ""

-- `s.rsplit(c, 1)[-1]`: what follows the last `c`, or all
unfoldable pub after_last : ℕ → String → String → String
after_last c acc [] = acc
after_last c acc (d ∷ s) = after_last c (if nat_beq (code d) c then s else acc) s

-- `s.split(c, 1)[0]`: what stands before the first `c`, or all
unfoldable pub before_first : ℕ → String → String
before_first c [] = []
before_first c (d ∷ s) = let rest = before_first c s in if nat_beq (code d) c then [] else d ∷ rest
