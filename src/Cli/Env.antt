-- ===== src/Cli/Env.antt =====
-- cli/commands/rescue.py and cli/commands/users.py: the lines of an environment file.
use Prim.Native.Char.{Char, code}
use mathlib.Core.Option
use fuze.Prelude.{
  Bool, false, ◌&&◌, ◌||◌, not, Option, none, some, List, [], ◌∷◌, String, nat_beq, if◌then◌else◌,
}
use fuze.Prelude.Texts.{strip, is_empty}

-- the test of a line that is read: not empty, no comment
unfoldable pub is_entry : String → Bool
is_entry String.[] = false
is_entry (String.◌∷◌ c s) = not (nat_beq (code c) b'#')

-- `line.split("=", 1)`, where there is one
unfoldable pub split_entry : String → Option (String × String)
split_entry String.[] = none
split_entry (String.◌∷◌ c s) =
    let rest = Option.map (λ (p : String × String). (String.◌∷◌ c p.0, p.1)) (split_entry s) in
    if nat_beq (code c) b'=' then some (String.[], s) else rest

abbrev pub is_quote : Char → Bool
is_quote c = nat_beq (code c) 34 || nat_beq (code c) 39

unfoldable pub unquote_left : String → String
unquote_left String.[] = String.[]
unquote_left (String.◌∷◌ c s) =
    let rest = unquote_left s in if is_quote c then rest else String.◌∷◌ c s

unfoldable pub unquote_right : String → String
unquote_right String.[] = String.[]
unquote_right (String.◌∷◌ c s) =
    let rest = unquote_right s in
    if is_quote c && is_empty rest then String.[] else String.◌∷◌ c rest

-- `value.strip("\"'")`
unfoldable pub unquote : String → String
unfolding unquote_left unquote_right
unquote s = unquote_right (unquote_left s)

unfoldable pub read_entry : String → Option (String × String)
unfolding is_entry split_entry unquote
read_entry line =
    if is_entry (strip line)
    then Option.map (λ (p : String × String). (strip p.0, unquote (strip p.1)))
        (split_entry (strip line))
    else none

-- `_read_env`, on the lines of the file
unfoldable pub read_env : List String → List (String × String)
unfolding read_entry
read_env [] = []
read_env (line ∷ lines) =
    let rest = read_env lines in elim (read_entry line) [ some entry ↦ entry ∷ rest | none ↦ rest ]
