-- ===== src/Prelude/Text.antt =====
-- Texts as the program tests them character by character.
use Prim.Native.Nat.{ℕ, ◌+◌}
use Prim.Native.Char.{code}
use Prim.Native.String.{String, ◌++◌ as ◌<>◌}
use mathlib.Core.Bool.{Bool, true, ◌&&◌, ◌||◌, not}
use mathlib.Core.Option.{Option, none, some}
use text.Mathlib.Text.{◌==◌}
use lucid_agent_core.Prelude.Tests.{if◌then◌else◌, nat_eq}

-- The pattern `^[class]+$` under `fullmatch`: every character is of the class, and there is one.
abbrev pub all_chars : (ℕ → Bool) → String → Bool
all_chars p String.[] = true
all_chars p (String.◌∷◌ c s) = p (code c) && all_chars p s

abbrev pub full_match : (ℕ → Bool) → String → Bool
full_match p s = not (s == "") && all_chars p s

-- `len(s)`
abbrev pub text_length : String → ℕ
text_length String.[] = 0
text_length (String.◌∷◌ c s) = text_length s + 1

-- `s.split(sep, 1)`, for a separator of one character given by its code; `none` is its absence.
abbrev pub split_once : ℕ → String → Option (String × String)
split_once sep String.[] = none
split_once sep (String.◌∷◌ c s) =
    let rest = split_once sep s in
    if nat_eq (code c) sep
    then some ("", s)
    else elim rest [ none ↦ none | some (a, b) ↦ some (String.◌∷◌ c a, b) ]

-- `s.replace(old, new)` for single characters
abbrev pub replace_char : ℕ → String → String → String
replace_char old new String.[] = ""
replace_char old new (String.◌∷◌ c s) =
    let rest = replace_char old new s in
    if nat_eq (code c) old then new <> rest else String.◌∷◌ c rest

-- `s.endswith(suffix)`
abbrev pub ends_with : String → String → Bool
ends_with suffix String.[] = "" == suffix
ends_with suffix (String.◌∷◌ c s) = String.◌∷◌ c s == suffix || ends_with suffix s

-- The text without the suffix, if it ends with it.
abbrev pub strip_end : String → String → String
strip_end suffix String.[] = ""
strip_end suffix (String.◌∷◌ c s) =
    let rest = strip_end suffix s in if String.◌∷◌ c s == suffix then "" else String.◌∷◌ c rest

-- The text after a prefix, if it starts with it.
abbrev pub strip_start : String → String → Option String
strip_start String.[] s = some s
strip_start (String.◌∷◌ c p) String.[] = none
strip_start (String.◌∷◌ c p) (String.◌∷◌ d s) =
    let rest = strip_start p s in if nat_eq (code c) (code d) then rest else none
