-- ===== src/Config/Text.antt =====
-- The functions of Go's packages strings and strconv that the configuration code calls.
use Prim.Native.Char.{code}
use Prim.Native.String.{String, len, slice}
use mittnite.Prelude.{
  ℕ, Bool, true, false, ◌&&◌, ◌-◌, leb, ◌==◌, if◌then◌else◌, string_eq, nat_eq, Option, none, some,
  [], ◌∷◌, contains,
}

-- strings.HasSuffix
abbrev pub has_suffix : String → String → Bool
has_suffix s t = leb (len t) (len s) && slice s (len s - len t) (len s) == t

is_empty : String → Bool
is_empty String.[] = true
is_empty (String.◌∷◌ c s) = false

-- strings.TrimRight with a cut set of one character
unfoldable pub trim_right : ℕ → String → String
unfolding is_empty
trim_right cut String.[] = String.[]
trim_right cut (String.◌∷◌ c s) =
    let rest = trim_right cut s in
    if is_empty rest && code c == cut then String.[] else String.◌∷◌ c rest

-- strconv.ParseBool
unfoldable pub parse_bool : String → Option Bool
parse_bool s =
    if contains ("1" ∷ "t" ∷ "T" ∷ "TRUE" ∷ "true" ∷ "True" ∷ []) s
    then some true
    else (if contains ("0" ∷ "f" ∷ "F" ∷ "FALSE" ∷ "false" ∷ "False" ∷ []) s
        then some false
        else none)
