-- ===== src/Cli/Text.antt =====
-- The functions of Go's package strings that the client calls on a body and on a content type.
use Prim.Native.Char.{code}
use Prim.Native.String.{String}
use mittnite.Prelude.{ℕ, Bool, true, false, ◌&&◌, ◌||◌, leb, ◌==◌, nat_eq, if◌then◌else◌, [], ◌∷◌}
use mittnite.Prelude.{contains}

-- unicode.IsSpace
is_space : ℕ → Bool
is_space c =
    leb 9 c && leb c 13
    || leb 8192 c && leb c 8202
    || contains (32 ∷ 133 ∷ 160 ∷ 5760 ∷ 8232 ∷ 8233 ∷ 8239 ∷ 8287 ∷ 12288 ∷ []) c

trim_start : String → String
unfolding is_space
trim_start String.[] = String.[]
trim_start (String.◌∷◌ c s) =
    let rest = trim_start s in if is_space (code c) then rest else String.◌∷◌ c s

is_blank : String → Bool
is_blank String.[] = true
is_blank (String.◌∷◌ c s) = false

trim_end : String → String
unfolding is_space is_blank
trim_end String.[] = String.[]
trim_end (String.◌∷◌ c s) =
    let rest = trim_end s in
    if is_blank rest && is_space (code c) then String.[] else String.◌∷◌ c rest

-- strings.TrimSpace
unfoldable pub trim_space : String → String
unfolding trim_start trim_end
trim_space s = trim_end (trim_start s)

-- strings.Split at a character, the first part
unfoldable pub before : ℕ → String → String
before at String.[] = String.[]
before at (String.◌∷◌ c s) =
    let rest = before at s in if code c == at then String.[] else String.◌∷◌ c rest
