-- ===== src/Command/Texts.antt =====
-- Lists of values in the variables of cmd/metery/main.go.
pub mod Parts
use Prim.Native.Char.{Char, code}
use Prim.Native.String.{String}
use metery.Prelude.{
  ℕ, ◌+◌, Bool, false, not, ◌&&◌, ◌||◌, leb, List, [], ◌∷◌, map, filter, ◌==◌, if◌then◌else◌,
  is_char,
}

-- A character in front of the first text of a list.
abbrev pub prepend : Char → List String → List String
prepend c [] = String.◌∷◌ c String.[] ∷ []
prepend c (s ∷ rest) = String.◌∷◌ c s ∷ rest

-- `strings.Split(s, sep)` for a separator of one character.
unfoldable pub split : ℕ → String → List String
split sep String.[] = String.[] ∷ []
split sep (String.◌∷◌ c s) =
    let rest = split sep s in if is_char sep c then String.[] ∷ rest else prepend c rest

-- `unicode.IsSpace`.
abbrev pub is_space : Char → Bool
is_space c =
    (leb 9 (code c) && leb (code c) 13)
    || (is_char 32 c
        || (is_char 133 c
            || (is_char 160 c
                || (is_char 5760 c
                    || ((leb 8192 (code c) && leb (code c) 8202)
                        || (is_char 8232 c
                            || (is_char 8233 c
                                || (is_char 8239 c || (is_char 8287 c || is_char 12288 c)))))))))

abbrev pub trim_left : String → String
trim_left String.[] = String.[]
trim_left (String.◌∷◌ c s) = let rest = trim_left s in if is_space c then rest else String.◌∷◌ c s

abbrev pub trim_right : String → String
trim_right String.[] = String.[]
trim_right (String.◌∷◌ c s) =
    let rest = trim_right s in if is_space c && rest == "" then String.[] else String.◌∷◌ c rest

-- `strings.TrimSpace`.
unfoldable pub trim_space : String → String
trim_space s = trim_right (trim_left s)

-- The parts between commas, trimmed, without the empty ones.
unfoldable pub split_csv : String → List String
split_csv s = if s == "" then [] else filter (λ p. not (p == "")) (map trim_space (split b',' s))

abbrev pub lowers_to : Char → Char → Bool
lowers_to c d =
    is_char (code d) c || ((leb 97 (code d) && leb (code d) 122) && is_char (code c + 32) d)

-- `strings.ToLower(s) == t`, for a text t of small letters and digits with no i and no k in it: the
-- letters outside ASCII whose small letter is in ASCII are İ and the Kelvin sign.
unfoldable pub is_lowered : String → String → Bool
is_lowered String.[] t = t == ""
is_lowered (String.◌∷◌ c s) String.[] = false
is_lowered (String.◌∷◌ c s) (String.◌∷◌ d t) = let rest = is_lowered s t in lowers_to c d && rest
