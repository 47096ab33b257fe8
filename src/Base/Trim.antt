-- ===== src/Base/Trim.antt =====
-- Go's strings by their code points: `strings.TrimSpace`, `strings.Split`, `strings.LastIndex`.
use Prim.Native.Char.{Char, code}
use Prim.Native.String.{String}
use navier_stocks.Base.{ℕ, ◌≡◌, refl, Bool, ◌&&◌, ◌||◌, List, [], ◌∷◌, leb, ◌==◌, if◌then◌else◌}

abbrev between : ℕ → ℕ → ℕ → Bool
between lo hi c = leb lo c && leb c hi

-- `unicode.IsSpace`
unfoldable pub is_space : ℕ → Bool
is_space c =
    between 9 13 c
    || c == 32
    || c == 0x85
    || c == 0xA0
    || c == 0x1680
    || between 0x2000 0x200A c
    || c == 0x2028
    || c == 0x2029
    || c == 0x202F
    || c == 0x205F
    || c == 0x3000

-- `c` in front of a text, unless both are nothing but space.
abbrev pub cons_trimmed : Char → String → String
cons_trimmed c String.[] = if is_space (code c) then String.[] else String.◌∷◌ c String.[]
cons_trimmed c (String.◌∷◌ d s) = String.◌∷◌ c (String.◌∷◌ d s)

unfoldable pub trim_right : String → String
trim_right String.[] = String.[]
trim_right (String.◌∷◌ c s) = cons_trimmed c (trim_right s)

unfoldable pub trim_left : String → String
trim_left String.[] = String.[]
trim_left (String.◌∷◌ c s) = if is_space (code c) then trim_left s else String.◌∷◌ c s

-- `strings.TrimSpace`
unfoldable pub trim : String → String
trim s = trim_left (trim_right s)

abbrev pub on_head : Char → List String → List String
on_head c [] = String.◌∷◌ c String.[] ∷ []
on_head c (part ∷ parts) = String.◌∷◌ c part ∷ parts

-- `strings.Split` at one ASCII character
unfoldable pub split : ℕ → String → List String
split sep String.[] = String.[] ∷ []
split sep (String.◌∷◌ c s) =
    if code c == sep then String.[] ∷ split sep s else on_head c (split sep s)

test_trim : trim "  a b \n" ≡ "a b"
unfolding trim trim_left trim_right is_space
test_trim = refl

test_split : split b',' "a,,b" ≡ "a" ∷ "" ∷ "b" ∷ []
unfolding split
test_split = refl
