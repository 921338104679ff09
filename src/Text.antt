-- ===== src/Text.antt =====
-- Text as lists of code points, and what the sources use of `str`: `trim`, `trim_matches`,
-- `strip_prefix`, `starts_with`, `split_once`, `rfind`, `contains`.
pub mod Decimal
pub mod Laws
pub mod Equality
pub mod Lines
pub mod Hex
use Prim.Native.Char.{code}
use Prim.Native.String.{String}
use bolt.Prelude.{
  ℕ, ◌+◌, Bool, true, false, ◌&&◌, ◌||◌, Option, none, some, List, [], ◌∷◌, leb, ◌==◌,
  if◌then◌else◌,
}

abbrev pub Text : Type 0
Text = List ℕ

-- The code points of a literal.
abbrev pub codes : String → Text
codes String.[] = []
codes (String.◌∷◌ c s) = code c ∷ codes s

abbrev pub is_empty : Text → Bool
is_empty [] = true
is_empty (c ∷ t) = false

abbrev in_range : ℕ → ℕ → ℕ → Bool
in_range lo hi c = leb lo c && leb c hi

-- `char::is_whitespace`: the code points with the property White_Space.
unfoldable pub is_whitespace : ℕ → Bool
is_whitespace c =
    in_range 0x09 0x0d c
    || c == 0x20
    || c == 0x85
    || c == 0xa0
    || c == 0x1680
    || in_range 0x2000 0x200a c
    || c == 0x2028
    || c == 0x2029
    || c == 0x202f
    || c == 0x205f
    || c == 0x3000

unfoldable pub trim_start_by : (ℕ → Bool) → Text → Text
trim_start_by p [] = []
trim_start_by p (c ∷ t) = if p c then trim_start_by p t else c ∷ t

unfoldable pub trim_end_by : (ℕ → Bool) → Text → Text
trim_end_by p [] = []
trim_end_by p (c ∷ t) = let rest = trim_end_by p t in if p c && is_empty rest then [] else c ∷ rest

unfoldable pub trim_by : (ℕ → Bool) → Text → Text
trim_by p t = trim_end_by p (trim_start_by p t)

abbrev pub trim : Text → Text
trim = trim_by is_whitespace

abbrev pub trim_matches : ℕ → Text → Text
trim_matches q = trim_by (λ c. c == q)

-- `url.trim_end_matches('/')` and the like.
abbrev pub trim_end_matches : ℕ → Text → Text
trim_end_matches q = trim_end_by (λ c. c == q)

abbrev pub strip_prefix : Text → Text → Option Text
strip_prefix [] t = some t
strip_prefix (p ∷ ps) [] = none
strip_prefix (p ∷ ps) (c ∷ t) = if c == p then strip_prefix ps t else none

abbrev is_some : {A : Type 0} → Option A → Bool
is_some none = false
is_some (some a) = true

abbrev pub starts_with : Text → Text → Bool
starts_with p t = is_some (strip_prefix p t)

unfoldable pub split_once : ℕ → Text → Option (Text × Text)
split_once q [] = none
split_once q (c ∷ t) =
    if c == q
    then some ([], t)
    else (elim (split_once q t) [ none ↦ none | some (a, b) ↦ some (c ∷ a, b) ])

-- The position of the last `q`.
unfoldable pub rfind : ℕ → Text → Option ℕ
rfind q [] = none
rfind q (c ∷ t) = elim (rfind q t) [
  | none ↦ if c == q then some 0 else none
  | some i ↦ some (i + 1)
]

unfoldable pub contains : ℕ → Text → Bool
contains q [] = false
contains q (c ∷ t) = c == q || contains q t

unfoldable pub last? : Text → Option ℕ
last? [] = none
last? (c ∷ []) = some c
last? (c ∷ d ∷ t) = last? (d ∷ t)

-- A literal whose characters no proof looks at, such as an error's reason.
unfoldable pub text : String → Text
text s = codes s
