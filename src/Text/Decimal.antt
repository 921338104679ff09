-- ===== src/Text/Decimal.antt =====
-- `u64` in decimal: `str::parse::<u64>` (a leading `+` is allowed, overflow is an error) and the
-- digits that `format!("{n}")` writes.
pub mod RoundTrip
use bolt.Prelude.{
  ℕ, zero, suc, ◌+◌, ◌-◌, ◌*◌, ◌/◌, ◌%◌, ◌^◌, ◌<◌, ◌≡◌, refl, ◌∙◌, Bool, ◌&&◌, Option, none, some,
  List, [], ◌∷◌, ◌++◌, ltb, leb, ◌==◌, if◌then◌else◌, u64_mod, arith, Bool-cases, inl, inr, ltb→lt,
  ap,
}
use bolt.Text.{Text, is_empty}

abbrev pub is_digit : ℕ → Bool
is_digit c = leb b'0' c && leb c b'9'

-- One digit: `checked_mul(10)` and `checked_add`.
unfoldable pub push_digit : ℕ → ℕ → Option ℕ
push_digit acc c =
    if is_digit c
    then (let v = acc * 10 + (c - b'0') in if ltb v u64_mod then some v else none)
    else none

unfoldable pub parse_digits : ℕ → Text → Option ℕ
parse_digits acc [] = some acc
parse_digits acc (c ∷ t) = elim (push_digit acc c) [ none ↦ none | some v ↦ parse_digits v t ]

parse_unsigned : Text → Option ℕ
parse_unsigned [] = none
parse_unsigned (c ∷ t) = parse_digits 0 (c ∷ t)

unfoldable pub parse_u64 : Text → Option ℕ
unfolding parse_unsigned
parse_u64 [] = none
parse_u64 (c ∷ t) = if c == b'+' then parse_unsigned t else parse_unsigned (c ∷ t)

-- The digits of a number below `10 ^ suc f`.
unfoldable pub print_digits : ℕ → ℕ → Text
print_digits zero n = (b'0' + n % 10) ∷ []
print_digits (suc f) n =
    let rest = print_digits f (n / 10) ++ (b'0' + n % 10) ∷ [] in
    if ltb n 10 then (b'0' + n) ∷ [] else rest

-- A `u64` has at most twenty digits.
unfoldable pub print_u64 : ℕ → Text
print_u64 = print_digits 19
