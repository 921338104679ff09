-- ===== src/Proto/Std.antt =====
-- What the crates use of Rust's library that is too large to write out: Unicode lower case and
-- `f64`. A model takes it as a parameter, with the documented facts that it relies on.
use bolt.Prelude.{
  ℕ, ◌+◌, ◌<◌, ◌≡◌, refl, ◌&&◌, Option, none, [], ◌∷◌, map, All, leb, if◌then◌else◌, u64_mod, arith,
}
use bolt.Text.{Text}

abbrev pub IsAscii : Text → Type 0
IsAscii = All (λ c. c < 128)

abbrev pub ascii_lower : ℕ → ℕ
ascii_lower c = if leb b'A' c && leb c b'Z' then c + 32 else c

pub record Std : Type 1 where
  -- `str::to_lowercase`, which maps an ASCII text letter by letter.
  pub to_lowercase : Text → Text
  pub lowercase_ascii : (t : Text) → IsAscii t → to_lowercase t ≡ map ascii_lower t
  -- `f64`: `parse`, `as f64`, `*`, `round`, and `as u64`, which saturates.
  pub F64 : Type 0
  pub parse_f64 : Text → Option F64
  pub u64_as_f64 : ℕ → F64
  pub f64_mul : F64 → F64 → F64
  pub f64_round : F64 → F64
  pub f64_as_u64 : F64 → ℕ
  pub f64_as_u64_lt : (x : F64) → f64_as_u64 x < u64_mod

-- A library that knows no letters but those of ASCII and no floats.
abbrev pub ascii_std : Std
ascii_std = record {
  to_lowercase = map ascii_lower;
  lowercase_ascii = λ t h. refl;
  F64 = Unit;
  parse_f64 = λ t. none;
  u64_as_f64 = λ n. tt;
  f64_mul = λ x y. tt;
  f64_round = λ x. x;
  f64_as_u64 = λ x. 0;
  f64_as_u64_lt = λ x. omega arith;
}

-- Text that lower case leaves alone.
abbrev pub IsLower : Text → Type 0
IsLower = All (λ c. (c < 128) × (ascii_lower c ≡ c))

pub IsLower-IsAscii : (t : Text) → IsLower t → IsAscii t
IsLower-IsAscii [] h = tt
IsLower-IsAscii (c ∷ t) h = (h.0.0, IsLower-IsAscii t h.1)

pub map-ascii_lower : (t : Text) → IsLower t → map ascii_lower t ≡ t
map-ascii_lower [] h = refl
map-ascii_lower (c ∷ t) h = ground (arith, map-ascii_lower t h.1, h.0.1)
