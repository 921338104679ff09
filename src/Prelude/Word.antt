-- ===== src/Prelude/Word.antt =====
-- `u64`: a value is a number below `u64_mod`; a release build wraps sums and products.
use Prim.Native.Nat.{ℕ, min, ◌+◌, ◌*◌, ◌-◌, ◌%◌, ◌^◌, ◌<◌}
use bolt.Prelude.Tests.{ltb, if◌then◌else◌}
use mathlib.Core.Path.{◌≡◌, refl}
use native.Mathlib.Nat.{mod-eq_of_lt}
use native.Mathlib.Omega.{arith}

abbrev pub u64_mod : ℕ
u64_mod = 2 ^ 64

abbrev pub u64_max : ℕ
u64_max = 2 ^ 64 - 1

-- `a + b` and `a * b` in a release build.
abbrev pub add64 : ℕ → ℕ → ℕ
add64 a b = (a + b) % u64_mod

unfoldable pub mul64 : ℕ → ℕ → ℕ
mul64 a b = (a * b) % u64_mod

pub mul64-exact : (a b : ℕ) → a * b < u64_mod → mul64 a b ≡ a * b
unfolding mul64
mul64-exact a b h = mod-eq_of_lt h

pub mul64-lt : (a b : ℕ) → mul64 a b < u64_mod
unfolding mul64
mul64-lt a b = omega arith

pub mul64-mod : (a b : ℕ) → mul64 a b ≡ (a * b) % u64_mod
unfolding mul64
mul64-mod a b = refl

-- An `i64`: `negsuc n` is `-(n + 1)`.
pub data ℤ : Type 0 where
  pos negsuc : ℕ → ℤ

abbrev pub i64_half : ℕ
i64_half = 9_223_372_036_854_775_808

-- `u64::try_from(n).unwrap_or(0)`.
abbrev pub u64_or_zero : ℤ → ℕ
u64_or_zero (pos n) = n
u64_or_zero (negsuc n) = 0

-- `i64::try_from(n).unwrap_or(i64::MAX)`.
unfoldable pub i64_or_max : ℕ → ℕ
i64_or_max n = if ltb n i64_half then n else i64_half - 1

-- `saturating_mul(1000)`.
unfoldable pub saturating_thousand : ℕ → ℕ
saturating_thousand n = min (n * 1_000) u64_max

pub saturating_thousand-lt : (n : ℕ) → saturating_thousand n < u64_mod
unfolding saturating_thousand
saturating_thousand-lt n = omega arith

pub saturating_thousand-min : (n : ℕ) → saturating_thousand n ≡ min (n * 1_000) u64_max
unfolding saturating_thousand
saturating_thousand-min n = refl
