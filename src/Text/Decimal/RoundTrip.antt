-- ===== src/Text/Decimal/RoundTrip.antt =====
-- A printed number parses back, and what it is made of.
use bolt.Prelude.{
  ℕ, zero, suc, ◌+◌, ◌*◌, ◌/◌, ◌%◌, ◌^◌, ◌<◌, ◌≤◌, ◌≡◌, ◌≢◌, ◌⊎◌, refl, ◌∙◌, some, [], ◌∷◌, ◌++◌,
  ltb, u64_mod, arith, Bool-cases, Option-cases, inl, inr, ltb→lt, ap, All, All-append,
}
use native.Mathlib.Nat.{pow-suc}
use mathlib.Core.List.{concat-ne-nil}
use bolt.Text.{Text}
use bolt.Text.Laws.{Lacks}
use bolt.Text.Decimal.{push_digit, parse_digits, parse_unsigned, parse_u64, print_digits, print_u64}

abbrev pub IsDigits : Text → Type 0
IsDigits = All (λ c. (b'0' ≤ c) × (c ≤ b'9'))

parse_digits-append :
    (acc : ℕ) (s : Text) (c v : ℕ)
    → parse_digits acc s ≡ some v
    → parse_digits acc (s ++ c ∷ []) ≡ push_digit v c
unfolding parse_digits
parse_digits-append acc [] c v h = ground arith
parse_digits-append acc (d ∷ s) c v h = elim (Option-cases (push_digit acc d)) [
  | inl e ↦ ground arith
  | inr (w, e) ↦ rw (e, parse_digits) (parse_digits-append w s c v (ground arith))
]

push_digit-digit :
    (acc d : ℕ) → d < 10 → acc * 10 + d < u64_mod → push_digit acc (b'0' + d) ≡ some (acc * 10 + d)
unfolding push_digit
push_digit-digit acc d h k = ground arith

print_digits-IsDigits : (f n : ℕ) → IsDigits (print_digits f n)
unfolding print_digits
print_digits-IsDigits zero n = omega arith
print_digits-IsDigits (suc f) n = elim (Bool-cases (ltb n 10)) [
  | inl e ↦ rw e (let h = ltb→lt n 10 e in omega arith)
  | inr e ↦
      rw e
        (All-append _ (print_digits f (n / 10)) _ (print_digits-IsDigits f (n / 10)) (omega arith))
]

div_lt_pow : (f n : ℕ) → n < 10 ^ suc (suc f) → n / 10 < 10 ^ suc f
div_lt_pow f n h = omega (arith, pow-suc 10 (suc f))

parse_digits_one : (d : ℕ) → d < 10 → parse_digits 0 ((b'0' + d) ∷ []) ≡ some d
unfolding parse_digits
parse_digits_one d h =
    rw (push_digit-digit 0 d h (omega arith), parse_digits) (ap some (omega arith))

parse_digits-print_digits :
    (f n : ℕ) → n < 10 ^ suc f → n < u64_mod → parse_digits 0 (print_digits f n) ≡ some n
unfolding print_digits
parse_digits-print_digits zero n h k =
    let e : n % 10 ≡ n = omega arith in rw e (parse_digits_one n h)
parse_digits-print_digits (suc f) n h k = elim (Bool-cases (ltb n 10)) [
  | inl e ↦ rw e (parse_digits_one n (ltb→lt n 10 e))
  | inr e ↦ rw e (
      parse_digits-append 0 (print_digits f (n / 10)) (b'0' + n % 10) (n / 10)
        (parse_digits-print_digits f (n / 10) (div_lt_pow f n h) (omega arith))
      ∙ push_digit-digit (n / 10) (n % 10) (omega arith) (omega arith)
      ∙ ap some (omega arith))
]

parse_u64-IsDigits :
    (t : Text) {v : ℕ} → IsDigits t → parse_digits 0 t ≡ some v → t ≢ [] → parse_u64 t ≡ some v
unfolding parse_u64
parse_u64-IsDigits [] h e ne = absurd (ne refl)
parse_u64-IsDigits (c ∷ t) h e ne = ground arith

print_digits-ne-nil : (f n : ℕ) → print_digits f n ≢ []
unfolding print_digits
print_digits-ne-nil zero n = ground arith
print_digits-ne-nil (suc f) n = elim (Bool-cases (ltb n 10)) [
  | inl e ↦ rw e (ground arith)
  | inr e ↦ rw e (λ h. concat-ne-nil _ _ h)
]

-- Every `u64` is printed as a text that parses back to it.
pub parse_u64-print_u64 : (n : ℕ) → n < u64_mod → parse_u64 (print_u64 n) ≡ some n
unfolding print_u64
parse_u64-print_u64 n h =
    parse_u64-IsDigits (print_digits 19 n) (print_digits-IsDigits 19 n)
      (parse_digits-print_digits 19 n (omega arith) h) (print_digits-ne-nil 19 n)

pub print_u64-IsDigits : (n : ℕ) → IsDigits (print_u64 n)
unfolding print_u64
print_u64-IsDigits n = print_digits-IsDigits 19 n

pub print_u64-ne-nil : (n : ℕ) → print_u64 n ≢ []
unfolding print_u64
print_u64-ne-nil n = print_digits-ne-nil 19 n

-- A text of digits has no character outside `0`..`9`.
pub IsDigits-Lacks : (q : ℕ) (t : Text) → (q < b'0') ⊎ (b'9' < q) → IsDigits t → Lacks q t
IsDigits-Lacks q [] h d = tt
IsDigits-Lacks q (c ∷ t) h d = (λ e. absurd (ground arith), IsDigits-Lacks q t h d.1)

-- What is parsed is a `u64`.
parse_digits-lt :
    (acc : ℕ) (t : Text) {v : ℕ} → acc < u64_mod → parse_digits acc t ≡ some v → v < u64_mod
unfolding parse_digits
parse_digits-lt acc [] h e = ground arith
parse_digits-lt acc (c ∷ t) {v} h e = elim (Option-cases (push_digit acc c)) [
  | inl p ↦ absurd (ground arith)
  | inr (w, p) ↦ parse_digits-lt w t (unfold push_digit in ground arith) (ground arith)
]

parse_unsigned-lt : (t : Text) {v : ℕ} → parse_unsigned t ≡ some v → v < u64_mod
unfolding parse_unsigned
parse_unsigned-lt [] e = absurd (ground arith)
parse_unsigned-lt (c ∷ t) e = parse_digits-lt 0 (c ∷ t) (omega arith) e

pub parse_u64-lt : (t : Text) {v : ℕ} → parse_u64 t ≡ some v → v < u64_mod
unfolding parse_u64
parse_u64-lt [] e = absurd (ground arith)
parse_u64-lt (c ∷ t) {v} e =
    ground (arith, parse_unsigned-lt (c ∷ t) {v = v}, parse_unsigned-lt t {v = v})
