-- ===== src/Proto/Bolt11/Decode.antt =====
-- Invoices with a whole number in the amount: what the decoder returns, against the BOLT11 table
-- of multipliers.
use bolt.Prelude.{
  ℕ, ◌-◌, ◌≤◌, ◌<◌, ◌≡◌, ◌≢◌, inl, refl, ◌∙◌, ap, none, some, [], ◌∷◌, ◌++◌, length, take, arith,
  Result, ok, ◌>>=◌, take-length-append, length-append, append-nil, false, mul64, u64_mod,
}
use bolt.Proto.Bolt11.{
  multiplier, pico_to_msat, parse_whole, parse_pico_amount, parse_amount_with_multiplier,
  parse_amount_btc, parse_amount, positive, decode_amount,
}
use bolt.Proto.Errors.{L402Error}
use bolt.Proto.Std.{Std}
use bolt.Text.Decimal.RoundTrip.{
  IsDigits, parse_u64-print_u64, print_u64-IsDigits, print_u64-ne-nil, IsDigits-Lacks,
}
use bolt.Text.Decimal.{print_u64}
use bolt.Text.Laws.{contains-Lacks, last?-append}
use bolt.Text.{Text, is_empty, contains, last?}

pub data Denomination : Type 0 where
  whole milli micro nano pico : Denomination

abbrev pub suffix : Denomination → Text
suffix whole = []
suffix milli = b'm' ∷ []
suffix micro = b'u' ∷ []
suffix nano = b'n' ∷ []
suffix pico = b'p' ∷ []

-- The worth of one unit in picobitcoin, by BOLT11. Ten of them are one millisatoshi.
abbrev pub picobitcoin : Denomination → ℕ
picobitcoin whole = 1_000_000_000_000
picobitcoin milli = 1_000_000_000
picobitcoin micro = 1_000_000
picobitcoin nano = 1_000
picobitcoin pico = 1

-- What the decoder makes of a number of units.
abbrev pub converted : Denomination → ℕ → Result L402Error ℕ
converted whole v = ok (mul64 v 100_000_000_000)
converted milli v = ok (mul64 v 100_000_000)
converted micro v = ok (mul64 v 100_000)
converted nano v = ok (mul64 v 100)
converted pico v = pico_to_msat v

take_init : (t : Text) (c : ℕ) → take (length (t ++ c ∷ []) - 1) (t ++ c ∷ []) ≡ t
take_init t c =
    ap (λ n. take n (t ++ c ∷ [])) (let e = length-append t (c ∷ []) in omega arith)
    ∙ take-length-append t (c ∷ [])

no_point : (v : ℕ) → contains b'.' (print_u64 v) ≡ false
no_point v =
    contains-Lacks b'.' _ (IsDigits-Lacks b'.' _ (inl (omega arith)) (print_u64-IsDigits v))

is_empty_of_ne : (t : Text) → t ≢ [] → is_empty t ≡ false
is_empty_of_ne [] h = absurd (h refl)
is_empty_of_ne (c ∷ t) h = refl

last_digit :
    (t : Text) → IsDigits t → t ≢ [] → (d : ℕ) × (last? t ≡ some d) × (b'0' ≤ d) × (d ≤ b'9')
unfolding last?
last_digit [] h ne = absurd (ne refl)
last_digit (c ∷ []) h ne = (c, refl, h.0.0, h.0.1)
last_digit (c ∷ d ∷ t) h ne = last_digit (d ∷ t) h.1 (λ e. cc)

multiplier-digit : (c : ℕ) → b'0' ≤ c → c ≤ b'9' → multiplier c ≡ none
multiplier-digit c h k = ground arith

module _ (std : Std) (v : ℕ) (small : v < u64_mod) where
  parse_whole-print : (f : ℕ) → parse_whole (print_u64 v) f ≡ ok (mul64 v f)
  unfolding parse_whole
  parse_whole-print f = rw (parse_u64-print_u64, small)

  parse_pico_amount-print : parse_pico_amount (print_u64 v) ≡ pico_to_msat v
  unfolding parse_pico_amount
  parse_pico_amount-print = rw (parse_u64-print_u64, small)

  decode_amount-suffix :
      (c f : ℕ)
      → multiplier c ≡ some f
      → decode_amount std (print_u64 v ++ c ∷ [])
        ≡ (parse_amount_with_multiplier std (print_u64 v) c f >>= positive)
  unfolding decode_amount parse_amount
  decode_amount-suffix c f e =
      rw (decode_amount, last?-append (print_u64 v) c)
        (rw (parse_amount, e)
          (rw (take_init (print_u64 v) c) (rw (is_empty_of_ne (print_u64 v) (print_u64-ne-nil v)))))

  decode_amount-whole :
      decode_amount std (print_u64 v) ≡ (parse_amount_btc std (print_u64 v) >>= positive)
  unfolding decode_amount parse_amount
  decode_amount-whole =
      let (d, e, lo, hi) = last_digit (print_u64 v) (print_u64-IsDigits v) (print_u64-ne-nil v) in
      rw (decode_amount, e) (rw (parse_amount, multiplier-digit d lo hi) (ground arith))

  with_multiplier :
      (c f : ℕ) → c ≢ b'p' → parse_amount_with_multiplier std (print_u64 v) c f ≡ ok (mul64 v f)
  unfolding parse_amount_with_multiplier
  with_multiplier c f ne = ground (arith, no_point v, parse_whole-print f)

  -- The decoder on a printed number and the suffix of a denomination.
  pub decode_amount-print :
      (d : Denomination)
      → decode_amount std (print_u64 v ++ suffix d) ≡ (converted d v >>= positive)
  decode_amount-print whole =
      rw (append-nil, decode_amount-whole)
        (unfold parse_amount_btc in ground (arith, no_point v, parse_whole-print 100_000_000_000))
  decode_amount-print milli =
      rw (decode_amount-suffix b'm' _ refl, with_multiplier b'm' 100_000_000 (omega arith))
  decode_amount-print micro =
      rw (decode_amount-suffix b'u' _ refl, with_multiplier b'u' 100_000 (omega arith))
  decode_amount-print nano =
      rw (decode_amount-suffix b'n' _ refl, with_multiplier b'n' 100 (omega arith))
  decode_amount-print pico =
      rw (decode_amount-suffix b'p' _ refl)
        (unfold parse_amount_with_multiplier in ground (arith, parse_pico_amount-print))
