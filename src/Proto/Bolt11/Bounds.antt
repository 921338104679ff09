-- ===== src/Proto/Bolt11/Bounds.antt =====
-- Every decoded amount is positive and fits in a `u64`.
use bolt.Prelude.{
  ℕ, ◌-◌, ◌%◌, ◌<◌, ◌≡◌, inl, inr, some, arith, Option-cases, Result, ok, err, ok_or, >>=-eq-ok,
  mul64-lt, u64_mod, ◌==◌, Bool-cases, take, length,
}
use bolt.Proto.Bolt11.{
  InvoiceAmount, strip_network, parse_decimal, parse_whole, pico_to_msat, parse_pico_amount,
  parse_amount_with_multiplier, parse_amount_btc, parse_amount, btc_to_msat, positive,
  decode_amount, decode_bolt11_amount,
}
use bolt.Proto.Errors.{L402Error}
use bolt.Proto.Std.{Std}
use bolt.Text.Decimal.RoundTrip.{parse_u64-lt}
use bolt.Text.Decimal.{parse_u64}
use bolt.Text.{Text, rfind, last?}

positive-inv :
    (msat : ℕ) (a : InvoiceAmount)
    → positive msat ≡ ok (some a)
    → (a.millisatoshis ≡ msat) × (0 < msat)
unfolding positive
positive-inv msat a h = ground arith

-- A result that is below 2^64 if there is one.
abbrev Fits : Result L402Error ℕ → Type 0
Fits (ok n) = n < u64_mod
Fits (err e) = Unit

Fits-ok : (r : Result L402Error ℕ) {n : ℕ} → Fits r → r ≡ ok n → n < u64_mod
Fits-ok (ok m) h e = ground arith
Fits-ok (err x) h e = absurd (ground arith)

parse_whole-Fits : (t : Text) (f : ℕ) → Fits (parse_whole t f)
unfolding parse_whole
parse_whole-Fits t f = elim (Option-cases (parse_u64 t)) [
  | inl e ↦ rw (parse_whole, e) tt
  | inr (v, e) ↦ rw (parse_whole, e) (mul64-lt v f)
]

pico_to_msat-Fits : (v : ℕ) → v < u64_mod → Fits (pico_to_msat v)
unfolding pico_to_msat
pico_to_msat-Fits v h = elim (Bool-cases (v % 10 == 0)) [
  | inl e ↦ rw (pico_to_msat, e) (omega arith)
  | inr e ↦ rw (pico_to_msat, e) tt
]

parse_pico_amount-Fits : (t : Text) → Fits (parse_pico_amount t)
unfolding parse_pico_amount
parse_pico_amount-Fits t = elim (Option-cases (parse_u64 t)) [
  | inl e ↦ rw (parse_pico_amount, e) tt
  | inr (v, e) ↦ rw (parse_pico_amount, e) (pico_to_msat-Fits v (parse_u64-lt t e))
]

module _ (std : Std) where
  parse_decimal-Fits : (t : Text) (f : ℕ) → Fits (parse_decimal std t f)
  unfolding parse_decimal
  parse_decimal-Fits t f = elim (Option-cases (std.parse_f64 t)) [
    | inl e ↦ rw (parse_decimal, e) tt
    | inr (v, e) ↦ rw (parse_decimal, e) (std.f64_as_u64_lt _)
  ]

  parse_amount_with_multiplier-Fits :
      (t : Text) (c f : ℕ) → Fits (parse_amount_with_multiplier std t c f)
  unfolding parse_amount_with_multiplier
  parse_amount_with_multiplier-Fits t c f =
      ground (arith, parse_pico_amount-Fits t, parse_decimal-Fits t f, parse_whole-Fits t f)

  parse_amount_btc-Fits : (t : Text) → Fits (parse_amount_btc std t)
  unfolding parse_amount_btc
  parse_amount_btc-Fits t =
      ground (arith, parse_decimal-Fits t btc_to_msat, parse_whole-Fits t btc_to_msat)

  parse_amount-Fits : (t : Text) (c : ℕ) → Fits (parse_amount std t c)
  unfolding parse_amount
  parse_amount-Fits t c =
      let with_factor = parse_amount_with_multiplier-Fits (take (length t - 1) t) c in
      ground (
        arith,
        with_factor 100_000_000,
        with_factor 100_000,
        with_factor 100,
        with_factor 0,
        parse_amount_btc-Fits t,
      )

  decode_amount-lt :
      (t : Text) {a : InvoiceAmount}
      → decode_amount std t ≡ ok (some a)
      → (0 < a.millisatoshis) × (a.millisatoshis < u64_mod)
  unfolding decode_amount
  decode_amount-lt t {a} h = elim (Option-cases (last? t)) [
    | inl e ↦ absurd (ground arith)
    | inr (c, e) ↦
        let (msat, p, q) = >>=-eq-ok (parse_amount std t c) positive (rw (decode_amount, e) at h) in
        let (same, pos) = positive-inv msat a q in
        let lt = Fits-ok (parse_amount std t c) (parse_amount-Fits t c) p in
        (omega arith, omega arith)
  ]

  -- Whatever the invoice: a decoded amount is positive and fits in a `u64`.
  pub decode_bolt11_amount-lt :
      (invoice : Text) {a : InvoiceAmount}
      → decode_bolt11_amount std invoice ≡ ok (some a)
      → (0 < a.millisatoshis) × (a.millisatoshis < u64_mod)
  unfolding decode_bolt11_amount
  decode_bolt11_amount-lt invoice {a} h =
      let (rest, p, q) = >>=-eq-ok (ok_or (strip_network (std.to_lowercase invoice)) _) _ h in
      let (pos, r, s) = >>=-eq-ok (ok_or (rfind b'1' rest) _) _ q in
      decode_amount-lt (take pos rest) s
