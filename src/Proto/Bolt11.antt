-- ===== src/Proto/Bolt11.antt =====
-- crates/bolt402-proto/src/bolt11.rs: the amount of a BOLT11 invoice.
pub mod Amount
pub mod Decode
pub mod Exact
pub mod Bounds
pub mod Networks
use bolt.Prelude.{
  ℕ, ◌+◌, ◌-◌, ◌*◌, ◌/◌, ◌%◌, ◌^◌, Bool, true, false, Option, none, some, [], ◌∷◌, ◌++◌, ltb, ◌==◌,
  if◌then◌else◌, length, take, mul64, Result, ok, err, ◌>>=◌, ok_or,
}
use bolt.Proto.Errors.{L402Error, invalid_invoice}
use bolt.Proto.Std.{Std}
use bolt.Text.Decimal.{parse_u64, print_u64, is_digit}
use bolt.Text.{Text, is_empty, strip_prefix, rfind, contains, last?, codes, text}

pub record InvoiceAmount : Type 0 where
  pub millisatoshis : ℕ

abbrev pub from_millisatoshis : ℕ → InvoiceAmount
from_millisatoshis n = record { millisatoshis = n }

unfoldable pub from_satoshis : ℕ → InvoiceAmount
from_satoshis n = record { millisatoshis = mul64 n 1000 }

-- `div_ceil(1_000)`.
unfoldable pub satoshis : InvoiceAmount → ℕ
satoshis a =
    if ltb 0 (a.millisatoshis % 1000) then a.millisatoshis / 1000 + 1 else a.millisatoshis / 1000

unfoldable pub satoshis_floor : InvoiceAmount → ℕ
satoshis_floor a = a.millisatoshis / 1000

-- `MULTIPLIERS.iter().find(..)`: millisatoshis for one unit.
abbrev pub multiplier : ℕ → Option ℕ
multiplier c =
    if c == b'm'
    then some 100_000_000
    else if c == b'u'
    then some 100_000
    else if c == b'n'
    then some 100
    else if c == b'p'
    then some 0
    else none

abbrev pub btc_to_msat : ℕ
btc_to_msat = 100_000_000_000

unfoldable pub strip_network : Text → Option Text
strip_network t = elim (strip_prefix (codes "lnbcrt") t) [
  | some rest ↦ some rest
  | none ↦ elim (strip_prefix (codes "lnbc") t) [
    | some rest ↦ some rest
    | none ↦ elim (strip_prefix (codes "lntbs") t) [
      | some rest ↦ some rest
      | none ↦ strip_prefix (codes "lntb") t
    ]
  ]
]

pub bad_number : Text → L402Error
bad_number t = invalid_invoice (text "invalid amount number: '" ++ (t ++ text "'"))

-- A whole number, in a release build.
unfoldable pub parse_whole : Text → ℕ → Result L402Error ℕ
parse_whole number factor = do
  value ← ok_or (parse_u64 number) (bad_number number)
  ok (mul64 value factor)

unfoldable pub pico_to_msat : ℕ → Result L402Error ℕ
pico_to_msat value =
    if value % 10 == 0
    then ok (value / 10)
    else err (
        invalid_invoice
          (text "picobitcoin amount must be a multiple of 10, got " ++ print_u64 value))

unfoldable pub parse_pico_amount : Text → Result L402Error ℕ
parse_pico_amount number = do
  value ← ok_or (parse_u64 number) (bad_number number)
  pico_to_msat value

-- Lines 169 to 175.
unfoldable pub positive : ℕ → Result L402Error (Option InvoiceAmount)
positive msat =
    if msat == 0
    then err (invalid_invoice (text "invoice amount must be positive (got 0)"))
    else ok (some (record { millisatoshis = msat }))

module _ (std : Std) where
  -- `(value * factor as f64).round() as u64` on a number with a decimal point.
  unfoldable pub parse_decimal : Text → ℕ → Result L402Error ℕ
  parse_decimal number factor = do
    value ← ok_or (std.parse_f64 number) (bad_number number)
    ok (std.f64_as_u64 (std.f64_round (std.f64_mul value (std.u64_as_f64 factor))))

  unfoldable pub parse_amount_with_multiplier : Text → ℕ → ℕ → Result L402Error ℕ
  parse_amount_with_multiplier number c factor =
      if c == b'p'
      then parse_pico_amount number
      else if contains b'.' number
      then parse_decimal number factor
      else parse_whole number factor

  unfoldable pub parse_amount_btc : Text → Result L402Error ℕ
  parse_amount_btc number =
      if contains b'.' number
      then parse_decimal number btc_to_msat
      else parse_whole number btc_to_msat

  -- Lines 141 to 167, on an amount that is not empty and its last character.
  unfoldable pub parse_amount : Text → ℕ → Result L402Error ℕ
  parse_amount amount last = elim (multiplier last) [
    | some factor ↦
        let number = take (length amount - 1) amount in
        if is_empty number
        then err (invalid_invoice (text "amount multiplier present but no numeric value"))
        else parse_amount_with_multiplier number last factor
    | none ↦
        if is_digit last
        then parse_amount_btc amount
        else err (invalid_invoice (text "unknown amount multiplier: '" ++ last ∷ text "'"))
  ]

  -- Lines 128 to 175: the amount is what stands before the separator.
  unfoldable pub decode_amount : Text → Result L402Error (Option InvoiceAmount)
  decode_amount amount = elim (last? amount) [
    | none ↦ ok none
    | some last ↦ do msat ← parse_amount amount last; positive msat
  ]

  unfoldable pub decode_bolt11_amount : Text → Result L402Error (Option InvoiceAmount)
  decode_bolt11_amount invoice = do
    rest ←
        ok_or (strip_network (std.to_lowercase invoice))
          (invalid_invoice (text "invoice must start with 'lnbc', 'lntb', 'lnbcrt', or 'lntbs'"))
    pos ←
        ok_or (rfind b'1' rest)
          (invalid_invoice (text "missing '1' separator between human-readable and data parts"))
    decode_amount (take pos rest)
