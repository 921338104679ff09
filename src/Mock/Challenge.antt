-- ===== src/Mock/Challenge.antt =====
-- crates/bolt402-mock/src/challenge.rs: the challenges that the server issues.
pub mod Invoice
pub mod Header
use bolt.Mock.{Codec, PendingChallenge}
use bolt.Prelude.{
  ℕ, ◌/◌, ◌%◌, Bool, true, false, ◌&&◌, Option, none, some, [], ◌∷◌, ◌++◌, map, take, leb, ◌==◌,
  if◌then◌else◌, mul64,
}
use bolt.Text.Decimal.{print_u64}
use bolt.Text.Equality.{text_eq}
use bolt.Text.{Text, codes}

abbrev pub safe_char : ℕ → ℕ
safe_char c = if c == b'1' then b'x' else c

-- Lines 50 to 54.
unfoldable pub safe_hash : Text → Text
safe_hash payment_hash = take 20 (map safe_char payment_hash)

-- Lines 56 to 61.
unfoldable pub invoice_for : ℕ → Text → Text
invoice_for amount_sats safe =
    if leb 100 amount_sats && amount_sats % 100 == 0
    then codes "lnbc" ++ (print_u64 (amount_sats / 100) ++ (codes "u1mock" ++ safe))
    else codes "lnbc" ++ (print_u64 (mul64 amount_sats 10) ++ (codes "n1mock" ++ safe))

module _ (codec : Codec) where
  abbrev pub hash_of : Text → Text
  hash_of bytes = codec.hex_encode (codec.sha256 bytes)

  -- Line 41.
  abbrev pub macaroon_data : Text → Text
  macaroon_data payment_hash = codes "{\"payment_hash\":\"" ++ (payment_hash ++ codes "\"}")

  -- `generate`, with the bytes that were drawn.
  unfoldable pub generate : Text → ℕ → PendingChallenge
  generate preimage_bytes amount_sats = record {
    preimage = codec.hex_encode preimage_bytes;
    payment_hash = hash_of preimage_bytes;
    macaroon = codec.base64_encode (macaroon_data (hash_of preimage_bytes));
    invoice = invoice_for amount_sats (safe_hash (hash_of preimage_bytes));
    amount_sats = amount_sats;
  }

  unfoldable pub validate_preimage : PendingChallenge → Text → Bool
  validate_preimage challenge preimage_hex = elim (codec.hex_decode preimage_hex) [
    | none ↦ false
    | some bytes ↦ text_eq (hash_of bytes) challenge.payment_hash
  ]

  unfoldable pub validate_auth : PendingChallenge → Text → Text → Bool
  validate_auth challenge macaroon preimage_hex =
      text_eq macaroon challenge.macaroon && validate_preimage challenge preimage_hex

unfoldable pub to_www_authenticate : PendingChallenge → Text
to_www_authenticate challenge =
    codes "L402 macaroon=\""
    ++ (challenge.macaroon ++ (codes "\", invoice=\"" ++ (challenge.invoice ++ codes "\"")))
