-- ===== src/Proto/Challenge.antt =====
-- crates/bolt402-proto/src/challenge.rs: the `WWW-Authenticate` header. The base64 crate's two
-- decoders are a parameter, of which the source uses only whether they succeed.
pub mod Params
pub mod RoundTrip
pub mod Sound
use bolt.Prelude.{
  ℕ, Bool, true, false, not, ◌&&◌, ◌||◌, Option, none, some, List, [], ◌∷◌, ◌++◌, if◌then◌else◌,
  ◌==◌, take, Result, ok, err, ◌>>=◌, ok_or,
}
use bolt.Proto.Errors.{L402Error, invalid_challenge, invalid_macaroon, invalid_invoice}
use bolt.Proto.Scheme.{strip_scheme}
use bolt.Proto.Std.{Std}
use bolt.Text.Equality.{text_eq}
use bolt.Text.{Text, is_empty, trim, trim_matches, split_once, starts_with, codes, text}

pub record Base64 : Type 0 where
  -- Whether `BASE64_STANDARD.decode` returns `Ok`.
  pub is_standard : Text → Bool
  -- `BASE64_URL_SAFE.decode`, with the error's message.
  pub url_safe_error : Text → Option Text

pub record L402Challenge : Type 0 where
  pub macaroon : Text
  pub invoice : Text
  pub address : Option Text

abbrev pub quote : ℕ
quote = b'"'

-- What is pushed when a parameter ends.
unfoldable pub push_trimmed : Text → List Text → List Text
push_trimmed current rest = if is_empty (trim current) then rest else trim current ∷ rest

-- The loop of `parse_params`: `current` is what was read of the parameter.
unfoldable pub scan_params : Bool → Text → Text → List Text
scan_params in_quotes current [] = push_trimmed current []
scan_params in_quotes current (c ∷ input) = elim (c == quote) [
  | true ↦ scan_params (not in_quotes) (current ++ c ∷ []) input
  | false ↦ elim (c == b',' && not in_quotes) [
    | true ↦ push_trimmed current (scan_params in_quotes [] input)
    | false ↦ scan_params in_quotes (current ++ c ∷ []) input
  ]
]

abbrev pub parse_params : Text → List Text
parse_params = scan_params false []

-- The three variables that `from_header` fills.
pub record Fields : Type 0 where
  pub macaroon : Option Text
  pub invoice : Option Text
  pub address : Option Text

abbrev pub no_fields : Fields
no_fields = record { macaroon = none; invoice = none; address = none }

-- `match key.as_str()`.
unfoldable pub assign : Text × Text → Fields → Fields
assign (key, value) f =
    if text_eq key (codes "macaroon")
    then record f { macaroon = some value }
    else if text_eq key (codes "invoice")
    then record f { invoice = some value }
    else if text_eq key (codes "address")
    then record f { address = some value }
    else f

-- Lines 112 to 120.
unfoldable pub check_invoice : L402Challenge → Result L402Error L402Challenge
check_invoice c =
    if not (starts_with (codes "lnbc") c.invoice) && not (starts_with (codes "lntb") c.invoice)
    then err (
        invalid_invoice (
          text "invoice must start with 'lnbc' (mainnet) or 'lntb' (testnet), got: "
          ++ take 10 c.invoice))
    else ok c

-- Lines 103 to 110.
unfoldable pub check_macaroon : Base64 → Text → Result L402Error (Unit {0})
check_macaroon base64 macaroon =
    if not (base64.is_standard macaroon)
    then (elim (base64.url_safe_error macaroon) [
      | none ↦ ok tt
      | some e ↦ err (invalid_macaroon (text "base64 decode failed: " ++ e))
    ])
    else ok tt

module _ (std : Std) where
  unfoldable pub parse_kv : Text → Result L402Error (Text × Text)
  parse_kv param = do
    (key, rest) ←
        ok_or (split_once b'=' param)
          (invalid_challenge (text "expected key=value pair, got: " ++ param))
    ok (std.to_lowercase (trim key), trim_matches quote (trim rest))

  -- The loop over the parameters.
  unfoldable pub read_fields : List Text → Fields → Result L402Error Fields
  read_fields [] f = ok f
  read_fields (param ∷ params) f = do kv ← parse_kv param; read_fields params (assign kv f)

  unfoldable pub from_header : Base64 → Text → Result L402Error L402Challenge
  from_header base64 header = do
    params ← ok_or (strip_scheme (trim header)) (
        invalid_challenge
          (text "header must start with 'L402' or 'LSAT' scheme, got: " ++ take 20 (trim header)))
    f ← read_fields (parse_params params) no_fields
    macaroon ← ok_or f.macaroon (invalid_challenge (text "missing 'macaroon' parameter"))
    invoice ← ok_or f.invoice (invalid_challenge (text "missing 'invoice' parameter"))
    valid ← check_macaroon base64 macaroon
    check_invoice (record { macaroon = macaroon; invoice = invoice; address = f.address })
