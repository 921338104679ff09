-- ===== src/Core/Client/Extract.antt =====
-- What the client reads from a 402 response: the challenge, and the amount of its invoice.
use bolt.Core.Client.{HttpResponse}
use bolt.Prelude.{ℕ, Option, none, some, Result, ok, err, map_err, ok_or, ◌>>=◌}
use bolt.Proto.Bolt11.{InvoiceAmount, satoshis, decode_bolt11_amount}
use bolt.Proto.Challenge
use bolt.Proto.Challenge.{L402Challenge, Base64}
use bolt.Proto.Errors.{ClientError, L402Error, protocol, missing_challenge}
use bolt.Proto.Std.{Std}
use bolt.Text.{Text}

unfoldable pub extract_challenge : Std → Base64 → HttpResponse → Result ClientError L402Challenge
extract_challenge std base64 response = do
  header ← ok_or response.www_authenticate missing_challenge
  value ← ok_or header missing_challenge
  map_err protocol (Challenge.from_header std base64 value)

-- No amount, and an amount that cannot be decoded, count as 0.
abbrev pub amount_or_zero : Result L402Error (Option InvoiceAmount) → ℕ
amount_or_zero (err e) = 0
amount_or_zero (ok none) = 0
amount_or_zero (ok (some a)) = satoshis a

-- Lines 281 to 285.
unfoldable pub invoice_amount_sats : Std → Text → ℕ
invoice_amount_sats std invoice = amount_or_zero (decode_bolt11_amount std invoice)
