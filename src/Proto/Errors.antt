-- ===== src/Proto/Errors.antt =====
-- crates/bolt402-proto/src/error.rs and client_error.rs. A `reason` is the message's text.
use bolt.Prelude.{◌++◌}
use bolt.Text.{Text, text}

pub data L402Error : Type 0 where
  invalid_challenge : Text → L402Error
  invalid_macaroon : Text → L402Error
  invalid_invoice : Text → L402Error
  preimage_mismatch : Text → Text → L402Error
  invalid_token : Text → L402Error
  base64_decode : Text → L402Error

pub data ClientError : Type 0 where
  protocol : L402Error → ClientError
  payment_failed : Text → ClientError
  budget_exceeded : Text → ClientError
  missing_challenge : ClientError
  invoice_expired : ClientError
  retry_failed : Text → ClientError
  backend : Text → ClientError
  http : Text → ClientError

-- The messages, `Display`.
unfoldable pub l402_to_string : L402Error → Text
l402_to_string (invalid_challenge reason) = text "invalid L402 challenge: " ++ reason
l402_to_string (invalid_macaroon reason) = text "invalid macaroon: " ++ reason
l402_to_string (invalid_invoice reason) = text "invalid invoice: " ++ reason
l402_to_string (preimage_mismatch expected actual) =
    text "preimage mismatch: expected " ++ (expected ++ (text ", got " ++ actual))
l402_to_string (invalid_token reason) = text "invalid token: " ++ reason
l402_to_string (base64_decode e) = text "base64 decode error: " ++ e

unfoldable pub client_to_string : ClientError → Text
client_to_string (protocol e) = text "L402 protocol error: " ++ l402_to_string e
client_to_string (payment_failed reason) = text "payment failed: " ++ reason
client_to_string (budget_exceeded reason) = text "budget exceeded: " ++ reason
client_to_string missing_challenge = text "server returned 402 but no valid WWW-Authenticate header"
client_to_string invoice_expired = text "invoice expired"
client_to_string (retry_failed reason) = text "retry after payment failed: " ++ reason
client_to_string (backend reason) = text "backend error: " ++ reason
client_to_string (http reason) = text "HTTP error: " ++ reason
