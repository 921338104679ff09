-- ===== src/Proto/Token.antt =====
-- crates/bolt402-proto/src/token.rs: the `Authorization` header.
pub mod RoundTrip
use bolt.Prelude.{ℕ, Bool, Option, [], ◌∷◌, ◌++◌, if◌then◌else◌, Result, ok, err, ◌>>=◌, ok_or}
use bolt.Proto.Errors.{L402Error, invalid_token}
use bolt.Proto.Scheme.{l402, strip_scheme}
use bolt.Text.{Text, is_empty, trim, split_once, text}

pub record L402Token : Type 0 where
  pub macaroon : Text
  pub preimage : Text

unfoldable pub to_header_value : L402Token → Text
to_header_value token = l402 ++ (token.macaroon ++ b':' ∷ token.preimage)

unfoldable pub check_parts : Text → Text → Result L402Error L402Token
check_parts macaroon preimage =
    if is_empty macaroon
    then err (invalid_token (text "macaroon part is empty"))
    else if is_empty preimage
    then err (invalid_token (text "preimage part is empty"))
    else ok (record { macaroon = macaroon; preimage = preimage })

unfoldable pub from_header : Text → Result L402Error L402Token
from_header header = do
  credentials ←
      ok_or (strip_scheme (trim header))
        (invalid_token (text "authorization header must start with 'L402' or 'LSAT'"))
  (macaroon, preimage) ←
      ok_or (split_once b':' credentials)
        (invalid_token (text "expected format: L402 <macaroon>:<preimage>"))
  check_parts macaroon preimage
