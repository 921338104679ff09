-- ===== src/Lnd.antt =====
-- crates/bolt402-lnd/src: the backends of an LND node, over REST and over gRPC. This file has
-- error.rs; `rpc` holds the display of the gRPC status.
pub mod Update
pub mod Rest
pub mod Grpc
use bolt.Prelude.{ℕ, ◌++◌}
use bolt.Proto.Errors.{ClientError, payment_failed, backend}
use bolt.Text.Decimal.{print_u64}
use bolt.Text.{Text, text}

pub data LndError : Type 0 where
  transport : Text → LndError
  rpc : Text → LndError
  api : ℕ → Text → LndError
  io : Text → LndError
  payment : Text → LndError
  deserialize : Text → LndError

unfoldable pub to_string : LndError → Text
to_string (transport e) = text "LND transport error: " ++ e
to_string (rpc e) = text "LND gRPC error: " ++ e
to_string (api status body) =
    text "LND REST API error (" ++ (print_u64 status ++ (text "): " ++ body))
to_string (io e) = text "IO error: " ++ e
to_string (payment e) = text "payment failed: " ++ e
to_string (deserialize e) = text "deserialization error: " ++ e

-- `From<LndError> for ClientError`.
unfoldable pub to_client_error : LndError → ClientError
to_client_error (payment reason) = payment_failed reason
to_client_error other = backend (to_string other)
