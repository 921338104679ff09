-- ===== src/Cln.antt =====
-- crates/bolt402-cln/src: the backends of a Core Lightning node, over REST and over gRPC. This file
-- has error.rs; `rpc` holds the display of the gRPC status.
pub mod Rest
pub mod Grpc
use bolt.Prelude.{ℕ, ◌++◌}
use bolt.Proto.Errors.{ClientError, payment_failed, backend}
use bolt.Text.Decimal.{print_u64}
use bolt.Text.{Text, text}

pub data ClnError : Type 0 where
  transport : Text → ClnError
  rpc : Text → ClnError
  api : ℕ → Text → ClnError
  io : Text → ClnError
  payment : Text → ClnError
  deserialize : Text → ClnError

unfoldable pub to_string : ClnError → Text
to_string (transport e) = text "CLN transport error: " ++ e
to_string (rpc e) = text "CLN gRPC error: " ++ e
to_string (api status body) =
    text "CLN REST API error (" ++ (print_u64 status ++ (text "): " ++ body))
to_string (io e) = text "IO error: " ++ e
to_string (payment e) = text "payment failed: " ++ e
to_string (deserialize e) = text "deserialization error: " ++ e

-- `From<ClnError> for ClientError`.
unfoldable pub to_client_error : ClnError → ClientError
to_client_error (payment reason) = payment_failed reason
to_client_error other = backend (to_string other)
