-- ===== src/Mock.antt =====
-- crates/bolt402-mock/src: the mock L402 server and the mock Lightning backend, over the registry of
-- challenges that they share. The hex, sha2 and base64 crates are a parameter, and so is the
-- randomness: a draw of 32 bytes is the next element of a stream.
pub mod Challenge
pub mod Laws
pub mod Purchase
pub mod Backend
pub mod Server
use bolt.HashMap.{HashMap}
use bolt.Prelude.{ℕ, Option}
use bolt.Text.{Text}

-- Bytes are numbers below 256; an ASCII text is its own bytes.
pub record Codec : Type 0 where
  pub hex_encode : Text → Text
  pub hex_decode : Text → Option Text
  pub sha256 : Text → Text
  pub base64_encode : Text → Text

pub record PendingChallenge : Type 0 where
  pub preimage : Text
  pub payment_hash : Text
  pub macaroon : Text
  pub invoice : Text
  pub amount_sats : ℕ

-- What the server and the backend change: the registry, keyed by invoice, the simulated balance, and
-- how many preimages were drawn.
pub record MockState : Type 0 where
  pub challenges : HashMap Text PendingChallenge
  pub balance : ℕ
  pub drawn : ℕ
