-- ===== src/Proto/Port.antt =====
-- crates/bolt402-proto/src/port.rs: the two ports of the client, as records of operations.
use bolt.Prelude.{ℕ, Option, none, some, Result, ok, ◌≡◌}
use bolt.Proto.Errors.{ClientError}
use bolt.Text.{Text}

pub record PaymentResult : Type 0 where
  pub preimage : Text
  pub payment_hash : Text
  pub amount_sats : ℕ
  pub fee_sats : ℕ

pub record NodeInfo : Type 0 where
  pub pubkey : Text
  pub alias : Text
  pub num_active_channels : ℕ

-- A node and the network behind it: a call moves it to a new state, and returns.
pub record LnBackend (Node : Type 0) : Type 0 where
  pub pay_invoice : Text → ℕ → Node → Node × Result ClientError PaymentResult
  pub get_balance : Node → Node × Result ClientError ℕ
  pub get_info : Node → Node × Result ClientError NodeInfo

pub record TokenStore (Store : Type 0) : Type 0 where
  pub put : Text → Text → Text → Store → Store × Result ClientError (Unit {0})
  pub get : Text → Store → Store × Result ClientError (Option (Text × Text))
  pub remove : Text → Store → Store × Result ClientError (Unit {0})
  pub clear : Store → Store × Result ClientError (Unit {0})

-- What the client relies on in a store: a `get` that succeeds returns what the last `put` or
-- `remove` of the endpoint that succeeded has left, and reading changes nothing.
pub record IsStore {Store : Type 0} (t : TokenStore Store) : Type 0 where
  pub get_keeps : (k : Text) (s : Store) → (t.get k s).0 ≡ s
  pub get_put :
      (k m p : Text) (s : Store) {r : Option (Text × Text)}
      → (t.put k m p s).1 ≡ ok tt
      → (t.get k (t.put k m p s).0).1 ≡ ok r
      → r ≡ some (m, p)
  pub get_removed :
      (k : Text) (s : Store) {r : Option (Text × Text)}
      → (t.remove k s).1 ≡ ok tt
      → (t.get k (t.remove k s).0).1 ≡ ok r
      → r ≡ none
