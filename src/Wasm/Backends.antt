-- ===== src/Wasm/Backends.antt =====
-- crates/bolt402-wasm/src/backends.rs: the three wallets' backends for JavaScript.
use bolt.Cln
use bolt.Cln.Rest
use bolt.Cln.Rest.{ClnJson, ClnRestBackend, cln_rest_backend}
use bolt.Lnd
use bolt.Lnd.Rest.{LndJson, LndRestBackend, lnd_rest_backend}
use bolt.Prelude.{ℕ, ◌++◌, Result, ok, map_err, ◌>>=◌, add64}
use bolt.Proto.Port.{PaymentResult, NodeInfo, LnBackend}
use bolt.Rest.{HttpClient, Crypto}
use bolt.SwissKnife
use bolt.SwissKnife.{SwissKnifeJson, SwissKnifeBackend, swissknife_backend}
use bolt.Text.{Text, text}
use bolt.Wasm.{js_error}

pub record WasmPaymentResult : Type 0 where
  pub preimage : Text
  pub payment_hash : Text
  pub amount_sats : ℕ
  pub fee_sats : ℕ

abbrev pub payment_cost_sats : WasmPaymentResult → ℕ
payment_cost_sats p = add64 p.amount_sats p.fee_sats

pub record WasmNodeInfo : Type 0 where
  pub pubkey : Text
  pub alias : Text
  pub num_active_channels : ℕ

abbrev pub from_payment : PaymentResult → WasmPaymentResult
from_payment p = record {
  preimage = p.preimage;
  payment_hash = p.payment_hash;
  amount_sats = p.amount_sats;
  fee_sats = p.fee_sats;
}

abbrev pub from_info : NodeInfo → WasmNodeInfo
from_info info = record {
  pubkey = info.pubkey;
  alias = info.alias;
  num_active_channels = info.num_active_channels;
}

-- The calls of a backend that JavaScript can make, over the backend that they wrap.
module _ {Node : Type 0} (inner : LnBackend Node) where
  unfoldable pub js_pay_invoice : Text → ℕ → Node → Node × Result Text WasmPaymentResult
  js_pay_invoice bolt11 max_fee_sats node =
      let r = inner.pay_invoice bolt11 max_fee_sats node in
      (r.0, js_error r.1 >>= λ p. ok (from_payment p))

  unfoldable pub js_get_balance : Node → Node × Result Text ℕ
  js_get_balance node = let r = inner.get_balance node in (r.0, js_error r.1)

  unfoldable pub js_get_info : Node → Node × Result Text WasmNodeInfo
  js_get_info node =
      let r = inner.get_info node in (r.0, js_error r.1 >>= λ info. ok (from_info info))

module _ {Node : Type 0} where
  -- The constructors.
  unfoldable pub lnd_new :
      Result Text (HttpClient Node) → Text → Text → Result Text (LndRestBackend Node)
  lnd_new built url macaroon =
      map_err (λ e. text "failed to create LND backend: " ++ Lnd.to_string e)
        (bolt.Lnd.Rest.new built url macaroon)

  unfoldable pub cln_new :
      Result Text (HttpClient Node) → Text → Text → Result Text (ClnRestBackend Node)
  cln_new built url rune =
      map_err (λ e. text "failed to create CLN backend: " ++ Cln.to_string e)
        (Rest.new built url rune)

  abbrev pub with_rune :
      Result Text (HttpClient Node) → Text → Text → Result Text (ClnRestBackend Node)
  with_rune = cln_new

  abbrev pub swissknife_new : HttpClient Node → Text → Text → SwissKnifeBackend Node
  swissknife_new = SwissKnife.new

  -- The calls of `WasmLndRestBackend`, `WasmClnRestBackend` and `WasmSwissKnifeBackend`.
  abbrev pub lnd_pay_invoice :
      LndJson
      → Crypto
      → LndRestBackend Node
      → Text
      → ℕ
      → Node
      → Node × Result Text WasmPaymentResult
  lnd_pay_invoice json crypto b = js_pay_invoice (lnd_rest_backend json crypto b)

  abbrev pub lnd_get_balance : LndJson → Crypto → LndRestBackend Node → Node → Node × Result Text ℕ
  lnd_get_balance json crypto b = js_get_balance (lnd_rest_backend json crypto b)

  abbrev pub lnd_get_info :
      LndJson → Crypto → LndRestBackend Node → Node → Node × Result Text WasmNodeInfo
  lnd_get_info json crypto b = js_get_info (lnd_rest_backend json crypto b)

  abbrev pub cln_pay_invoice :
      ClnJson → ClnRestBackend Node → Text → ℕ → Node → Node × Result Text WasmPaymentResult
  cln_pay_invoice json b = js_pay_invoice (cln_rest_backend json b)

  abbrev pub cln_get_balance : ClnJson → ClnRestBackend Node → Node → Node × Result Text ℕ
  cln_get_balance json b = js_get_balance (cln_rest_backend json b)

  abbrev pub cln_get_info : ClnJson → ClnRestBackend Node → Node → Node × Result Text WasmNodeInfo
  cln_get_info json b = js_get_info (cln_rest_backend json b)

  abbrev pub swissknife_pay_invoice :
      SwissKnifeJson
      → SwissKnifeBackend Node
      → Text
      → ℕ
      → Node
      → Node × Result Text WasmPaymentResult
  swissknife_pay_invoice json b = js_pay_invoice (swissknife_backend json b)

  abbrev pub swissknife_get_balance :
      SwissKnifeJson → SwissKnifeBackend Node → Node → Node × Result Text ℕ
  swissknife_get_balance json b = js_get_balance (swissknife_backend json b)

  abbrev pub swissknife_get_info :
      SwissKnifeJson → SwissKnifeBackend Node → Node → Node × Result Text WasmNodeInfo
  swissknife_get_info json b = js_get_info (swissknife_backend json b)
