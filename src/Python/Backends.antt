-- ===== src/Python/Backends.antt =====
-- The three wallets' backends, and the clients that pay with them.
use bolt.Cln
use bolt.Cln.Rest.{ClnJson, ClnRestBackend, cln_rest_backend}
use bolt.Core.Budget.{Budget}
use bolt.Core.Cache.{CacheInner}
use bolt.Core.Client.Builder.{HttpClient, ClientParts}
use bolt.Core.Client.{Env}
use bolt.Lnd
use bolt.Lnd.Rest.{LndJson, LndRestBackend, lnd_rest_backend}
use bolt.Prelude.{ℕ, Option, ◌++◌, Result, map_err, ◌>>=◌}
use bolt.Proto.Errors.{client_to_string}
use bolt.Proto.Port.{PaymentResult, NodeInfo, LnBackend}
use bolt.Python.{PyErr, runtime_error, build_client}
use bolt.Rest.{Crypto}
use bolt.SwissKnife
use bolt.SwissKnife.{SwissKnifeJson, SwissKnifeBackend, swissknife_backend}
use bolt.Text.{Text, text}

-- The calls of a backend that Python can make, over the backend that they wrap.
module _ {Node : Type 0} (inner : LnBackend Node) where
  unfoldable pub py_pay_invoice : Text → ℕ → Node → Node × Result PyErr PaymentResult
  py_pay_invoice bolt11 max_fee_sats node =
      let r = inner.pay_invoice bolt11 max_fee_sats node in
      (r.0, map_err (λ e. runtime_error (text "payment failed: " ++ client_to_string e)) r.1)

  unfoldable pub py_get_balance : Node → Node × Result PyErr ℕ
  py_get_balance node =
      let r = inner.get_balance node in
      (r.0, map_err (λ e. runtime_error (text "get_balance failed: " ++ client_to_string e)) r.1)

  unfoldable pub py_get_info : Node → Node × Result PyErr NodeInfo
  py_get_info node =
      let r = inner.get_info node in
      (r.0, map_err (λ e. runtime_error (text "get_info failed: " ++ client_to_string e)) r.1)

module _ {Node : Type 0} where
  unfoldable pub lnd_new :
      Result Text (bolt.Rest.HttpClient Node) → Text → Text → Result PyErr (LndRestBackend Node)
  lnd_new built url macaroon =
      map_err (λ e. runtime_error (text "failed to create LND backend: " ++ Lnd.to_string e))
        (bolt.Lnd.Rest.new built url macaroon)

  unfoldable pub cln_new :
      Result Text (bolt.Rest.HttpClient Node) → Text → Text → Result PyErr (ClnRestBackend Node)
  cln_new built url rune =
      map_err (λ e. runtime_error (text "failed to create CLN backend: " ++ Cln.to_string e))
        (bolt.Cln.Rest.new built url rune)

  abbrev pub swissknife_new : bolt.Rest.HttpClient Node → Text → Text → SwissKnifeBackend Node
  swissknife_new = SwissKnife.new

-- The clients: what is around the crate, and the user agent of its version, come first.
module _ {World : Type 0} (env : Env World) (make : Text → Result Text (HttpClient World))
    (user_agent : Text) where
  unfoldable pub with_lnd_rest :
      LndJson
      → Crypto
      → Result Text (bolt.Rest.HttpClient World)
      → Text
      → Text
      → Option Budget
      → ℕ
      → Result PyErr (ClientParts World CacheInner)
  with_lnd_rest json crypto built url macaroon budget max_fee_sats = do
    backend ← lnd_new built url macaroon
    build_client env make user_agent (lnd_rest_backend json crypto backend) budget max_fee_sats

  unfoldable pub with_cln_rest :
      ClnJson
      → Result Text (bolt.Rest.HttpClient World)
      → Text
      → Text
      → Option Budget
      → ℕ
      → Result PyErr (ClientParts World CacheInner)
  with_cln_rest json built url rune budget max_fee_sats = do
    backend ← cln_new built url rune
    build_client env make user_agent (cln_rest_backend json backend) budget max_fee_sats

  unfoldable pub with_swissknife :
      SwissKnifeJson
      → bolt.Rest.HttpClient World
      → Text
      → Text
      → Option Budget
      → ℕ
      → Result PyErr (ClientParts World CacheInner)
  with_swissknife json http url api_key budget max_fee_sats =
      build_client env make user_agent (swissknife_backend json (swissknife_new http url api_key))
        budget max_fee_sats
