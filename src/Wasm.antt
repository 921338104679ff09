-- ===== src/Wasm.antt =====
-- crates/bolt402-wasm/src: what JavaScript sees of the client and of the wallets' backends. A
-- `JsError` is its message.
pub mod Backends
pub mod Limits
use bolt.Core.Budget.{Budget, budget, no_domains}
use bolt.Core.Cache.Store.{memory_store}
use bolt.Core.Cache.{CacheInner}
use bolt.Core.Client.Builder.{
  HttpClient, ClientParts, builder, with_ln_backend, with_token_store, with_budget, with_config,
  build, get_url, post_url, receipts_of, client_total_spent,
}
use bolt.Core.Client.Response.{BodyReader, status_of, paid_of, cached_token_of, receipt_of, text_of}
use bolt.Core.Client.{Env, L402Client, L402Response, Session, default_config}
use bolt.Core.Receipt.{Receipt}
use bolt.Lnd
use bolt.Lnd.Rest
use bolt.Lnd.Rest.{LndJson, lnd_rest_backend}
use bolt.Prelude.{
  ℕ, Bool, Option, none, some, List, map, ◌++◌, ◌==◌, if◌then◌else◌, Result, ok, err, map_err,
  ◌>>=◌, ◌>>◌, add64,
}
use bolt.Proto.Errors.{ClientError, client_to_string}
use bolt.Proto.Port.{LnBackend}
use bolt.Rest.{Crypto}
use bolt.SwissKnife
use bolt.SwissKnife.{SwissKnifeJson, swissknife_backend}
use bolt.Text.{Text, text}

pub record WasmReceipt : Type 0 where
  pub timestamp : ℕ
  pub amount_sats : ℕ
  pub fee_sats : ℕ
  pub response_status : ℕ
  pub latency_ms : ℕ
  pub endpoint : Text
  pub payment_hash : Text
  pub preimage : Text

abbrev pub total_cost_sats : WasmReceipt → ℕ
total_cost_sats r = add64 r.amount_sats r.fee_sats

unfoldable pub from_receipt : Receipt → WasmReceipt
from_receipt r = record {
  timestamp = r.timestamp;
  amount_sats = r.amount_sats;
  fee_sats = r.fee_sats;
  response_status = r.response_status;
  latency_ms = r.latency_ms;
  endpoint = r.endpoint;
  payment_hash = r.payment_hash;
  preimage = r.preimage;
}

pub record WasmBudgetConfig : Type 0 where
  pub per_request_max : ℕ
  pub hourly_max : ℕ
  pub daily_max : ℕ
  pub total_max : ℕ

abbrev pub unlimited : WasmBudgetConfig
unlimited = record { per_request_max = 0; hourly_max = 0; daily_max = 0; total_max = 0 }

-- 0 stands for no limit.
abbrev pub to_opt : ℕ → Option ℕ
to_opt v = if v == 0 then none else some v

-- `From<WasmBudgetConfig> for Budget`.
unfoldable pub to_budget : WasmBudgetConfig → Budget
to_budget config =
    budget
      (record {
        per_request_max = to_opt config.per_request_max;
        hourly_max = to_opt config.hourly_max;
        daily_max = to_opt config.daily_max;
        total_max = to_opt config.total_max;
      })
      no_domains

pub record WasmL402Response : Type 0 where
  pub status : ℕ
  pub paid : Bool
  pub cached_token : Bool
  pub body : Text
  pub receipt : Option WasmReceipt

abbrev pub js_error : {A : Type 0} → Result ClientError A → Result Text A
js_error = map_err client_to_string

abbrev map_receipt : Option Receipt → Option WasmReceipt
map_receipt none = none
map_receipt (some r) = some (from_receipt r)

unfoldable pub to_wasm_response : BodyReader → L402Response → Result Text WasmL402Response
to_wasm_response reader response = do
  body ← js_error (text_of reader response)
  ok (record {
    status = status_of response;
    paid = paid_of response;
    cached_token = cached_token_of response;
    body = body;
    receipt = map_receipt (receipt_of response);
  })

-- The client's parts: what is around the crate, and the user agent of its version.
module _ {World : Type 0} (env : Env World) (make : Text → Result Text (HttpClient World))
    (user_agent : Text) where
  -- The builder's chain, with a backend.
  unfoldable pub with_backend :
      LnBackend World → WasmBudgetConfig → ℕ → Result Text (ClientParts World CacheInner)
  with_backend backend config max_fee_sats =
      map_err (λ e. text "failed to build L402Client: " ++ client_to_string e)
        (build env make (
          with_config (record (default_config user_agent) { max_fee_sats = max_fee_sats })
            (with_budget (to_budget config)
              (with_token_store memory_store (with_ln_backend backend (builder user_agent))))))

  unfoldable pub with_lnd_rest :
      LndJson
      → Crypto
      → Result Text (bolt.Rest.HttpClient World)
      → Text
      → Text
      → WasmBudgetConfig
      → ℕ
      → Result Text (ClientParts World CacheInner)
  with_lnd_rest json crypto built url macaroon config max_fee_sats = do
    backend ←
        map_err (λ e. text "failed to create LND backend: " ++ Lnd.to_string e)
          (Lnd.Rest.new built url macaroon)
    with_backend (lnd_rest_backend json crypto backend) config max_fee_sats

  unfoldable pub with_swissknife :
      SwissKnifeJson
      → bolt.Rest.HttpClient World
      → Text
      → Text
      → WasmBudgetConfig
      → ℕ
      → Result Text (ClientParts World CacheInner)
  with_swissknife json http url api_key config max_fee_sats =
      with_backend (swissknife_backend json (SwissKnife.new http url api_key)) config max_fee_sats

module _ {World Store : Type 0} (c : L402Client World Store) (reader : BodyReader) where
  -- The result of a request, for JavaScript.
  abbrev to_js :
      Session World Store × Result ClientError L402Response
      → Session World Store × Result Text WasmL402Response
  to_js r = (r.0, js_error r.1 >>= (to_wasm_response reader))

  unfoldable pub get :
      Text → Session World Store → Session World Store × Result Text WasmL402Response
  get url s = to_js (get_url c url s)

  unfoldable pub post :
      Text → Option Text → Session World Store → Session World Store × Result Text WasmL402Response
  post url body s = to_js (post_url c url body s)

abbrev pub total_spent : {World Store : Type 0} → Session World Store → ℕ
total_spent = client_total_spent

abbrev pub receipts : {World Store : Type 0} → Session World Store → List WasmReceipt
receipts s = map from_receipt (receipts_of s)
