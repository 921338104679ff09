-- ===== src/Python.antt =====
-- crates/bolt402-python/src/lib.rs: what Python sees of the client and of the wallets' backends. The
-- getters, which only read a field, and the conversions of pyo3 are not modelled.
pub mod Backends
pub mod Refused
use bolt.Core.Budget.{Budget, DomainBudgets, budget, no_domains, limits}
use bolt.Core.Budget
use bolt.Core.Cache.Store.{memory_store}
use bolt.Core.Cache.{CacheInner}
use bolt.Core.Client.Builder.{
  HttpClient, ClientParts, builder, with_ln_backend, with_token_store, with_budget, with_config,
  build, get_url, post_url, receipts_of, client_total_spent,
}
use bolt.Core.Client.Response
use bolt.Core.Client.Response.{BodyReader, status_of, paid_of, cached_token_of, receipt_of, text_of}
use bolt.Core.Client.{Env, L402Client, L402ClientConfig, L402Response, HttpResponse, Session}
use bolt.Core.Receipt.{Receipt, total_cost_sats}
use bolt.HashMap
use bolt.HashMap.{HashMap}
use bolt.Prelude.{
  ℕ, Bool, true, false, Option, none, some, List, [], ◌∷◌, ◌++◌, Result, ok, err, map_err,
  unwrap_or,
}
use bolt.Proto.Errors.{
  ClientError, budget_exceeded, payment_failed, missing_challenge, client_to_string,
}
use bolt.Proto.Port.{PaymentResult, NodeInfo, LnBackend}
use bolt.Text.Decimal.{print_u64}
use bolt.Text.Equality.{Text-discrete}
use bolt.Text.{Text, text}

-- The exceptions that are raised, with their message.
pub data PyErr : Type 0 where
  value_error : Text → PyErr
  runtime_error : Text → PyErr

-- `PyBudget::new`, with the budgets of the domains in the order of the dictionary.
unfoldable pub new_budget :
    Option ℕ → Option ℕ → Option ℕ → Option ℕ → Option DomainBudgets → Budget
new_budget per_request_max hourly_max daily_max total_max domain_budgets =
    budget
      (record {
        per_request_max = per_request_max;
        hourly_max = hourly_max;
        daily_max = daily_max;
        total_max = total_max;
      })
      (unwrap_or domain_budgets no_domains)

abbrev pub fmt_opt : Option ℕ → Text
fmt_opt (some n) = print_u64 n
fmt_opt none = text "None"

abbrev pub repr_budget : Budget → Text
repr_budget b =
    text "Budget(per_request_max="
    ++ (fmt_opt (limits b).per_request_max
        ++ (text ", hourly_max="
            ++ (fmt_opt (limits b).hourly_max
                ++ (text ", daily_max="
                    ++ (fmt_opt (limits b).daily_max
                        ++ (text ", total_max=" ++ (fmt_opt (limits b).total_max ++ text ")")))))))

abbrev pub repr_receipt : Receipt → Text
repr_receipt r =
    text "Receipt(endpoint='"
    ++ (r.endpoint
        ++ (text "', amount_sats="
            ++ (print_u64 r.amount_sats
                ++ (text ", fee_sats="
                    ++ (print_u64 r.fee_sats
                        ++ (text ", status=" ++ (print_u64 r.response_status ++ text ")")))))))

abbrev pub repr_payment_result : PaymentResult → Text
repr_payment_result r =
    text "PaymentResult(amount_sats="
    ++ (print_u64 r.amount_sats
        ++ (text ", fee_sats="
            ++ (print_u64 r.fee_sats ++ (text ", hash='" ++ (r.payment_hash ++ text "')")))))

abbrev pub repr_node_info : NodeInfo → Text
repr_node_info n =
    text "NodeInfo(alias='"
    ++ (n.alias
        ++ (text "', pubkey='"
            ++ (n.pubkey
                ++ (text "', channels=" ++ (print_u64 n.num_active_channels ++ text ")")))))

-- serde_json writes the receipt, or says why not.
abbrev pub to_json : (Receipt → Result Text Text) → Receipt → Result PyErr Text
to_json write r = map_err (λ e. runtime_error (text "serialization error: " ++ e)) (write r)

pub record PyL402Response : Type 0 where
  pub status : ℕ
  pub paid : Bool
  pub cached_token : Bool
  pub receipt : Option Receipt
  pub body : Text
  pub headers : HashMap Text Text

abbrev print_bool : Bool → Text
print_bool true = text "true"
print_bool false = text "false"

abbrev pub repr_response : PyL402Response → Text
repr_response r =
    text "L402Response(status="
    ++ (print_u64 r.status
        ++ (text ", paid="
            ++ (print_bool r.paid
                ++ (text ", cached_token=" ++ (print_bool r.cached_token ++ text ")")))))

unfoldable pub map_client_error : ClientError → PyErr
map_client_error (budget_exceeded reason) =
    value_error (text "BudgetExceeded: " ++ client_to_string (budget_exceeded reason))
map_client_error (payment_failed reason) =
    runtime_error (text "PaymentFailed: " ++ client_to_string (payment_failed reason))
map_client_error missing_challenge =
    runtime_error (text "MissingChallenge: " ++ client_to_string missing_challenge)
map_client_error other = runtime_error (client_to_string other)

-- The headers of a response, by name: of headers with one name the last is kept, and a value that
-- is no text is empty.
unfoldable pub header_values : List (Text × Option Text) → HashMap Text Text → HashMap Text Text
header_values [] map = map
header_values ((k, v) ∷ rest) map =
    header_values rest (HashMap.insert Text-discrete k (unwrap_or v []) map)

abbrev text_or_empty : Result ClientError Text → Text
text_or_empty (ok t) = t
text_or_empty (err e) = []

module _ (reader : BodyReader) (headers : HttpResponse → List (Text × Option Text)) where
  unfoldable pub convert_response : Result ClientError L402Response → Result PyErr PyL402Response
  convert_response (ok response) = ok (record {
    status = status_of response;
    paid = paid_of response;
    cached_token = cached_token_of response;
    receipt = receipt_of response;
    body = text_or_empty (text_of reader response);
    headers = header_values (Response.headers_of headers response) [];
  })
  convert_response (err e) = err (map_client_error e)

  module _ {World Store : Type 0} (c : L402Client World Store) where
    unfoldable pub get :
        Text → Session World Store → Session World Store × Result PyErr PyL402Response
    get url s = let r = get_url c url s in (r.0, convert_response r.1)

    unfoldable pub post :
        Text → Option Text → Session World Store → Session World Store × Result PyErr PyL402Response
    post url body s = let r = post_url c url body s in (r.0, convert_response r.1)

abbrev pub receipts : {World Store : Type 0} → Session World Store → List Receipt
receipts = receipts_of

abbrev pub total_spent : {World Store : Type 0} → Session World Store → ℕ
total_spent = client_total_spent

-- `build_client`: no budget is an unlimited one.
unfoldable pub build_client :
    {World : Type 0}
    → Env World
    → (Text → Result Text (HttpClient World))
    → Text
    → LnBackend World
    → Option Budget
    → ℕ
    → Result PyErr (ClientParts World CacheInner)
build_client env make user_agent backend chosen max_fee_sats =
    let config : L402ClientConfig = record {
      max_fee_sats = max_fee_sats;
      max_retries = 1;
      user_agent = user_agent;
    } in
    map_err (λ e. runtime_error (text "failed to build L402Client: " ++ client_to_string e))
      (build env make (
        with_config config (
          with_budget (unwrap_or chosen Budget.unlimited)
            (with_token_store memory_store (with_ln_backend backend (builder user_agent))))))
