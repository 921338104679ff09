-- ===== src/SwissKnife.antt =====
-- crates/bolt402-swissknife/src: the backend of a SwissKnife wallet. serde_json reads an answer or
-- says why not; the API key is a header value (the code panics on one that is not).
pub mod Settled
use bolt.Prelude.{
  ℕ, ◌/◌, Bool, ◌||◌, Option, none, some, List, [], ◌∷◌, ◌++◌, ◌==◌, if◌then◌else◌, unwrap_or,
  Result, ok, err, ok_or, map_err, ◌>>=◌, ◌>>◌, ℤ, u64_or_zero,
}
use bolt.Proto.Errors.{ClientError, payment_failed, backend}
use bolt.Proto.Port.{PaymentResult, NodeInfo, LnBackend}
use bolt.Rest.{
  HttpClient, Process, RestMethod, RestRequest, RestResponse, JsonScalar, string, get, post,
  is_success, exchange,
}
use bolt.Text.Decimal.{print_u64}
use bolt.Text.{Text, text, codes, trim_end_matches, is_empty}

-- `http` holds the display of reqwest's error.
pub data SwissKnifeError : Type 0 where
  http : Text → SwissKnifeError
  api : ℕ → Text → SwissKnifeError
  auth : Text → SwissKnifeError
  payment : Text → SwissKnifeError
  config : Text → SwissKnifeError

unfoldable pub to_string : SwissKnifeError → Text
to_string (http e) = text "HTTP error: " ++ e
to_string (api status message) =
    text "API error (HTTP " ++ (print_u64 status ++ (text "): " ++ message))
to_string (auth e) = text "authentication failed: " ++ e
to_string (payment e) = text "payment failed: " ++ e
to_string (config e) = text "missing configuration: " ++ e

-- `From<SwissKnifeError> for ClientError`.
unfoldable pub to_client_error : SwissKnifeError → ClientError
to_client_error (payment reason) = payment_failed reason
to_client_error (auth reason) = backend (text "authentication failed: " ++ reason)
to_client_error other = backend (to_string other)

pub data PaymentStatus : Type 0 where
  settled pending failed unknown : PaymentStatus

pub record PaymentResponse : Type 0 where
  pub amount_msat : ℕ
  pub fee_msat : Option ℕ
  pub status : PaymentStatus
  pub payment_hash : Option Text
  pub payment_preimage : Option Text
  pub error : Option Text

pub record BalanceResponse : Type 0 where
  pub available_msat : ℤ

pub record WalletResponse : Type 0 where
  pub id : Text
  pub user_id : Text

pub record ErrorResponse : Type 0 where
  pub reason : Option Text

-- `json()` on the types of the answers.
pub record SwissKnifeJson : Type 0 where
  pub parse_payment : Text → Result Text PaymentResponse
  pub parse_balance : Text → Result Text BalanceResponse
  pub parse_wallet : Text → Result Text WalletResponse
  pub parse_error : Text → Result Text ErrorResponse

pub record SwissKnifeBackend (Node : Type 0) : Type 0 where
  pub client : HttpClient Node
  pub base_url : Text
  pub api_key : Text

unfoldable pub new : {Node : Type 0} → HttpClient Node → Text → Text → SwissKnifeBackend Node
new client base_url api_key = record {
  client = client;
  base_url = trim_end_matches b'/' base_url;
  api_key = api_key;
}

unfoldable pub from_env :
    {Node : Type 0} → Process → HttpClient Node → Result SwissKnifeError (SwissKnifeBackend Node)
from_env os client = do
  api_key ←
      ok_or (os.var (codes "SWISSKNIFE_API_KEY")) (config (text "SWISSKNIFE_API_KEY is not set"))
  ok (
      new client
        (unwrap_or (os.var (codes "SWISSKNIFE_API_URL")) (codes "https://app.numeraire.tech"))
        api_key)

-- The request body of a payment.
pub record SendPaymentRequest : Type 0 where
  pub input : Text

abbrev pub to_json : SendPaymentRequest → List (Text × JsonScalar)
to_json r = (codes "input", string r.input) ∷ []

-- Lines 187 to 216.
unfoldable pub of_status : PaymentStatus → Option Text → Result SwissKnifeError (Unit {0})
of_status settled error = ok tt
of_status failed error =
    err (payment (unwrap_or error (text "payment failed without error message")))
of_status pending error = err (payment (text "payment is still pending (not yet settled)"))
of_status unknown error = err (payment (text "unexpected payment status from SwissKnife"))

-- Lines 187 to 234; a fee above the limit is only logged.
unfoldable pub of_payment : PaymentResponse → Result SwissKnifeError PaymentResult
of_payment p = do
  of_status p.status p.error
  preimage ← ok_or p.payment_preimage (payment (text "settled payment missing preimage"))
  ok (record {
    preimage = preimage;
    payment_hash = unwrap_or p.payment_hash [];
    amount_sats = p.amount_msat / 1_000;
    fee_sats = unwrap_or p.fee_msat 0 / 1_000;
  })

module _ (json : SwissKnifeJson) where
  abbrev message : ℕ → Result Text ErrorResponse → Text
  message status (ok e) = unwrap_or e.reason (text "HTTP " ++ (print_u64 status ++ text " error"))
  message status (err e) = text "HTTP " ++ (print_u64 status ++ text " error")

  unfoldable pub parse_error : RestResponse → SwissKnifeError
  parse_error r =
      let reason = message r.status (r.bytes >>= json.parse_error) in
      if r.status == 401 || r.status == 403 then auth reason else api r.status reason

  unfoldable pub received : Result Text RestResponse → Result SwissKnifeError RestResponse
  received (err e) = err (http e)
  received (ok r) = if is_success r.status then ok r else err (parse_error r)

  -- The steps that the calls share: the check of the answer and `json()`.
  abbrev pub decoded :
      {A B : Type 0}
      → (Text → Result Text A)
      → (A → Result SwissKnifeError B)
      → Result Text RestResponse
      → Result ClientError B
  decoded parse next sent =
      map_err to_client_error
        (do response ← received sent; answer ← map_err http (response.bytes >>= parse); next answer)

  unfoldable pub pay_answer : Result Text RestResponse → Result ClientError PaymentResult
  pay_answer = decoded json.parse_payment of_payment

  -- A negative balance is 0.
  unfoldable pub balance_answer : Result Text RestResponse → Result ClientError ℕ
  balance_answer =
      decoded json.parse_balance (λ balance. ok (u64_or_zero balance.available_msat / 1_000))

  abbrev info_of : WalletResponse → NodeInfo
  info_of wallet = record {
    pubkey = wallet.id;
    alias = if is_empty wallet.user_id then codes "SwissKnife Wallet" else wallet.user_id;
    num_active_channels = 0;
  }

  unfoldable pub info_answer : Result Text RestResponse → Result ClientError NodeInfo
  info_answer = decoded json.parse_wallet (λ wallet. ok (info_of wallet))

module _ {Node : Type 0} (json : SwissKnifeJson) (b : SwissKnifeBackend Node) where
  unfoldable pub request : RestMethod → Text → Option (List (Text × JsonScalar)) → RestRequest
  request method path body = record {
    method = method;
    url = b.base_url ++ path;
    header = (codes "Api-Key", b.api_key);
    body = body;
  }

  unfoldable pub pay_request : Text → RestRequest
  pay_request bolt11 =
      request post (codes "/v1/me/payments") (some (to_json (record { input = bolt11 })))

  unfoldable pub pay_invoice : Text → ℕ → Node → Node × Result ClientError PaymentResult
  pay_invoice bolt11 max_fee_sats = exchange b.client (pay_request bolt11) (pay_answer json)

  unfoldable pub get_balance : Node → Node × Result ClientError ℕ
  get_balance = exchange b.client (request get (codes "/v1/me/balance") none) (balance_answer json)

  unfoldable pub get_info : Node → Node × Result ClientError NodeInfo
  get_info = exchange b.client (request get (codes "/v1/me") none) (info_answer json)

  abbrev pub swissknife_backend : LnBackend Node
  swissknife_backend = record {
    pay_invoice = pay_invoice;
    get_balance = get_balance;
    get_info = get_info;
  }
