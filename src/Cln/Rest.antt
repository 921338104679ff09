-- ===== src/Cln/Rest.antt =====
-- crates/bolt402-cln/src/rest.rs: the REST backend. serde_json reads an answer or says why not.
pub mod Amounts
pub mod Answers
use bolt.Cln.{ClnError, transport, api, payment, deserialize, to_client_error}
use bolt.Prelude.{
  ℕ, ◌-◌, ◌/◌, Option, none, some, List, [], ◌∷◌, ◌++◌, if◌then◌else◌, unwrap_or, Result, ok, err,
  ok_or, map_err, ◌>>=◌, ◌>>◌, add64, saturating_thousand,
}
use bolt.Proto.Errors.{ClientError}
use bolt.Proto.Port.{PaymentResult, NodeInfo, LnBackend}
use bolt.Rest.{
  checked, HttpClient, Process, RestRequest, RestResponse, JsonScalar, string, number, post,
  is_success, text_or_default, exchange,
}
use bolt.Text.Decimal.{parse_u64, print_u64}
use bolt.Text.Equality.{text_eq}
use bolt.Text.Lines.{strip_suffix}
use bolt.Text.{Text, text, codes, trim_end_matches}

pub record ClnRestBackend (Node : Type 0) : Type 0 where
  pub client : HttpClient Node
  pub url : Text
  pub rune : Text

-- Millisatoshis: a number, a text such as `1000msat`, or an object.
pub data MsatValue : Type 0 where
  raw : ℕ → MsatValue
  written : Text → MsatValue
  object : ℕ → MsatValue

pub record PayResponse : Type 0 where
  pub payment_preimage : Option Text
  pub payment_hash : Option Text
  pub amount_msat : Option MsatValue
  pub amount_sent_msat : Option MsatValue
  pub status : Option Text

pub record ListFundsChannel : Type 0 where
  pub our_amount_msat : Option MsatValue

pub record ListFundsResponse : Type 0 where
  pub channels : List ListFundsChannel

pub record GetInfoResponse : Type 0 where
  pub id : Option Text
  pub alias : Option Text
  pub num_active_channels : Option ℕ

-- `json()` on the types of the answers.
pub record ClnJson : Type 0 where
  pub parse_pay : Text → Result Text PayResponse
  pub parse_funds : Text → Result Text ListFundsResponse
  pub parse_info : Text → Result Text GetInfoResponse

unfoldable pub with_client : {Node : Type 0} → Text → Text → HttpClient Node → ClnRestBackend Node
with_client url rune client = record {
  client = client;
  url = trim_end_matches b'/' url;
  rune = rune;
}

-- `build_http_client`, where reqwest's builder returns a client or its error.
unfoldable pub build_http_client :
    {Node : Type 0} → Result Text (HttpClient Node) → Result ClnError (HttpClient Node)
build_http_client built = map_err (λ e. transport (text "failed to build HTTP client: " ++ e)) built

unfoldable pub new :
    {Node : Type 0}
    → Result Text (HttpClient Node)
    → Text
    → Text
    → Result ClnError (ClnRestBackend Node)
new built url rune = do client ← build_http_client built; ok (with_client url rune client)

unfoldable pub from_env :
    {Node : Type 0}
    → Process
    → Result Text (HttpClient Node)
    → Result ClnError (ClnRestBackend Node)
from_env os built = elim (os.var (codes "CLN_RUNE")) [
  | some rune ↦
      new built (unwrap_or (os.var (codes "CLN_REST_URL")) (codes "https://localhost:3001")) rune
  | none ↦ err (payment (text "CLN_RUNE is not set"))
]

unfoldable pub as_u64 : MsatValue → Option ℕ
as_u64 (raw value) = some value
as_u64 (object value) = some value
as_u64 (written value) = parse_u64 (unwrap_or (strip_suffix (codes "msat") value) value)

-- Millisatoshis that are missing or not readable are 0.
abbrev pub msat_or_zero : Option MsatValue → ℕ
msat_or_zero none = 0
msat_or_zero (some value) = unwrap_or (as_u64 value) 0

-- `send().await?`, and the check of the status.
abbrev pub received : Result Text RestResponse → Result ClnError RestResponse
received = checked transport api

-- Lines 242 to 265; the subtraction saturates.
unfoldable pub completed : PayResponse → Result ClnError PaymentResult
completed response =
    let amount_msat = msat_or_zero response.amount_msat in
    let sent_msat = msat_or_zero response.amount_sent_msat in
    do
      preimage ←
          ok_or response.payment_preimage
            (payment (text "payment complete but returned empty preimage"))
      payment_hash ←
          ok_or response.payment_hash (payment (text "payment complete but returned empty hash"))
      ok (record {
        preimage = preimage;
        payment_hash = payment_hash;
        amount_sats = amount_msat / 1_000;
        fee_sats = (sent_msat - amount_msat) / 1_000;
      })

-- Lines 237 to 265.
unfoldable pub of_pay : PayResponse → Result ClnError PaymentResult
of_pay response =
    let status = unwrap_or response.status (codes "unknown") in
    if text_eq status (codes "complete")
    then completed response
    else err (payment (text "payment status: " ++ status))

-- The sum over the channels, which wraps around in a release build.
unfoldable pub sum_msat : ℕ → List ListFundsChannel → ℕ
sum_msat acc [] = acc
sum_msat acc (channel ∷ channels) =
    sum_msat (add64 acc (msat_or_zero channel.our_amount_msat)) channels

module _ (json : ClnJson) where
  unfoldable pub pay_answer : Result Text RestResponse → Result ClientError PaymentResult
  pay_answer sent = map_err to_client_error (do
    response ← received sent
    answer ←
        map_err (λ e. deserialize (text "failed to parse payment response: " ++ e))
          (response.bytes >>= json.parse_pay)
    of_pay answer)

  unfoldable pub balance_answer : Result Text RestResponse → Result ClientError ℕ
  balance_answer sent = map_err to_client_error (do
    response ← received sent
    answer ←
        map_err (λ e. deserialize (text "failed to parse balance response: " ++ e))
          (response.bytes >>= json.parse_funds)
    ok (sum_msat 0 answer.channels / 1_000))

  unfoldable pub info_answer : Result Text RestResponse → Result ClientError NodeInfo
  info_answer sent = map_err to_client_error (do
    response ← received sent
    answer ←
        map_err (λ e. deserialize (text "failed to parse getinfo response: " ++ e))
          (response.bytes >>= json.parse_info)
    ok (record {
      pubkey = unwrap_or answer.id [];
      alias = unwrap_or answer.alias [];
      num_active_channels = unwrap_or answer.num_active_channels 0;
    }))

-- The fee limit, in millisatoshis.
abbrev pub maxfee : ℕ → Text
maxfee max_fee_sats = print_u64 (saturating_thousand max_fee_sats) ++ codes "msat"

module _ {Node : Type 0} (json : ClnJson) (b : ClnRestBackend Node) where
  -- A POST with the rune in its header, `authenticate`.
  abbrev pub request : Text → List (Text × JsonScalar) → RestRequest
  request path body = record {
    method = post;
    url = b.url ++ path;
    header = (codes "Rune", b.rune);
    body = some body;
  }

  unfoldable pub pay_request : Text → ℕ → RestRequest
  pay_request bolt11 max_fee_sats = request (codes "/v1/pay") (
      (codes "bolt11", string bolt11)
      ∷ (codes "maxfee", string (maxfee max_fee_sats))
      ∷ (codes "retry_for", number 60)
      ∷ [])

  unfoldable pub pay_invoice : Text → ℕ → Node → Node × Result ClientError PaymentResult
  pay_invoice bolt11 max_fee_sats =
      exchange b.client (pay_request bolt11 max_fee_sats) (pay_answer json)

  unfoldable pub get_balance : Node → Node × Result ClientError ℕ
  get_balance = exchange b.client (request (codes "/v1/listfunds") []) (balance_answer json)

  unfoldable pub get_info : Node → Node × Result ClientError NodeInfo
  get_info = exchange b.client (request (codes "/v1/getinfo") []) (info_answer json)

  abbrev pub cln_rest_backend : LnBackend Node
  cln_rest_backend = record {
    pay_invoice = pay_invoice;
    get_balance = get_balance;
    get_info = get_info;
  }
