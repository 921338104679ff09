-- ===== src/Lnd/Rest.antt =====
-- crates/bolt402-lnd/src/rest.rs: the REST backend. serde_json reads an answer or says why not.
pub mod Stream
pub mod Paid
pub mod Proof
pub mod Client
use mathlib.Core.List.{reverse}
use bolt.Lnd.Update.{
  PaymentUpdate, SendPaymentResponse, ChannelBalanceResponse, GetInfoResponse, update_of, or,
  is_succeeded, is_failed, preimage, hash, amount_sats, fee_sats, parsed_or_zero,
}
use bolt.Lnd.{LndError, transport, api, payment, deserialize, io, to_client_error}
use bolt.Prelude.{
  ℕ, Bool, true, false, ◌&&◌, ◌||◌, Option, none, some, List, [], ◌∷◌, ◌++◌, map, if◌then◌else◌,
  leb, ◌==◌, not, length, unwrap_or, Result, ok, err, ok_or, map_err, ◌>>=◌, ◌>>◌,
}
use bolt.Proto.Errors.{ClientError}
use bolt.Proto.Port.{PaymentResult, NodeInfo, LnBackend}
use bolt.Proto.Std.{ascii_lower}
use bolt.Rest.{
  checked, Process, HttpClient, Crypto, get, post, RestMethod, JsonScalar, RestRequest,
  RestResponse, string, number, is_success, text_or_default, exchange,
}
use bolt.Text.Equality.{text_eq}
use bolt.Text.Hex.{all_hex}
use bolt.Text.Lines.{lines}
use bolt.Text.{Text, text, codes, trim, trim_end_matches, is_empty}

pub record LndRestBackend (Node : Type 0) : Type 0 where
  pub client : HttpClient Node
  pub url : Text
  pub macaroon : Text

-- `serde_json::from_str` and `json()` on the types of the answers.
pub record LndJson : Type 0 where
  pub parse_payment : Text → Result Text SendPaymentResponse
  pub parse_balance : Text → Result Text ChannelBalanceResponse
  pub parse_info : Text → Result Text GetInfoResponse

-- `with_client`.
unfoldable pub with_client : {Node : Type 0} → Text → Text → HttpClient Node → LndRestBackend Node
with_client url macaroon client = record {
  client = client;
  url = trim_end_matches b'/' url;
  macaroon = macaroon;
}

-- `new`, where the builder returns a client or its error.
unfoldable pub new :
    {Node : Type 0}
    → Result Text (HttpClient Node)
    → Text
    → Text
    → Result LndError (LndRestBackend Node)
new built url macaroon = do
  client ← map_err (λ e. transport (text "failed to build HTTP client: " ++ e)) built
  ok (with_client url macaroon client)

-- `from_env`: the macaroon itself comes before the file that holds it.
unfoldable pub macaroon_from_env : Process → Crypto → Result LndError Text
macaroon_from_env os crypto = elim (os.var (codes "LND_MACAROON_HEX")) [
  | some hex ↦ ok hex
  | none ↦ elim (os.var (codes "LND_MACAROON_PATH")) [
    | some path ↦ (do bytes ← map_err io (os.read path); ok (crypto.hex_encode bytes))
    | none ↦ err (payment (text "neither LND_MACAROON_HEX nor LND_MACAROON_PATH is set"))
  ]
]

unfoldable pub from_env :
    {Node : Type 0}
    → Process
    → Crypto
    → Result Text (HttpClient Node)
    → Result LndError (LndRestBackend Node)
from_env os crypto built = do
  macaroon ← macaroon_from_env os crypto
  new built (unwrap_or (os.var (codes "LND_REST_URL")) (codes "https://localhost:8080")) macaroon

-- The lines of `/v2/router/send` that are not blank.
unfoldable pub not_blank : List Text → List Text
not_blank [] = []
not_blank (l ∷ ls) = let rest = not_blank ls in if is_empty (trim l) then rest else l ∷ rest

abbrev pub payment_lines : Text → List Text
payment_lines body = not_blank (lines (trim body))

-- The reason that is given for a stream with no payment, from its last update.
abbrev pub failure : Option PaymentUpdate → Text
failure none = text "unknown"
failure (some u) =
    unwrap_or (if is_failed u then or u.failure_reason u.status else u.status) (text "unknown")

-- The lines from the last one back, up to the first that has succeeded.
unfoldable pub scan :
    LndJson
    → List Text
    → Option PaymentUpdate
    → Result LndError (Option PaymentUpdate × Option PaymentUpdate)
scan json [] last_update = ok (none, last_update)
scan json (line ∷ earlier) last_update = do
  parsed ←
      map_err (λ e. deserialize (text "failed to parse payment response: " ++ e))
        (json.parse_payment line)
  let update = update_of parsed in
      let last_update = or last_update (some update) in
      if is_succeeded update then ok (some update, last_update) else scan json earlier last_update

-- `send().await?`, and the check of the status.
abbrev pub received : Result Text RestResponse → Result LndError RestResponse
received = checked transport api

-- Lines 387 to 401.
abbrev pub chosen : Option PaymentUpdate × Option PaymentUpdate → Result LndError PaymentUpdate
chosen (some u, last_update) = ok u
chosen (none, last_update) = err (payment (failure last_update))

abbrev sat_of : ChannelBalanceResponse → Option Text
sat_of balance = elim balance.local_balance [ none ↦ none | some amount ↦ amount.sat ]

module _ (crypto : Crypto) where
  -- Hexadecimal of 32 bytes is kept, in lower case; all else is read as base64.
  unfoldable pub bytes_field_to_hex : Text → Result LndError Text
  bytes_field_to_hex [] = err (deserialize (text "empty bytes field"))
  bytes_field_to_hex (c ∷ t) =
      if length (c ∷ t) == 64 && all_hex (c ∷ t) then ok (map ascii_lower (c ∷ t)) else (do
        bytes ←
            map_err (λ e. deserialize (text "invalid base64 in bytes field: " ++ e))
              (crypto.base64_decode (c ∷ t))
        ok (crypto.hex_encode bytes))

  unfoldable pub verify_preimage : Text → Text → Result LndError (Unit {0})
  verify_preimage preimage_hex payment_hash_hex = do
    bytes ←
        map_err (λ e. deserialize (text "invalid preimage hex: " ++ e))
          (crypto.hex_decode preimage_hex)
    let computed = crypto.hex_encode (crypto.sha256 bytes) in
        if text_eq computed payment_hash_hex
        then ok tt
        else err (
            payment (
              text "preimage verification failed: SHA256(preimage) "
              ++ (computed ++ (text " != payment_hash " ++ payment_hash_hex))))

  -- Lines 403 to 421.
  unfoldable pub accept : PaymentUpdate → Result LndError PaymentResult
  accept u = do
    preimage_raw ←
        ok_or (preimage u) (payment (text "payment succeeded but returned empty preimage"))
    hash_raw ← ok_or (hash u) (payment (text "payment succeeded but returned empty hash"))
    preimage ← bytes_field_to_hex preimage_raw
    payment_hash ← bytes_field_to_hex hash_raw
    verify_preimage preimage payment_hash
    ok (record {
      preimage = preimage;
      payment_hash = payment_hash;
      amount_sats = amount_sats u;
      fee_sats = fee_sats u;
    })

module _ (json : LndJson) (crypto : Crypto) where
  -- Lines 340 to 421.
  unfoldable pub read_stream : List Text → Result LndError PaymentResult
  read_stream [] = err (payment (text "empty response from /v2/router/send"))
  read_stream (l ∷ ls) = do
    scanned ← scan json (reverse (l ∷ ls)) none
    update ← chosen scanned
    accept crypto update

  unfoldable pub pay_answer : Result Text RestResponse → Result ClientError PaymentResult
  pay_answer sent = map_err to_client_error (do
    response ← received sent
    body ← map_err transport response.text
    read_stream (payment_lines body))

  unfoldable pub balance_answer : Result Text RestResponse → Result ClientError ℕ
  balance_answer sent = map_err to_client_error (do
    response ← received sent
    answer ←
        map_err (λ e. deserialize (text "failed to parse balance response: " ++ e))
          (response.bytes >>= json.parse_balance)
    ok (parsed_or_zero (sat_of answer)))

  unfoldable pub info_answer : Result Text RestResponse → Result ClientError NodeInfo
  info_answer sent = map_err to_client_error (do
    response ← received sent
    answer ←
        map_err (λ e. deserialize (text "failed to parse getinfo response: " ++ e))
          (response.bytes >>= json.parse_info)
    ok (record {
      pubkey = unwrap_or answer.identity_pubkey [];
      alias = unwrap_or answer.alias [];
      num_active_channels = unwrap_or answer.num_active_channels 0;
    }))

module _ {Node : Type 0} (json : LndJson) (crypto : Crypto) (b : LndRestBackend Node) where
  abbrev request : RestMethod → Text → Option (List (Text × JsonScalar)) → RestRequest
  request method path body = record {
    method = method;
    url = b.url ++ path;
    header = (codes "Grpc-Metadata-macaroon", b.macaroon);
    body = body;
  }

  unfoldable pub pay_request : Text → ℕ → RestRequest
  pay_request bolt11 max_fee_sats = request post (codes "/v2/router/send") (
      some (
        (codes "payment_request", string bolt11)
        ∷ (codes "fee_limit_sat", number max_fee_sats)
        ∷ (codes "timeout_seconds", number 60)
        ∷ []))

  unfoldable pub pay_invoice : Text → ℕ → Node → Node × Result ClientError PaymentResult
  pay_invoice bolt11 max_fee_sats =
      exchange b.client (pay_request bolt11 max_fee_sats) (pay_answer json crypto)

  unfoldable pub get_balance : Node → Node × Result ClientError ℕ
  get_balance =
      exchange b.client (request get (codes "/v1/balance/channels") none)
        (balance_answer json crypto)

  unfoldable pub get_info : Node → Node × Result ClientError NodeInfo
  get_info = exchange b.client (request get (codes "/v1/getinfo") none) (info_answer json crypto)

  abbrev pub lnd_rest_backend : LnBackend Node
  lnd_rest_backend = record {
    pay_invoice = pay_invoice;
    get_balance = get_balance;
    get_info = get_info;
  }
