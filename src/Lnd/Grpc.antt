-- ===== src/Lnd/Grpc.antt =====
-- crates/bolt402-lnd/src/grpc.rs: the gRPC backend, over the generated stubs and tonic's channels.
use bolt.Lnd.{LndError, transport, rpc, io, payment, to_client_error}
use bolt.Prelude.{
  ℕ, ◌/◌, Option, none, some, ◌∷◌, ◌++◌, Result, ok, err, ◌>>=◌, ok_or, map_err, unwrap_or, ℤ,
  u64_or_zero, i64_or_max,
}
use bolt.Proto.Errors.{ClientError}
use bolt.Proto.Port.{PaymentResult, NodeInfo, LnBackend}
use bolt.Rest.{Crypto, Process}
use bolt.Text.{Text, text, codes, strip_prefix}

pub record SendPaymentRequest : Type 0 where
  pub payment_request : Text
  pub fee_limit_sat : ℕ
  pub timeout_seconds : ℕ

-- A status that the code does not name, and the reason of a failure, by their `{:?}`.
pub data PaymentStatus : Type 0 where
  succeeded : PaymentStatus
  failed : Text → PaymentStatus
  other : Text → PaymentStatus

pub record Payment : Type 0 where
  pub status : PaymentStatus
  pub payment_preimage : Text
  pub payment_hash : Text
  pub value_msat : ℤ
  pub fee_msat : ℤ

pub record LndNodeInfo : Type 0 where
  pub identity_pubkey : Text
  pub alias : Text
  pub num_active_channels : ℕ

-- The calls of the two stubs, with the interceptor in front; an error is a status' display. A call of
-- `send_payment_v2` and the first message of its stream are one step.
pub record LndStubs (Node : Type 0) : Type 0 where
  pub send_payment_v2 :
      SendPaymentRequest → Node → Node × Result Text (Result Text (Option Payment))
  pub channel_balance : Node → Node × Result Text (Option ℕ)
  pub get_info : Node → Node × Result Text LndNodeInfo

pub record LndGrpcBackend (Node : Type 0) : Type 0 where
  pub stubs : LndStubs Node
  pub address : Text

-- `Channel::from_shared`, `tls_config`, `connect` and the stubs over a channel with a macaroon.
pub record Dialer (Node Channel : Type 0) : Type 0 where
  pub from_shared : Text → Result Text Channel
  pub tls_config : Text → Channel → Result Text Channel
  pub connect : Channel → Node → Node × Result Text Channel
  pub stubs : Text → Channel → LndStubs Node

-- `~/` is the home directory, if there is one.
unfoldable pub expand_home : Process → Text → Text
expand_home os path = elim (strip_prefix (codes "~/") path) [
  | none ↦ path
  | some rest ↦ elim (os.var (codes "HOME")) [ none ↦ path | some home ↦ home ++ b'/' ∷ rest ]
]

module _ {Node Channel : Type 0} (os : Process) (crypto : Crypto)
    (dialer : Dialer Node Channel) where
  -- Lines 70 to 84: the endpoint and the macaroon in hexadecimal.
  unfoldable pub endpoint : Text → Text → Text → Result LndError (Channel × Text)
  endpoint address tls_cert_path macaroon_path = do
    tls_cert ← map_err io (os.read tls_cert_path)
    macaroon ← map_err io (os.read macaroon_path)
    channel ← map_err (λ e. payment (text "invalid address: " ++ e)) (dialer.from_shared address)
    configured ← map_err transport (dialer.tls_config tls_cert channel)
    ok (configured, crypto.hex_encode macaroon)

  abbrev dialed : Text → Text → Result Text Channel → Result LndError (LndGrpcBackend Node)
  dialed address macaroon r = do
    channel ← map_err transport r
    ok (record { stubs = dialer.stubs macaroon channel; address = address })

  unfoldable pub connect : Text → Text → Text → Node → Node × Result LndError (LndGrpcBackend Node)
  connect address tls_cert_path macaroon_path node =
      elim (endpoint address tls_cert_path macaroon_path) [
        | err e ↦ (node, err e)
        | ok (channel, macaroon) ↦
            let r = dialer.connect channel node in (r.0, dialed address macaroon r.1)
      ]

  unfoldable pub from_env : Node → Node × Result LndError (LndGrpcBackend Node)
  from_env =
      connect (unwrap_or (os.var (codes "LND_GRPC_HOST")) (codes "https://localhost:10009"))
        (unwrap_or (os.var (codes "LND_TLS_CERT_PATH")) (expand_home os (codes "~/.lnd/tls.cert")))
        (unwrap_or (os.var (codes "LND_MACAROON_PATH"))
          (expand_home os (codes "~/.lnd/data/chain/bitcoin/mainnet/admin.macaroon")))

-- Lines 148 to 168.
unfoldable pub of_payment : Payment → Result LndError PaymentResult
of_payment p = elim p.status [
  | succeeded ↦ ok (record {
    preimage = p.payment_preimage;
    payment_hash = p.payment_hash;
    amount_sats = u64_or_zero p.value_msat / 1_000;
    fee_sats = u64_or_zero p.fee_msat / 1_000;
  })
  | failed reason ↦ err (payment reason)
  | other status ↦ err (payment (text "unexpected status: " ++ status))
]

unfoldable pub pay_answer :
    Result Text (Result Text (Option Payment)) → Result ClientError PaymentResult
pay_answer r = map_err to_client_error (do
  stream ← map_err rpc r
  message ← map_err rpc stream
  paid ← ok_or message (payment (text "no payment response received"))
  of_payment paid)

abbrev pub pay_request : Text → ℕ → SendPaymentRequest
pay_request bolt11 max_fee_sats = record {
  payment_request = bolt11;
  fee_limit_sat = i64_or_max max_fee_sats;
  timeout_seconds = 60;
}

abbrev info_of : LndNodeInfo → NodeInfo
info_of info = record {
  pubkey = info.identity_pubkey;
  alias = info.alias;
  num_active_channels = info.num_active_channels;
}

abbrev balance_of : Option ℕ → ℕ
balance_of local_balance = unwrap_or local_balance 0

abbrev rpc_error : Text → ClientError
rpc_error e = to_client_error (rpc e)

module _ {Node : Type 0} (b : LndGrpcBackend Node) where
  unfoldable pub pay_invoice : Text → ℕ → Node → Node × Result ClientError PaymentResult
  pay_invoice bolt11 max_fee_sats node =
      let r = b.stubs.send_payment_v2 (pay_request bolt11 max_fee_sats) node in
      (r.0, pay_answer r.1)

  unfoldable pub get_balance : Node → Node × Result ClientError ℕ
  get_balance node =
      let r = b.stubs.channel_balance node in
      (r.0, map_err rpc_error r.1 >>= λ local_balance. ok (balance_of local_balance))

  unfoldable pub get_info : Node → Node × Result ClientError NodeInfo
  get_info node =
      let r = b.stubs.get_info node in (r.0, map_err rpc_error r.1 >>= λ info. ok (info_of info))

  abbrev pub lnd_grpc_backend : LnBackend Node
  lnd_grpc_backend = record {
    pay_invoice = pay_invoice;
    get_balance = get_balance;
    get_info = get_info;
  }
