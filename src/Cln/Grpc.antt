-- ===== src/Cln/Grpc.antt =====
-- crates/bolt402-cln/src/grpc.rs: the gRPC backend, over the generated stub and tonic's channels.
use bolt.Cln.{ClnError, transport, rpc, io, payment, to_client_error}
use bolt.Prelude.{
  ℕ, ◌-◌, ◌/◌, Option, none, some, List, [], ◌∷◌, ◌++◌, Result, ok, err, ◌>>=◌, map_err, unwrap_or,
  add64, saturating_thousand, if◌then◌else◌,
}
use bolt.Proto.Errors.{ClientError}
use bolt.Proto.Port.{PaymentResult, NodeInfo, LnBackend}
use bolt.Rest.{Crypto, Process}
use bolt.Text.{Text, text, codes, strip_prefix, is_empty}

pub record PayRequest : Type 0 where
  pub bolt11 : Text
  pub maxfee : ℕ
  pub retry_for : ℕ

pub data PayStatus : Type 0 where
  complete pending failed : PayStatus

-- An `Amount` is its millisatoshis.
pub record Pay : Type 0 where
  pub status : PayStatus
  pub payment_preimage : Text
  pub payment_hash : Text
  pub amount_msat : Option ℕ
  pub amount_sent_msat : Option ℕ

pub record ClnNodeInfo : Type 0 where
  pub id : Text
  pub alias : Text
  pub num_active_channels : ℕ

-- The calls of the stub; an error is a status' display. A channel is its `our_amount_msat`.
pub record ClnStub (Node : Type 0) : Type 0 where
  pub pay : PayRequest → Node → Node × Result Text Pay
  pub list_funds : Node → Node × Result Text (List (Option ℕ))
  pub getinfo : Node → Node × Result Text ClnNodeInfo

pub record ClnGrpcBackend (Node : Type 0) : Type 0 where
  pub stub : ClnStub Node
  pub address : Text

-- `Channel::from_shared`, `tls_config` with the authority's certificate and the client's certificate
-- and key, `connect`, and the stub over a channel.
pub record Dialer (Node Channel : Type 0) : Type 0 where
  pub from_shared : Text → Result Text Channel
  pub tls_config : Text → Text → Text → Channel → Result Text Channel
  pub connect : Channel → Node → Node × Result Text Channel
  pub stub : Channel → ClnStub Node

-- `~/` is the home directory, if there is one.
unfoldable pub expand_home : Process → Text → Text
expand_home os path = elim (strip_prefix (codes "~/") path) [
  | none ↦ path
  | some rest ↦ elim (os.var (codes "HOME")) [ none ↦ path | some home ↦ home ++ b'/' ∷ rest ]
]

module _ {Node Channel : Type 0} (os : Process) (dialer : Dialer Node Channel) where
  -- Lines 103 to 115, up to the connection.
  unfoldable pub endpoint : Text → Text → Text → Text → Result ClnError Channel
  endpoint address ca_cert_path client_cert_path client_key_path = do
    ca_cert ← map_err io (os.read ca_cert_path)
    client_cert ← map_err io (os.read client_cert_path)
    client_key ← map_err io (os.read client_key_path)
    channel ← map_err (λ e. payment (text "invalid address: " ++ e)) (dialer.from_shared address)
    map_err transport (dialer.tls_config ca_cert client_cert client_key channel)

  abbrev dialed : Text → Result Text Channel → Result ClnError (ClnGrpcBackend Node)
  dialed address r = do
    channel ← map_err transport r
    ok (record { stub = dialer.stub channel; address = address })

  unfoldable pub connect :
      Text → Text → Text → Text → Node → Node × Result ClnError (ClnGrpcBackend Node)
  connect address ca_cert_path client_cert_path client_key_path node =
      elim (endpoint address ca_cert_path client_cert_path client_key_path) [
        | err e ↦ (node, err e)
        | ok channel ↦ let r = dialer.connect channel node in (r.0, dialed address r.1)
      ]

  abbrev home_file : Text → Text → Text
  home_file name default = unwrap_or (os.var name) (expand_home os default)

  unfoldable pub from_env : Node → Node × Result ClnError (ClnGrpcBackend Node)
  from_env =
      connect (unwrap_or (os.var (codes "CLN_GRPC_HOST")) (codes "https://localhost:9736"))
        (home_file (codes "CLN_CA_CERT_PATH") (codes "~/.lightning/bitcoin/ca.pem"))
        (home_file (codes "CLN_CLIENT_CERT_PATH") (codes "~/.lightning/bitcoin/client.pem"))
        (home_file (codes "CLN_CLIENT_KEY_PATH") (codes "~/.lightning/bitcoin/client-key.pem"))

-- Lines 179 to 202; the subtraction saturates.
unfoldable pub of_pay : Crypto → Pay → Result ClnError PaymentResult
of_pay crypto r = elim r.status [
  | complete ↦
      let amount_msat = unwrap_or r.amount_msat 0 in
      let sent_msat = unwrap_or r.amount_sent_msat 0 in
      ok (record {
        preimage = crypto.hex_encode r.payment_preimage;
        payment_hash = crypto.hex_encode r.payment_hash;
        amount_sats = amount_msat / 1_000;
        fee_sats = (sent_msat - amount_msat) / 1_000;
      })
  | pending ↦ err (payment (text "payment still pending"))
  | failed ↦ err (payment (text "payment failed"))
]

-- The sum over the channels, which wraps around in a release build.
unfoldable pub sum_channels : ℕ → List (Option ℕ) → ℕ
sum_channels acc [] = acc
sum_channels acc (channel ∷ channels) = sum_channels (add64 acc (unwrap_or channel 0)) channels

unfoldable pub info_of : Crypto → ClnNodeInfo → NodeInfo
info_of crypto info = record {
  pubkey = crypto.hex_encode info.id;
  alias = if is_empty info.alias then codes "CLN Node" else info.alias;
  num_active_channels = info.num_active_channels;
}

abbrev pub pay_request : Text → ℕ → PayRequest
pay_request bolt11 max_fee_sats = record {
  bolt11 = bolt11;
  maxfee = saturating_thousand max_fee_sats;
  retry_for = 60;
}

module _ {Node : Type 0} (crypto : Crypto) (b : ClnGrpcBackend Node) where
  unfoldable pub pay_invoice : Text → ℕ → Node → Node × Result ClientError PaymentResult
  pay_invoice bolt11 max_fee_sats node =
      let r = b.stub.pay (pay_request bolt11 max_fee_sats) node in
      (r.0, map_err to_client_error (map_err rpc r.1 >>= (of_pay crypto)))

  unfoldable pub get_balance : Node → Node × Result ClientError ℕ
  get_balance node =
      let r = b.stub.list_funds node in
      (
        r.0,
        map_err to_client_error
            (map_err rpc r.1 >>= λ channels. ok (sum_channels 0 channels / 1_000)),
      )

  unfoldable pub get_info : Node → Node × Result ClientError NodeInfo
  get_info node =
      let r = b.stub.getinfo node in
      (r.0, map_err to_client_error (map_err rpc r.1 >>= λ info. ok (info_of crypto info)))

  abbrev pub cln_grpc_backend : LnBackend Node
  cln_grpc_backend = record {
    pay_invoice = pay_invoice;
    get_balance = get_balance;
    get_info = get_info;
  }
