-- ===== src/Nwc.antt =====
-- crates/bolt402-nwc/src: the backend of a wallet behind Nostr Wallet Connect. The calls are the nwc
-- crate's to make: they are a parameter, `Nwc`, whose error is its display.
pub mod Client
use bolt.Prelude.{
  ℕ, ◌/◌, Option, List, [], ◌++◌, if◌then◌else◌, ltb, length, take, unwrap_or, Result, ok, ok_or,
  map_err, ◌>>=◌, ◌^◌,
}
use bolt.Proto.Errors.{ClientError, payment_failed, backend}
use bolt.Proto.Port.{PaymentResult, NodeInfo, LnBackend}
use bolt.Rest.{Process}
use bolt.Text.{Text, text, codes}

pub data NwcError : Type 0 where
  invalid_uri : Text → NwcError
  nwc : Text → NwcError
  payment : Text → NwcError

unfoldable pub to_string : NwcError → Text
to_string (invalid_uri e) = text "invalid NWC URI: " ++ e
to_string (nwc e) = text "NWC error: " ++ e
to_string (payment e) = text "payment failed: " ++ e

-- `From<NwcError> for ClientError`.
unfoldable pub to_client_error : NwcError → ClientError
to_client_error (payment reason) = payment_failed reason
to_client_error other = backend (to_string other)

pub record PayInvoiceResponse : Type 0 where
  pub preimage : Text
  pub fees_paid : Option ℕ

pub record GetInfoResponse : Type 0 where
  pub alias : Option Text
  pub pubkey : Option Text
  pub methods : List Text

-- A connected wallet.
pub record Nwc (Node : Type 0) : Type 0 where
  pub pay_invoice : Text → Node → Node × Result Text PayInvoiceResponse
  pub get_balance : Node → Node × Result Text ℕ
  pub get_info : Node → Node × Result Text GetInfoResponse

-- `NostrWalletConnectURI::parse`, with the public key's text, and `NWC::new`.
pub record NwcCrate (Node Uri : Type 0) : Type 0 where
  pub parse : Text → Result Text Uri
  pub public_key : Uri → Text
  pub connect : Uri → Nwc Node

pub record NwcBackend (Node : Type 0) : Type 0 where
  pub nwc : Nwc Node
  pub uri_display : Text

module _ {Node Uri : Type 0} (crate : NwcCrate Node Uri) where
  -- The display form has no more of the URI than 16 characters of the public key.
  unfoldable pub new : Text → Result NwcError (NwcBackend Node)
  new uri = do
    parsed ← map_err invalid_uri (crate.parse uri)
    ok (record {
      nwc = crate.connect parsed;
      uri_display =
          text "nostr+walletconnect://" ++ (take 16 (crate.public_key parsed) ++ text "...");
    })

  unfoldable pub from_env : Process → Result NwcError (NwcBackend Node)
  from_env os = do
    uri ←
        ok_or (os.var (codes "NWC_CONNECTION_URI"))
          (invalid_uri (text "NWC_CONNECTION_URI environment variable not set"))
    new uri

abbrev pub nwc_error : Text → ClientError
nwc_error e = to_client_error (nwc e)

abbrev pub payment_of : PayInvoiceResponse → PaymentResult
payment_of response = record {
  preimage = response.preimage;
  payment_hash = [];
  amount_sats = 0;
  fee_sats = unwrap_or response.fees_paid 0 / 1_000;
}

-- `u32::try_from(n).unwrap_or(0)`.
abbrev u32_or_zero : ℕ → ℕ
u32_or_zero n = if ltb n (2 ^ 32) then n else 0

unfoldable pub info_of : GetInfoResponse → NodeInfo
info_of info = record {
  pubkey = unwrap_or info.pubkey (codes "unknown");
  alias = unwrap_or info.alias (codes "NWC Wallet");
  num_active_channels = u32_or_zero (length info.methods);
}

module _ {Node : Type 0} (b : NwcBackend Node) where
  unfoldable pub pay_invoice : Text → ℕ → Node → Node × Result ClientError PaymentResult
  pay_invoice bolt11 max_fee_sats node =
      let r = b.nwc.pay_invoice bolt11 node in
      (r.0, map_err nwc_error r.1 >>= λ response. ok (payment_of response))

  unfoldable pub get_balance : Node → Node × Result ClientError ℕ
  get_balance node =
      let r = b.nwc.get_balance node in
      (r.0, map_err nwc_error r.1 >>= λ balance_msat. ok (balance_msat / 1_000))

  unfoldable pub get_info : Node → Node × Result ClientError NodeInfo
  get_info node =
      let r = b.nwc.get_info node in (r.0, map_err nwc_error r.1 >>= λ info. ok (info_of info))

  abbrev pub nwc_backend : LnBackend Node
  nwc_backend = record { pay_invoice = pay_invoice; get_balance = get_balance; get_info = get_info }
