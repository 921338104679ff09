-- ===== src/Tests/Examples/Lnd.antt =====
-- The theorems on LND, at an answer with two updates.
use bolt.Core.Cache
use bolt.Core.Client.Receipts.{AllGood}
use bolt.Core.Client.Spending.{Call, run}
use bolt.Core.Cache.{CacheInner}
use bolt.Core.Client.{L402Client, get, new_session}
use bolt.Lnd.Rest.Client.{with_lnd, run-IsProof}
use bolt.Lnd.Rest.Paid.{read_stream_iff}
use bolt.Lnd.Rest.Proof.{IsSettled, pay_invoice-IsSettled, pay_invoice-Encodes, reply}
use bolt.Lnd.Rest.Stream.{LastSucceeded}
use bolt.Lnd.Rest.{
  LndJson, LndRestBackend, with_client, pay_invoice, read_stream, accept, payment_lines,
}
use bolt.Lnd.Update.{PaymentUpdate, SendPaymentResponse, no_update}
use bolt.Mock.Server
use bolt.Mock.{MockState}
use bolt.Prelude.{
  ◌≡◌, ◌↔◌, refl, inl, inr, none, some, List, [], ◌∷◌, ok, err, arith, if◌then◌else◌,
}
use bolt.Proto.Port.{PaymentResult}
use bolt.Rest.{HttpClient, RestResponse, IsProof}
use bolt.Tests.Fixtures.{client, crypto, crypto-IsCrypto, encode_hex, zeros, url}
use bolt.Text.Equality.{text_eq}
use bolt.Text.{Text, codes}

-- 44 letters stand for 32 bytes that are 0.
abbrev raw_preimage : Text
raw_preimage = codes "AAAAAAAAAAAAAAAAAAAAAAAAAAAAAAAAAAAAAAAAAAA="

abbrev paid : PaymentUpdate
paid = record no_update {
  status = some (codes "SUCCEEDED");
  payment_preimage = some raw_preimage;
  payment_hash_camel = some (encode_hex (crypto.sha256 (zeros 32)));
  value_msat = some (codes "100500");
  fee_sat_camel = some (codes "2");
}

abbrev status_update : Text → PaymentUpdate
status_update s = record no_update { status = some s }

-- A line is `paid`, wrapped, or a status of its own.
abbrev parse_line : Text → SendPaymentResponse
parse_line line =
    if text_eq line (codes "paid")
    then record { result = some paid; flat = no_update }
    else record { result = none; flat = status_update line }

abbrev pub json : LndJson
json = record {
  parse_payment = λ line. ok (parse_line line);
  parse_balance = λ t. err (codes "EOF");
  parse_info = λ t. err (codes "EOF");
}

abbrev body : Text
body = codes "IN_FLIGHT\npaid\n\n"

abbrev response : RestResponse
response = record { status = 200; text = ok body; bytes = ok body }

abbrev pub node : HttpClient MockState
node = record { send = λ r w. (w, ok response) }

abbrev backend : LndRestBackend MockState
backend = record { client = node; url = codes "https://localhost:8080"; macaroon = codes "00" }

abbrev result : PaymentResult
result = record {
  preimage = crypto.hex_encode (zeros 32);
  payment_hash = crypto.hex_encode (crypto.sha256 (zeros 32));
  amount_sats = 100;
  fee_sats = 2;
}

last : LastSucceeded json (payment_lines body) paid
unfolding text_eq bolt.Text.Lines.lines bolt.Lnd.Rest.not_blank bolt.Text.trim_by
    bolt.Text.trim_start_by bolt.Text.trim_end_by bolt.Text.is_whitespace
    bolt.Lnd.Update.is_succeeded
last = record {
  earlier = codes "IN_FLIGHT" ∷ [];
  line = codes "paid";
  later = [];
  split = refl;
  reads = (_, refl, refl);
  succeeded = refl;
  open_after = tt;
}

pay_invoice-Encodes_example :
    (pay_invoice json crypto backend (codes "lnbc1u1mock") 10 Server.new_state).1 ≡ ok result
unfolding bolt.Lnd.Update.amount_sats bolt.Lnd.Update.fee_sats bolt.Text.Decimal.parse_u64
    bolt.Text.Decimal.parse_digits bolt.Text.Decimal.push_digit encode_hex
pay_invoice-Encodes_example =
    pay_invoice-Encodes json crypto backend (codes "lnbc1u1mock") 10 Server.new_state response body
      paid (zeros 32) raw_preimage (encode_hex (crypto.sha256 (zeros 32))) crypto-IsCrypto refl refl
      refl last (omega arith) refl refl refl (inr refl) (inl refl)

made : (pay_invoice json crypto backend (codes "lnbc1u1mock") 10 Server.new_state).1 ≡ ok result
unfolding bolt.Lnd.Update.amount_sats bolt.Lnd.Update.fee_sats bolt.Text.Decimal.parse_u64
    bolt.Text.Decimal.parse_digits bolt.Text.Decimal.push_digit encode_hex
made =
    pay_invoice-Encodes json crypto backend (codes "lnbc1u1mock") 10 Server.new_state response body
      paid (zeros 32) raw_preimage (encode_hex (crypto.sha256 (zeros 32))) crypto-IsCrypto refl refl
      refl last (omega arith) refl refl refl (inr refl) (inl refl)

pay_invoice-IsSettled_example :
    (r : RestResponse) × (reply json crypto backend (codes "lnbc1u1mock") 10 Server.new_state
      ≡ ok r)
    × IsSettled json crypto result r
pay_invoice-IsSettled_example =
    pay_invoice-IsSettled json crypto backend (codes "lnbc1u1mock") 10 Server.new_state {p = result}
      made

abbrev two_lines : List Text
two_lines = codes "IN_FLIGHT" ∷ codes "paid" ∷ []

read_stream_iff_example :
    (read_stream json crypto two_lines ≡ ok result)
    ↔ ((u : PaymentUpdate) × LastSucceeded json two_lines u × (accept crypto u ≡ ok result))
read_stream_iff_example = read_stream_iff json crypto two_lines result

abbrev pub calls : List Call
calls = record { method = get; url = url; body = none } ∷ []

-- A server that sells a page for a token.
abbrev pub buyer : L402Client MockState CacheInner
buyer = record client {
  env = record client.env {
    send = λ r w. (
      w,
      ok (elim r.authorization [
        | some a ↦ record { status = 200; www_authenticate = none; body = codes "page" }
        | none ↦ record {
          status = 402;
          www_authenticate = some (some (codes "L402 macaroon=\"YWJj\", invoice=\"lnbc1u1mock\""));
          body = [];
        }
      ]),
    );
  };
}

run-IsProof_example :
    AllGood
      (with_lnd json crypto backend buyer)
      (IsProof crypto)
      (run (with_lnd json crypto backend buyer) calls (new_session Server.new_state (Cache.new 4)))
run-IsProof_example = run-IsProof json crypto backend buyer Server.new_state (Cache.new 4) calls
