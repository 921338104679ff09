-- ===== src/Tests/Examples/Wallets.antt =====
-- The theorems on Core Lightning, SwissKnife and Nostr Wallet Connect.
use bolt.Cln.Rest
use bolt.Cln.Rest.Amounts.{as_u64-maxfee, balance_answer-total}
use bolt.Cln.Rest.Answers.{IsPaid, pay_invoice-IsPaid}
use bolt.Cln.Rest.{
  ClnJson, ClnRestBackend, PayResponse, ListFundsResponse, written, raw, object, as_u64, maxfee,
  balance_answer,
}
use bolt.Core.Cache
use bolt.Core.Cache.{CacheInner}
use bolt.Core.Client.Receipts.{AllGood}
use bolt.Core.Client.Spending.{run}
use bolt.Core.Client.{new_session}
use bolt.Mock.Server
use bolt.Mock.{MockState}
use bolt.Nwc.Client.{IsBare, with_nwc, run-IsBare}
use bolt.Nwc.{NwcBackend}
use bolt.Prelude.{
  ◌≡◌, ◌↔◌, refl, none, some, [], ◌∷◌, ok, err, min, u64_max, u64_mod, ◌*◌, ◌%◌, ◌/◌,
}
use bolt.Proto.Port.{PaymentResult}
use bolt.Rest.{HttpClient, RestResponse}
use bolt.SwissKnife
use bolt.SwissKnife.Settled
use bolt.SwissKnife.Settled.{pay_invoice_iff}
use bolt.SwissKnife.{SwissKnifeJson, SwissKnifeBackend, PaymentResponse, settled}
use bolt.Tests.Examples.Lnd.{buyer, calls}
use bolt.Text.{Text, codes}

abbrev response : RestResponse
response = record { status = 200; text = ok (codes "{}"); bytes = ok (codes "{}") }

abbrev node : HttpClient MockState
node = record { send = λ r w. (w, ok response) }

-- 100 satoshis, and 1.6 more for the route.
abbrev complete : PayResponse
complete = record {
  payment_preimage = some (codes "aa");
  payment_hash = some (codes "bb");
  amount_msat = some (written (codes "100000msat"));
  amount_sent_msat = some (raw 101_600);
  status = some (codes "complete");
}

abbrev funds : ListFundsResponse
funds = record {
  channels =
      record { our_amount_msat = some (object 1_500) }
      ∷ record { our_amount_msat = none }
      ∷ record { our_amount_msat = some (written (codes "700msat")) }
      ∷ [];
}

abbrev cln_json : ClnJson
cln_json = record {
  parse_pay = λ t. ok complete;
  parse_funds = λ t. ok funds;
  parse_info = λ t. err (codes "EOF");
}

abbrev cln : ClnRestBackend MockState
cln = record { client = node; url = codes "https://localhost:3001"; rune = codes "r" }

abbrev cln_result : PaymentResult
cln_result = record {
  preimage = codes "aa";
  payment_hash = codes "bb";
  amount_sats = 100;
  fee_sats = 1;
}

cln_paid :
    (Rest.pay_invoice cln_json cln (codes "lnbc1u1mock") 10 Server.new_state).1 ≡ ok cln_result
unfolding Rest.pay_invoice Rest.pay_answer bolt.Rest.exchange bolt.Rest.checked Rest.of_pay
    Rest.completed Rest.as_u64 bolt.Text.Lines.strip_suffix bolt.Text.Equality.text_eq
    bolt.Text.Decimal.parse_u64 bolt.Text.Decimal.parse_digits bolt.Text.Decimal.push_digit
cln_paid = refl

pay_invoice-IsPaid_example :
    (r : RestResponse) × ((node.send
        (Rest.pay_request cln_json cln (codes "lnbc1u1mock") 10)
        Server.new_state).1
      ≡ ok r)
    × IsPaid cln_json cln_result r
pay_invoice-IsPaid_example =
    pay_invoice-IsPaid cln_json cln (codes "lnbc1u1mock") 10 Server.new_state {p = cln_result}
      cln_paid

as_u64-maxfee_example : as_u64 (written (maxfee 100)) ≡ some (min (100 * 1_000) u64_max)
as_u64-maxfee_example = as_u64-maxfee 100

balance_answer-total_example :
    balance_answer cln_json (ok response) ≡ ok ((2_200 % u64_mod) / 1_000)
unfolding Rest.as_u64 bolt.Text.Lines.strip_suffix bolt.Text.Equality.text_eq
    bolt.Text.Decimal.parse_u64 bolt.Text.Decimal.parse_digits bolt.Text.Decimal.push_digit
balance_answer-total_example =
    balance_answer-total cln_json response (codes "{}") funds refl refl refl

abbrev swissknife_json : SwissKnifeJson
swissknife_json = record {
  parse_payment = λ t. ok (record {
    amount_msat = 100_000;
    fee_msat = some 2_999;
    status = settled;
    payment_hash = none;
    payment_preimage = some (codes "aa");
    error = none;
  });
  parse_balance = λ t. err (codes "EOF");
  parse_wallet = λ t. err (codes "EOF");
  parse_error = λ t. err (codes "EOF");
}

abbrev swissknife : SwissKnifeBackend MockState
swissknife = record {
  client = node;
  base_url = codes "https://app.numeraire.tech";
  api_key = codes "k";
}

abbrev swissknife_result : PaymentResult
swissknife_result = record {
  preimage = codes "aa";
  payment_hash = [];
  amount_sats = 100;
  fee_sats = 2;
}

pay_invoice_iff_example :
    ((SwissKnife.pay_invoice swissknife_json swissknife (codes "lnbc1u1mock") 0 Server.new_state).1
      ≡ ok swissknife_result)
    ↔ ((r : RestResponse) × (Settled.reply swissknife_json swissknife
            (codes "lnbc1u1mock")
            0
            Server.new_state
          ≡ ok r)
        × Settled.IsPaid swissknife_json r swissknife_result)
pay_invoice_iff_example =
    pay_invoice_iff swissknife_json swissknife (codes "lnbc1u1mock") 0 Server.new_state
      swissknife_result

abbrev nwc : NwcBackend MockState
nwc = record {
  nwc = record {
    pay_invoice = λ t w. (w, ok (record { preimage = codes "aa"; fees_paid = some 1_500 }));
    get_balance = λ w. (w, ok 5_000);
    get_info = λ w. (w, err (codes "timeout"));
  };
  uri_display = codes "nostr+walletconnect://00...";
}

run-IsBare_example :
    AllGood
      (with_nwc nwc buyer)
      (IsBare nwc)
      (run (with_nwc nwc buyer) calls (new_session Server.new_state (Cache.new 4)))
run-IsBare_example = run-IsBare nwc buyer Server.new_state (Cache.new 4) calls
