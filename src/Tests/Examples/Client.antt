-- ===== src/Tests/Examples/Client.antt =====
-- The theorems on the client and the mock server, at a client of the mock server.
use bolt.Core.Budget.Bounds.{Stricter}
use bolt.Core.Budget.{limits, effective_budget}
use bolt.Core.Cache
use bolt.Core.Cache.{CacheInner}
use bolt.Core.Client.Answers.{request-Report}
use bolt.Core.Client.Flow.{request, purchase}
use bolt.Core.Client.Purchase.{purchase_cases, Affordable, charged}
use bolt.Core.Client.Report.{Report}
use bolt.Core.Client.Spending.{Call, run, IsCovered, run-IsCovered}
use bolt.Core.Client.Success.{Deal, request-deal, deal_session, deal_response}
use bolt.Core.Client.{get, post, L402Client}
use bolt.Core.Receipt.{Receipt}
use bolt.HashMap
use bolt.Mock.Purchase.{mock_client, Terms, request-mock_server, deal}
use bolt.Mock.Backend.{mock_backend}
use bolt.Mock.{MockState}
use bolt.Mock.Server
use bolt.Mock.Server.{answer}
use bolt.Prelude.{
  ◌+◌, ◌≡◌, refl, ◌⊎◌, true, false, Option, none, some, List, [], ◌∷◌, ◌++◌, ok, err, arith,
}
use bolt.Proto.Errors.{budget_exceeded}
use bolt.Proto.Challenge.{L402Challenge}
use bolt.Tests.Fixtures.{
  some_budget, codec, codec-IsCodec, random, endpoints, path_of, client, url, config, fresh,
}
use bolt.Text.Equality.{text_eq, Text-discrete}
use bolt.Text.{Text, codes}

test_terms : Terms codec random endpoints path_of client url config fresh
unfolding effective_budget HashMap.get Text-discrete Cache.get HashMap.insert
    bolt.Text.Equality.decide_text text_eq bolt.Core.Budget.get_domain
test_terms = record {
  codec_laws = codec-IsCodec;
  bytes = omega arith;
  endpoint = refl;
  price_pos = omega arith;
  price_fits = omega arith;
  covered = omega arith;
  allowed = record { request = omega arith; hour = omega arith; day = tt; total = omega arith };
  no_token = refl;
  store_ok = refl;
  header_ok = refl;
}

abbrev pub mock : L402Client MockState CacheInner
mock = mock_client codec random endpoints path_of client

-- Every host's budget is the general one.
pub some_budget-capped :
    (d : Option Text) → Stricter (limits (effective_budget some_budget d)).total_max (some 5_000)
unfolding effective_budget bolt.Core.Budget.get_domain
some_budget-capped none = omega arith
some_budget-capped (some d) = omega arith

abbrev two_calls : List Call
two_calls =
    record { method = get; url = url; body = none }
    ∷ record { method = post; url = url; body = some (codes "{}") }
    ∷ []

run-IsCovered_example : IsCovered mock 5_000 (run mock two_calls fresh)
run-IsCovered_example =
    run-IsCovered mock 5_000 Server.new_state (Cache.new 4) two_calls some_budget-capped
      (omega arith)

request-mock_server_example :
    (receipt : Receipt) × ((request mock get url none fresh).1
      ≡ ok (record {
        inner = answer 200 config.response_body;
        paid = true;
        cached_token = false;
        receipt = some receipt;
      }))
    × ((request mock get url none fresh).0.receipts ≡ fresh.receipts ++ receipt ∷ [])
    × (receipt.amount_sats ≡ config.price_sats)
    × ((request mock get url none fresh).0.world.balance + config.price_sats ≡ fresh.world.balance)
request-mock_server_example =
    request-mock_server codec random endpoints path_of client url config fresh get none test_terms

request-Report_example : Report url fresh (request mock get url none fresh)
request-Report_example = request-Report mock get url none fresh

abbrev test_deal : Deal mock get url none fresh
test_deal = deal codec random endpoints path_of client url config fresh get none test_terms

request-deal_example : request mock get url none fresh ≡ (
  deal_session mock get url none fresh test_deal,
  ok (deal_response mock get url none fresh test_deal),
)
request-deal_example = request-deal mock get url none fresh test_deal

abbrev test_challenge : L402Challenge
test_challenge = record { macaroon = codes "YWJj"; invoice = codes "lnbc1u1mock"; address = none }

purchase_cases_example :
    (Affordable mock url test_challenge fresh
      × (purchase mock url test_challenge fresh ≡ (
        charged mock url test_challenge fresh,
        (mock_backend.pay_invoice test_challenge.invoice 100 fresh.world).1,
      )))
    ⊎ ((¬ Affordable mock url test_challenge fresh)
        × ((reason : Text) × (purchase mock url test_challenge fresh
              ≡ (fresh, err (budget_exceeded reason)))))
purchase_cases_example = purchase_cases mock url test_challenge fresh
