-- ===== src/Core/Client/Success.antt =====
-- The path through `L402Client::request` on which an invoice is paid and the resource is served.
use bolt.Core.Budget.Step.{Allowed}
use bolt.Core.Budget.{limits, effective_budget, record_spending}
use bolt.Core.Client.Extract.{extract_challenge, invoice_amount_sats}
use bolt.Core.Client.Flow.{
  on_store, dispatch, send_request, send_with_auth, purchase, make_receipt, push_receipt, conclude,
  settle, request_unauthenticated, try_token, request, payment_required, plain,
}
use bolt.Core.Client.Purchase.{purchase_cases}
use bolt.Core.Client.{
  L402Client, Session, Method, HttpRequest, HttpResponse, L402Response, sent, paid,
}
use bolt.Core.Receipt
use bolt.Core.Receipt.{Receipt}
use bolt.Prelude.{
  ◌≡◌, refl, ◌∙◌, true, false, Option, none, some, [], ◌∷◌, ◌++◌, ◌==◌, inl, inr, ok, min, u64_max,
}
use bolt.Proto.Challenge.{L402Challenge}
use bolt.Proto.Port.{PaymentResult}
use bolt.Proto.Token.{L402Token, to_header_value}
use bolt.Text.{Text}

module _ {World Store : Type 0} (c : L402Client World Store) (m : Method) (url : Text)
    (body : Option Text) where
  abbrev pub with_token : L402Token → HttpRequest
  with_token token = record (plain m url body) { authorization = some (to_header_value token) }

  -- A purchase in which every party does its part: no token is stored, the server asks for a payment
  -- that the budget allows, the backend pays, the store and the header take the token, and the server
  -- then answers with another status.
  pub record Deal (s : Session World Store) : Type 0 where
    pub no_token : (c.token_store.get url s.store).1 ≡ ok none
    pub asked : World
    pub demand : HttpResponse
    pub ask : c.env.send (plain m url body) s.world ≡ (asked, ok demand)
    pub demand_402 : (demand.status == payment_required) ≡ true
    pub challenge : L402Challenge
    pub read : extract_challenge c.std c.base64 demand ≡ ok challenge
    pub allowed :
        Allowed
          (limits (effective_budget c.budget (c.env.host_of url)))
          (c.env.now asked)
          (invoice_amount_sats c.std challenge.invoice)
          s.budget_state
    pub settled : World
    pub payment : PaymentResult
    pub pay :
        c.env.backend.pay_invoice challenge.invoice c.config.max_fee_sats asked
        ≡ (settled, ok payment)
    pub store_ok :
        (c.token_store.put url challenge.macaroon payment.preimage
          (c.token_store.get url s.store).0).1
        ≡ ok tt
    pub header_ok :
        c.env.header_error
          (to_header_value (record { macaroon = challenge.macaroon; preimage = payment.preimage }))
        ≡ none
    pub served : World
    pub reply : HttpResponse
    pub retry :
        c.env.send
          (with_token (record { macaroon = challenge.macaroon; preimage = payment.preimage }))
          settled
        ≡ (served, ok reply)
    pub reply_not_402 : (reply.status == payment_required) ≡ false

  module _ (s : Session World Store) (d : Deal s) where
    abbrev pub deal_receipt : Receipt
    deal_receipt =
        Receipt.new (c.env.now d.served) url d.payment.amount_sats d.payment.fee_sats
          d.payment.payment_hash d.payment.preimage d.reply.status
          (min (c.env.elapsed_ms s.world d.served) u64_max)

    abbrev pub deal_session : Session World Store
    deal_session = record {
      world = d.served;
      store =
          (c.token_store.put url d.challenge.macaroon d.payment.preimage
            (c.token_store.get url s.store).0).0;
      budget_state =
          record_spending (c.env.now d.asked) (invoice_amount_sats c.std d.challenge.invoice)
            s.budget_state;
      receipts = s.receipts ++ deal_receipt ∷ [];
      trace =
          sent
            (with_token (record { macaroon = d.challenge.macaroon; preimage = d.payment.preimage }))
          ∷ paid d.challenge.invoice
          ∷ sent (plain m url body)
          ∷ s.trace;
    }

    abbrev pub deal_response : L402Response
    deal_response = record {
      inner = d.reply;
      paid = true;
      cached_token = false;
      receipt = some deal_receipt;
    }

    -- The session after the challenge was received.
    abbrev asked_session : Session World Store
    asked_session = record s {
      world = d.asked;
      store = (c.token_store.get url s.store).0;
      trace = sent (plain m url body) ∷ s.trace;
    }

    paid_session : Session World Store
    paid_session = record asked_session {
      world = d.settled;
      budget_state =
          record_spending (c.env.now d.asked) (invoice_amount_sats c.std d.challenge.invoice)
            s.budget_state;
      trace = paid d.challenge.invoice ∷ sent (plain m url body) ∷ s.trace;
    }

    purchase-deal : purchase c url d.challenge asked_session ≡ (paid_session, ok d.payment)
    unfolding paid_session
    purchase-deal = elim (purchase_cases c url d.challenge asked_session) [
      | inl (a, e) ↦ e ∙ rw d.pay refl
      | inr (n, r) ↦ absurd (n d.allowed)
    ]

    -- What follows the payment.
    settle-deal :
        settle c s.world m url body d.challenge asked_session ≡ (deal_session, ok deal_response)
    unfolding settle on_store send_with_auth dispatch conclude push_receipt make_receipt
        paid_session
    settle-deal =
        rw
          (
            settle, purchase-deal, d.store_ok, send_with_auth, d.header_ok, d.retry, conclude,
            d.reply_not_402,
          )
          refl

    -- In a purchase in which every party does its part the request succeeds with the server's second
    -- response, marked as paid. The session afterwards has the preimage and the macaroon in the store,
    -- the decoded amount in the budget, one new receipt with what the backend reported, and three new
    -- calls in this order: the plain request, the payment, the request with the token.
    pub request-deal : request c m url body s ≡ (deal_session, ok deal_response)
    unfolding request on_store try_token request_unauthenticated send_request dispatch
    request-deal = rw (request, d.no_token, d.ask, d.demand_402, d.read) settle-deal
