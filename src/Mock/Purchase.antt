-- ===== src/Mock/Purchase.antt =====
-- A purchase from the mock server by a client with the mock backend: the two crates together. The
-- transport between them hands the request's path and authorization to the handler, and its answer
-- back.
use bolt.Core.Budget.Step.{Allowed}
use bolt.Core.Budget.{limits, effective_budget}
use bolt.Core.Client.Extract.{extract_challenge, invoice_amount_sats}
use bolt.Core.Client.Flow.{payment_required, plain, request}
use bolt.Core.Client.Success.{Deal, with_token, request-deal, deal_receipt}
use bolt.Core.Client.{L402Client, Session, Method, HttpRequest, HttpResponse}
use bolt.Core.Receipt.{Receipt}
use bolt.HashMap
use bolt.HashMap.Laws.{get-insert_self}
use bolt.Mock.Backend.Balance.{pay_invoice-paid}
use bolt.Mock.Backend.{mock_backend, payment_of}
use bolt.Mock.Challenge.Header.{from_header-to_www_authenticate}
use bolt.Mock.Challenge.Invoice.{safe_hash-IsSafe, invoice_amount_sats-invoice_for}
use bolt.Mock.Challenge.{generate, hash_of}
use bolt.Mock.Laws.{IsCodec}
use bolt.Text.Hex.{IsBytes}
use bolt.Mock.Server.Access.{handle_request-issues, handle_request-admits, validate_auth-generate}
use bolt.Mock.Server.{EndpointConfig, Endpoints, answer, issue, handle_request}
use bolt.Mock.{Codec, PendingChallenge, MockState}
use bolt.Prelude.{
  ℕ, ◌+◌, ◌-◌, ◌*◌, ◌≤◌, ◌<◌, ◌≡◌, refl, ◌∙◌, ap, sym, subst, true, false, Option, none, some, [],
  ◌∷◌, ◌++◌, Result, ok, arith, u64_mod,
}
use bolt.Proto.Token.{L402Token, to_header_value}
use bolt.Text.Equality.{Text-discrete}
use bolt.Text.{Text}

module _ {Store : Type 0} (codec : Codec) (random : ℕ → Text) (endpoints : Endpoints)
    (path_of : Text → Text) (c : L402Client MockState Store) where
  abbrev pub mock_send : HttpRequest → MockState → MockState × Result Text HttpResponse
  mock_send r w =
      let x =
        handle_request codec random endpoints (path_of r.url)
          (elim r.authorization [ none ↦ none | some a ↦ some (some a) ]) w in
      (x.0, ok x.1)

  -- The client `c`, with the mock server behind its HTTP stack and the mock backend.
  abbrev pub mock_client : L402Client MockState Store
  mock_client = record c { env = record c.env { send = mock_send; backend = mock_backend } }

  send-plain :
      (m : Method) (url : Text) (body : Option Text) (w : MockState) {config : EndpointConfig}
      → HashMap.get Text-discrete (path_of url) endpoints ≡ some config
      → mock_send (plain m url body) w
        ≡ ((issue codec random config w).0, ok (issue codec random config w).1)
  send-plain m url none w {config} e =
      ap (λ (x : MockState × HttpResponse). (x.0, ok x.1))
        (handle_request-issues codec random endpoints (path_of url) w {config = config} e)
  send-plain m url (some b) w {config} e =
      ap (λ (x : MockState × HttpResponse). (x.0, ok x.1))
        (handle_request-issues codec random endpoints (path_of url) w {config = config} e)

  send-with_token :
      (m : Method) (url : Text) (body : Option Text) (token : L402Token) (w : MockState)
      → mock_send (with_token mock_client m url body token) w ≡ (
        (handle_request codec random endpoints
            (path_of url)
            (some (some (to_header_value token)))
            w).0,
        ok
            (handle_request codec random endpoints
              (path_of url)
              (some (some (to_header_value token)))
              w).1,
      )
  send-with_token m url none token w = refl
  send-with_token m url (some b) token w = refl

  module _ (url : Text) (config : EndpointConfig) (s : Session MockState Store) where
    -- The challenge that the server generates next, and the state after it was issued.
    abbrev pub next_challenge : PendingChallenge
    next_challenge = generate codec (random s.world.drawn) config.price_sats

    abbrev pub issued : MockState
    issued = (issue codec random config s.world).0

    abbrev pub next_token : L402Token
    next_token = record { macaroon = next_challenge.macaroon; preimage = next_challenge.preimage }

    -- The endpoint has a positive price in the range of a `u64` of millisatoshis, the budget allows it
    -- at the clock's reading, the balance covers it, and the store has no token and takes one.
    pub record Terms : Type 0 where
      pub codec_laws : IsCodec codec c.base64
      pub bytes : IsBytes (random s.world.drawn)
      pub endpoint : HashMap.get Text-discrete (path_of url) endpoints ≡ some config
      pub price_pos : 0 < config.price_sats
      pub price_fits : config.price_sats * 1000 < u64_mod
      pub covered : config.price_sats ≤ s.world.balance
      pub allowed :
          Allowed
            (limits (effective_budget c.budget (c.env.host_of url)))
            (c.env.now issued)
            config.price_sats
            s.budget_state
      pub no_token : (c.token_store.get url s.store).1 ≡ ok none
      pub store_ok :
          (c.token_store.put url next_token.macaroon next_token.preimage
            (c.token_store.get url s.store).0).1
          ≡ ok tt
      pub header_ok : c.env.header_error (to_header_value next_token) ≡ none

    price_read : Terms → invoice_amount_sats c.std next_challenge.invoice ≡ config.price_sats
    unfolding generate
    price_read t =
        let hash = hash_of codec (random s.world.drawn) in
        invoice_amount_sats-invoice_for c.std config.price_sats _
          (safe_hash-IsSafe hash (t.codec_laws.hex_encode-IsHex _ (t.codec_laws.sha256-IsBytes _)))
          t.price_pos t.price_fits

    challenge_read :
        Terms
        → extract_challenge c.std c.base64 (issue codec random config s.world).1
          ≡ ok (record {
            macaroon = next_token.macaroon;
            invoice = next_challenge.invoice;
            address = none;
          })
    unfolding extract_challenge issue
    challenge_read t =
        rw
          (from_header-to_www_authenticate c.std codec c.base64 (random s.world.drawn)
            config.price_sats t.codec_laws)
          refl

    registered :
        HashMap.get Text-discrete next_challenge.invoice issued.challenges ≡ some next_challenge
    unfolding issue
    registered =
        get-insert_self Text-discrete next_challenge.invoice next_challenge s.world.challenges

    abbrev settled_state : MockState
    settled_state = record issued { balance = s.world.balance - config.price_sats }

    retry_admitted :
        (m : Method) (body : Option Text)
        → Terms
        → mock_send (with_token mock_client m url body next_token) settled_state
          ≡ (settled_state, ok (answer 200 config.response_body))
    retry_admitted m body t =
        let valid =
          validate_auth-generate codec c.base64 (random s.world.drawn) config.price_sats
            t.codec_laws t.bytes in
        send-with_token m url body next_token settled_state
        ∙ ap (λ (x : MockState × HttpResponse). (x.0, ok x.1))
            (handle_request-admits codec random endpoints (path_of url) next_challenge.invoice
              next_token settled_state {config = config} {c = next_challenge} t.endpoint registered
              (unfold generate in t.codec_laws.base64-no_colon _) valid)

    issued_unpaid :
        (issued.balance ≡ s.world.balance)
        × ((issue codec random config s.world).1.status ≡ payment_required)
    unfolding issue
    issued_unpaid = (refl, refl)

    payment_made :
        (fee : ℕ)
        → Terms
        → mock_backend.pay_invoice next_challenge.invoice fee issued
          ≡ (settled_state, ok (payment_of next_challenge))
    unfolding issue generate
    payment_made fee t =
        pay_invoice-paid next_challenge.invoice fee issued {c = next_challenge} registered t.covered

    pub deal : (m : Method) (body : Option Text) → Terms → Deal mock_client m url body s
    unfolding issue
    deal m body t = record {
      no_token = t.no_token;
      asked = issued;
      demand = (issue codec random config s.world).1;
      ask = send-plain m url body s.world {config = config} t.endpoint;
      demand_402 = refl;
      challenge = record {
        macaroon = next_token.macaroon;
        invoice = next_challenge.invoice;
        address = none;
      };
      read = challenge_read t;
      allowed =
          subst
            (λ n.
              Allowed (limits (effective_budget c.budget (c.env.host_of url))) (c.env.now issued) n
                s.budget_state)
            (sym (price_read t)) t.allowed;
      settled = settled_state;
      payment = payment_of next_challenge;
      pay = payment_made c.config.max_fee_sats t;
      store_ok = t.store_ok;
      header_ok = t.header_ok;
      served = settled_state;
      reply = answer 200 config.response_body;
      retry = retry_admitted m body t;
      reply_not_402 = refl;
    }

    -- Against a path that the mock server protects, with a price that the budget allows and that the
    -- backend's balance covers, a client with no token for the URL succeeds: it returns the protected
    -- body with status 200 and a receipt, and the balance has gone down by exactly the price, which is
    -- also the amount of the receipt.
    pub request-mock_server :
        (m : Method) (body : Option Text)
        → Terms
        → (receipt : Receipt) × ((request mock_client m url body s).1
            ≡ ok (record {
              inner = answer 200 config.response_body;
              paid = true;
              cached_token = false;
              receipt = some receipt;
            }))
          × ((request mock_client m url body s).0.receipts ≡ s.receipts ++ receipt ∷ [])
          × (receipt.amount_sats ≡ config.price_sats)
          × ((request mock_client m url body s).0.world.balance + config.price_sats
              ≡ s.world.balance)
    unfolding deal generate
    request-mock_server m body t =
        let d = deal m body t in
        let e = request-deal mock_client m url body s d in
        (
          deal_receipt mock_client m url body s d,
          ap (λ x. x.1) e,
          ap (λ x. x.0.receipts) e,
          refl,
          ap (λ x. x.0.world.balance + config.price_sats) e ∙ (let h = t.covered in omega arith),
        )
