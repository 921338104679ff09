-- ===== src/Core/Client/Flow.antt =====
-- The protocol flow, `L402Client::request` and its helpers.
use bolt.Core.Budget.{check_and_record}
use bolt.Core.Client.Extract.{extract_challenge, invoice_amount_sats}
use bolt.Core.Client.Monad.{M, pure, fail, lift, ◌>>=◌, ◌>>◌}
use bolt.Core.Client.{
  L402Client, Session, Method, HttpRequest, HttpResponse, L402Response, sent, paid,
}
use bolt.Core.Receipt
use bolt.Core.Receipt.{Receipt}
use bolt.Prelude.{
  ℕ, Bool, true, false, Option, none, some, [], ◌∷◌, ◌++◌, if◌then◌else◌, ◌==◌, min, u64_max,
  Result, ok, map_err,
}
use bolt.Proto.Challenge.{L402Challenge}
use bolt.Proto.Errors.{ClientError, retry_failed, backend, http}
use bolt.Proto.Port.{PaymentResult}
use bolt.Proto.Token.{L402Token, to_header_value}
use bolt.Text.{Text, codes, text}

abbrev pub payment_required : ℕ
payment_required = 402

-- A request with a body has the JSON content type.
abbrev pub plain : Method → Text → Option Text → HttpRequest
plain method url none = record {
  method = method;
  url = url;
  body = none;
  content_type = none;
  authorization = none;
}
plain method url (some body) = record {
  method = method;
  url = url;
  body = some body;
  content_type = some (codes "application/json");
  authorization = none;
}

abbrev pub Step : Type 0 → Type 0 → Type 0 → Type 0
Step World Store A = M (Session World Store) A

module _ {World Store : Type 0} (c : L402Client World Store) where
  -- A call of the token store.
  unfoldable pub on_store :
      {A : Type 0} → (Store → Store × Result ClientError A) → Step World Store A
  on_store f s = let r = f s.store in (record s { store = r.0 }, r.1)

  -- `builder.send()`.
  unfoldable pub dispatch : HttpRequest → Step World Store HttpResponse
  dispatch request s =
      let r = c.env.send request s.world in
      (record s { world = r.0; trace = sent request ∷ s.trace }, map_err http r.1)

  unfoldable pub send_request : Method → Text → Option Text → Step World Store HttpResponse
  send_request method url body = dispatch (plain method url body)

  unfoldable pub send_with_auth :
      Method → Text → Option Text → L402Token → Step World Store HttpResponse
  send_with_auth method url body token = elim (c.env.header_error (to_header_value token)) [
    | some e ↦ fail (backend (text "invalid authorization header value: " ++ e))
    | none ↦
        dispatch (record (plain method url body) { authorization = some (to_header_value token) })
  ]

  -- `check_and_record` on the client's tracker, at the present time.
  unfoldable pub charge : ℕ → Option Text → Step World Store (Unit {0})
  charge amount domain s =
      let r = check_and_record c.budget (c.env.now s.world) amount domain s.budget_state in
      (record s { budget_state = r.0 }, r.1)

  unfoldable pub pay : Text → Step World Store PaymentResult
  pay invoice s =
      let r = c.env.backend.pay_invoice invoice c.config.max_fee_sats s.world in
      (record s { world = r.0; trace = paid invoice ∷ s.trace }, r.1)

  -- Lines 276 to 296: the budget is checked with the decoded amount before the invoice is paid.
  unfoldable pub purchase : Text → L402Challenge → Step World Store PaymentResult
  purchase url challenge = do
    charge (invoice_amount_sats c.std challenge.invoice) (c.env.host_of url)
    pay challenge.invoice

  -- Lines 309 to 321: the latency saturates, and the clock is read once more.
  unfoldable pub make_receipt :
      World → Text → PaymentResult → HttpResponse → Session World Store → Receipt
  make_receipt start url payment response s =
      Receipt.new (c.env.now s.world) url payment.amount_sats payment.fee_sats payment.payment_hash
        payment.preimage response.status (min (c.env.elapsed_ms start s.world) u64_max)

  -- Lines 331 to 341.
  unfoldable pub push_receipt : HttpResponse → Receipt → Step World Store L402Response
  push_receipt response receipt s = (
    record s { receipts = s.receipts ++ receipt ∷ [] },
    ok (record { inner = response; paid = true; cached_token = false; receipt = some receipt }),
  )

  -- Lines 309 to 341: a second 402 is an error, and else the receipt is kept.
  unfoldable pub conclude :
      World → Text → PaymentResult → HttpResponse → Step World Store L402Response
  conclude start url payment response s =
      let receipt = make_receipt start url payment response s in
      (if response.status == payment_required
          then (do
            on_store (c.token_store.remove url)
            fail (retry_failed (text "server returned 402 again after payment")))
          else push_receipt response receipt)
        s

  -- Lines 276 to 341.
  unfoldable pub settle :
      World → Method → Text → Option Text → L402Challenge → Step World Store L402Response
  settle start method url body challenge = do
    payment ← purchase url challenge
    on_store (c.token_store.put url challenge.macaroon payment.preimage)
    retry ←
        send_with_auth method url body
          (record { macaroon = challenge.macaroon; preimage = payment.preimage })
    conclude start url payment retry

  abbrev pub unpaid : Bool → HttpResponse → L402Response
  unpaid cached response = record {
    inner = response;
    paid = false;
    cached_token = cached;
    receipt = none;
  }

  -- Lines 260 to 341.
  unfoldable pub request_unauthenticated :
      World → Method → Text → Option Text → Step World Store L402Response
  request_unauthenticated start method url body = do
    response ← send_request method url body
    if response.status == payment_required
        then (do
          challenge ← lift (extract_challenge c.std c.base64 response)
          settle start method url body challenge)
        else pure (unpaid false response)

  -- Lines 240 to 258, with what follows them.
  unfoldable pub try_token :
      World → Method → Text → Option Text → Option (Text × Text) → Step World Store L402Response
  try_token start method url body none = request_unauthenticated start method url body
  try_token start method url body (some (macaroon, preimage)) = do
    response ← send_with_auth method url body (record { macaroon = macaroon; preimage = preimage })
    if response.status == payment_required
        then (do on_store (c.token_store.remove url); request_unauthenticated start method url body)
        else pure (unpaid true response)

  -- `request`; it starts in the world of the session.
  unfoldable pub request : Method → Text → Option Text → Step World Store L402Response
  request method url body s =
      ((on_store (c.token_store.get url)) >>= (try_token s.world method url body)) s
