-- ===== src/Core/Client/Answers.antt =====
-- Every path of a request, from its last step to its first.
use bolt.Core.Client.Extract.{extract_challenge}
use bolt.Core.Client.Flow.{
  on_store, dispatch, send_request, send_with_auth, make_receipt, push_receipt, conclude, settle,
  request_unauthenticated, try_token, request, payment_required, plain,
}
use bolt.Core.Client.Monad.{M, after, lift, fail, ◌>>=◌}
use bolt.Core.Client.Purchase.{purchase_cases, charged}
use bolt.Core.Client.Report.{Quiet, Quiet-IsFailed, IsFailed, IsPaid, Report, Report-after, Settled}
use bolt.Core.Client.{L402Client, Session, Method, HttpRequest, HttpResponse, L402Response}
use bolt.Prelude.{
  ℕ, ◌≡◌, ◌≢◌, refl, ◌∙◌, false, Option, none, some, ◌==◌, inl, inr, Result, ok, err, arith,
  Bool-cases, Option-cases,
}
use bolt.Proto.Challenge.{L402Challenge}
use bolt.Proto.Errors.{ClientError}
use bolt.Proto.Port.{PaymentResult}
use bolt.Proto.Token.{L402Token, to_header_value}
use bolt.Text.{Text}

ne_of_test : (n : ℕ) → (n == payment_required) ≡ false → n ≢ payment_required
ne_of_test n h e = ground arith

module _ {World Store : Type 0} where
  Quiet-refl : {s : Session World Store} → Quiet s s
  Quiet-refl = record { receipts = refl; payments_same = refl; budget_same = refl }

  IsPaid-Quiet : {s t u : Session World Store} → IsPaid s t → Quiet t u → IsPaid s u
  IsPaid-Quiet p q = record {
    receipts = q.receipts ∙ p.receipts;
    one_payment = q.payments_same ∙ p.one_payment;
  }

  IsPaid-IsFailed : {s t : Session World Store} → IsPaid s t → IsFailed s t
  IsPaid-IsFailed p = record {
    receipts = p.receipts;
    at_least = omega (arith, p.one_payment);
    at_most = omega (arith, p.one_payment);
  }

  Settled-after :
      {A : Type 0} (url : Text) (s : Session World Store)
      (r : Session World Store × Result ClientError A)
      (f : A → M (Session World Store) L402Response)
      → IsPaid s r.0
      → ((a : A) → IsPaid s r.0 → Settled url s (f a r.0))
      → Settled url s (after r f)
  Settled-after url s (t, ok a) f p h = h a p
  Settled-after url s (t, err e) f p h = IsPaid-IsFailed p

  Settled-Report :
      (url : Text) (s : Session World Store)
      (r : Session World Store × Result ClientError L402Response)
      → Settled url s r
      → Report url s r
  Settled-Report url s (t, ok x) h = (h.0, inr h.1)
  Settled-Report url s (t, err e) h = h

module _ {World Store : Type 0} (c : L402Client World Store) where
  on_store-Quiet :
      {A : Type 0} (f : Store → Store × Result ClientError A) (s : Session World Store)
      → Quiet s (on_store c f s).0
  unfolding on_store
  on_store-Quiet f s = record { receipts = refl; payments_same = refl; budget_same = refl }

  dispatch-Quiet : (r : HttpRequest) (s : Session World Store) → Quiet s (dispatch c r s).0
  unfolding dispatch
  dispatch-Quiet r s = record { receipts = refl; payments_same = refl; budget_same = refl }

  send_with_auth-Quiet :
      (m : Method) (url : Text) (body : Option Text) (t : L402Token) (s : Session World Store)
      → Quiet s (send_with_auth c m url body t s).0
  unfolding send_with_auth
  send_with_auth-Quiet m url body t s =
      elim (Option-cases (c.env.header_error (to_header_value t))) [
        | inl e ↦ rw (send_with_auth, e) (dispatch-Quiet _ s)
        | inr (x, e) ↦
            rw (send_with_auth, e)
              (record { receipts = refl; payments_same = refl; budget_same = refl })
      ]

  conclude-Settled :
      (start : World) (url : Text) (y : PaymentResult) (r : HttpResponse)
      (s t : Session World Store)
      → IsPaid s t
      → Settled url s (conclude c start url y r t)
  unfolding conclude push_receipt make_receipt
  conclude-Settled start url y r s t p = elim (Bool-cases (r.status == payment_required)) [
    | inl e ↦
        rw (conclude, e)
          (Settled-after url s (on_store c (c.token_store.remove url) t) (λ u. fail _)
            (IsPaid-Quiet p (on_store-Quiet (c.token_store.remove url) t))
            (λ u q. IsPaid-IsFailed q))
    | inr e ↦
        rw (conclude, e)
          (
            ne_of_test r.status e,
            record {
              was_paid = refl;
              not_cached = refl;
              last = make_receipt c start url y r t;
              receipt = refl;
              receipts = rw p.receipts;
              status = refl;
              endpoint = refl;
              one_payment = p.one_payment;
            },
          )
  ]

  -- From the moment the invoice is paid.
  bought-Settled :
      (start : World) (m : Method) (url : Text) (body : Option Text) (x : L402Challenge)
      (s : Session World Store) (y : PaymentResult) (t : Session World Store)
      → IsPaid s t
      → Settled url s (
          after (on_store c (c.token_store.put url x.macaroon y.preimage) t) (λ u.
            (send_with_auth c m url body (record { macaroon = x.macaroon; preimage = y.preimage }))
            >>= (λ r. conclude c start url y r)))
  bought-Settled start m url body x s y t p =
      Settled-after url s (on_store c (c.token_store.put url x.macaroon y.preimage) t) _
        (IsPaid-Quiet p (on_store-Quiet (c.token_store.put url x.macaroon y.preimage) t))
        (λ u q.
          Settled-after url s
            (send_with_auth c m url body (record { macaroon = x.macaroon; preimage = y.preimage })
              (on_store c (c.token_store.put url x.macaroon y.preimage) t).0)
            (λ r. conclude c start url y r)
            (IsPaid-Quiet q (
              send_with_auth-Quiet m url body
                (record { macaroon = x.macaroon; preimage = y.preimage }) _))
            (λ r p2. conclude-Settled start url y r s _ p2))

  settle-Report :
      (start : World) (m : Method) (url : Text) (body : Option Text) (x : L402Challenge)
      (s : Session World Store)
      → Report url s (settle c start m url body x s)
  unfolding settle
  settle-Report start m url body x s = elim (purchase_cases c url x s) [
    | inl (a, e) ↦ rw e (
        Settled-Report url s _ (
          Settled-after url s
            (
              charged c url x s,
              (c.env.backend.pay_invoice x.invoice c.config.max_fee_sats s.world).1,
            )
            _ (record { receipts = refl; one_payment = refl })
            (λ y p. bought-Settled start m url body x s y _ p)))
    | inr (n, (reason, e)) ↦
        rw e (Quiet-IsFailed (record { receipts = refl; payments_same = refl; budget_same = refl }))
  ]

  request_unauthenticated-Report :
      (start : World) (m : Method) (url : Text) (body : Option Text) (s : Session World Store)
      → Report url s (request_unauthenticated c start m url body s)
  unfolding request_unauthenticated send_request
  request_unauthenticated-Report start m url body s =
      Report-after url s (dispatch c (plain m url body) s) _ (dispatch-Quiet (plain m url body) s)
        (λ r. elim (Bool-cases (r.status == payment_required)) [
          | inl e ↦ rw e (
              Report-after url _ (lift (extract_challenge c.std c.base64 r) _) _ Quiet-refl
                (λ x. settle-Report start m url body x _))
          | inr e ↦ rw e (
            ne_of_test r.status e,
            inl (record { not_paid = refl; no_receipt = refl; quiet = Quiet-refl }),
          )
        ])

  try_token-Report :
      (start : World) (m : Method) (url : Text) (body : Option Text) (token : Option (Text × Text))
      (s : Session World Store)
      → Report url s (try_token c start m url body token s)
  unfolding try_token
  try_token-Report start m url body none s = request_unauthenticated-Report start m url body s
  try_token-Report start m url body (some (mac, pre)) s =
      Report-after url s (send_with_auth c m url body (record { macaroon = mac; preimage = pre }) s)
        _ (send_with_auth-Quiet m url body (record { macaroon = mac; preimage = pre }) s)
        (λ r. elim (Bool-cases (r.status == payment_required)) [
          | inl e ↦ rw e (
              Report-after url _ (on_store c (c.token_store.remove url) _) _
                (on_store-Quiet (c.token_store.remove url) _)
                (λ u. request_unauthenticated-Report start m url body _))
          | inr e ↦ rw e (
            ne_of_test r.status e,
            inl (record { not_paid = refl; no_receipt = refl; quiet = Quiet-refl }),
          )
        ])

  -- What one `request` reports is what it did. A response never has the status 402. Either it says
  -- that nothing was paid: then it has no receipt, no invoice went to the backend, and the receipts
  -- and the budget's state are unchanged. Or it says that it was paid: then exactly one invoice went
  -- to the backend, and its receipt, for this URL and with the status of the response, is the one
  -- receipt that is appended to the client's. A request that fails leaves the receipts unchanged,
  -- also where it has paid, and has handed at most one invoice to the backend.
  pub request-Report :
      (m : Method) (url : Text) (body : Option Text) (s : Session World Store)
      → Report url s (request c m url body s)
  unfolding request
  request-Report m url body s =
      Report-after url s (on_store c (c.token_store.get url) s) _
        (on_store-Quiet (c.token_store.get url) s)
        (λ token. try_token-Report s.world m url body token _)
