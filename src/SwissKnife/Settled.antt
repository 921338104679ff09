-- ===== src/SwissKnife/Settled.antt =====
-- What a payment is taken for.
use bolt.Prelude.{
  ℕ, ◌/◌, ◌≡◌, refl, sym, ap, ◌∙◌, ◌↔◌, true, Option, some, [], Result, ok, err, ◌>>=◌, >>=-eq-ok,
  ok_or, ok_or-eq-ok, map_err, map_err-eq-ok, if-eq-ok, ok-injective, err-ne-ok, unwrap_or,
}
use bolt.Proto.Port.{PaymentResult}
use bolt.Rest.{RestResponse, is_success, exchange}
use bolt.SwissKnife.{
  SwissKnifeJson, SwissKnifeBackend, PaymentStatus, settled, pending, failed, unknown,
  PaymentResponse, of_status, of_payment, received, pay_answer, pay_request, pay_invoice,
  to_client_error, http,
}
use bolt.Text.{Text}

-- A settled payment, as an answer has it.
pub record IsSettled (answer : PaymentResponse) (p : PaymentResult) : Type 0 where
  pub status : answer.status ≡ settled
  pub preimage : answer.payment_preimage ≡ some p.preimage
  pub payment_hash : p.payment_hash ≡ unwrap_or answer.payment_hash []
  pub amount : p.amount_sats ≡ answer.amount_msat / 1_000
  pub fee : p.fee_sats ≡ unwrap_or answer.fee_msat 0 / 1_000

of_status-eq-ok :
    (status : PaymentStatus) (error : Option Text) {u : Unit {0}}
    → of_status status error ≡ ok u
    → status ≡ settled
unfolding of_status
of_status-eq-ok settled error h = refl
of_status-eq-ok pending error h = absurd (err-ne-ok h)
of_status-eq-ok failed error h = absurd (err-ne-ok h)
of_status-eq-ok unknown error h = absurd (err-ne-ok h)

of_payment_sound :
    (answer : PaymentResponse) {p : PaymentResult} → of_payment answer ≡ ok p → IsSettled answer p
unfolding of_payment
of_payment_sound answer {p} h =
    let (u, e, h1) = >>=-eq-ok (of_status answer.status answer.error) _ h in
    let (x, e1, h2) = >>=-eq-ok (ok_or answer.payment_preimage _) _ h1 in
    let same = ok-injective refl h2 in
    record {
      status = of_status-eq-ok answer.status answer.error e;
      preimage =
          ok_or-eq-ok answer.payment_preimage _ e1
          ∙ ap (λ (q : PaymentResult). some q.preimage) same;
      payment_hash = ap (λ (q : PaymentResult). q.payment_hash) (sym same);
      amount = ap (λ (q : PaymentResult). q.amount_sats) (sym same);
      fee = ap (λ (q : PaymentResult). q.fee_sats) (sym same);
    }

of_payment-IsSettled :
    (answer : PaymentResponse) (p : PaymentResult) → IsSettled answer p → of_payment answer ≡ ok p
unfolding of_payment of_status
of_payment-IsSettled answer p h =
    rw (h.status, h.preimage, sym h.payment_hash, sym h.amount, sym h.fee) refl

-- An answer of status 2xx whose body says that the payment is settled.
pub record IsPaid (json : SwissKnifeJson) (r : RestResponse) (p : PaymentResult) : Type 0 where
  pub body : Text
  pub answer : PaymentResponse
  pub success : is_success r.status ≡ true
  pub body_read : r.bytes ≡ ok body
  pub parsed : json.parse_payment body ≡ ok answer
  pub is_settled : IsSettled answer p

received-eq-ok :
    (json : SwissKnifeJson) (r : Result Text RestResponse) {x : RestResponse}
    → received json r ≡ ok x
    → (r ≡ ok x) × (is_success x.status ≡ true)
unfolding received
received-eq-ok json (err e) h = absurd (err-ne-ok h)
received-eq-ok json (ok r) h =
    let (t, same) = if-eq-ok (is_success r.status) _ h in
    (ap ok same, ap (λ (x : RestResponse). is_success x.status) (sym same) ∙ t)

module _ {Node : Type 0} (json : SwissKnifeJson) (b : SwissKnifeBackend Node) (bolt11 : Text)
    (max_fee_sats : ℕ) (node : Node) where
  abbrev pub reply : Result Text RestResponse
  reply = (b.client.send (pay_request json b bolt11) node).1

  pay_invoice_sound :
      {p : PaymentResult}
      → (pay_invoice json b bolt11 max_fee_sats node).1 ≡ ok p
      → (r : RestResponse) × (reply ≡ ok r) × IsPaid json r p
  unfolding pay_invoice pay_answer exchange
  pay_invoice_sound {p} h =
      let (r, e1, h1) = >>=-eq-ok (received json reply) _ (map_err-eq-ok to_client_error _ h) in
      let (answer, e2, h2) = >>=-eq-ok (map_err http (r.bytes >>= json.parse_payment)) _ h1 in
      let (body, e3, parsed) = >>=-eq-ok r.bytes json.parse_payment (map_err-eq-ok http _ e2) in
      let (same, success) = received-eq-ok json reply e1 in
      (
        r,
        same,
        record {
          body = body;
          answer = answer;
          success = success;
          body_read = e3;
          parsed = parsed;
          is_settled = of_payment_sound answer h2;
        },
      )

  pay_invoice-IsPaid_lem :
      (p : PaymentResult) (r : RestResponse)
      → reply ≡ ok r
      → IsPaid json r p
      → (pay_invoice json b bolt11 max_fee_sats node).1 ≡ ok p
  unfolding pay_invoice pay_answer exchange received
  pay_invoice-IsPaid_lem p r e h =
      rw (e, h.success, h.body_read, h.parsed, of_payment-IsSettled h.answer p h.is_settled) refl

  -- A payment is reported as made exactly where the wallet answers with a status of 2xx and a body
  -- that says `Settled` and has the preimage; the amount and the fee are the body's, in whole
  -- satoshis, and neither the answer that is asked for nor the result depends on the fee limit.
  pub pay_invoice_iff :
      (p : PaymentResult)
      → ((pay_invoice json b bolt11 max_fee_sats node).1 ≡ ok p)
        ↔ ((r : RestResponse) × (reply ≡ ok r) × IsPaid json r p)
  pay_invoice_iff p = (pay_invoice_sound, λ h. pay_invoice-IsPaid_lem p h.0 h.1 h.2)
