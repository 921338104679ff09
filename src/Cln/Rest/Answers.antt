-- ===== src/Cln/Rest/Answers.antt =====
-- What a payment over REST is taken for.
use bolt.Cln.Rest.{
  ClnJson, ClnRestBackend, PayResponse, of_pay, completed, pay_answer, pay_invoice, pay_request,
  received, msat_or_zero,
}
use bolt.Cln.{transport, api, to_client_error}
use bolt.Prelude.{
  ℕ, ◌+◌, ◌-◌, ◌/◌, ◌≤◌, ◌≡◌, refl, sym, ap, ◌∙◌, max, Option, true, some, none, ok, ◌>>=◌,
  >>=-eq-ok, ok_or, ok_or-eq-ok, map_err, map_err-eq-ok, guard-eq-ok, ok-injective, arith,
  unwrap_or,
}
use bolt.Proto.Port.{PaymentResult}
use bolt.Rest.{RestResponse, checked-eq-ok, is_success, exchange}
use bolt.Text.Equality.{text_eq, text_eq_iff}
use bolt.Text.{Text, codes}

-- A completed payment, as an answer has it: the cost is what was sent, or the amount if that is
-- more, less up to a satoshi for rounding each part down.
pub record IsComplete (response : PayResponse) (p : PaymentResult) : Type 0 where
  pub status : response.status ≡ some (codes "complete")
  pub preimage : response.payment_preimage ≡ some p.preimage
  pub payment_hash : response.payment_hash ≡ some p.payment_hash
  pub amount : p.amount_sats ≡ msat_or_zero response.amount_msat / 1_000
  pub cost_le :
      p.amount_sats + p.fee_sats
      ≤ max (msat_or_zero response.amount_msat) (msat_or_zero response.amount_sent_msat) / 1_000
  pub cost_ge :
      max (msat_or_zero response.amount_msat) (msat_or_zero response.amount_sent_msat) / 1_000
      ≤ p.amount_sats + p.fee_sats + 1

parts_le : (a s : ℕ) → a / 1_000 + (s - a) / 1_000 ≤ max a s / 1_000
parts_le a s = omega arith

parts_ge : (a s : ℕ) → max a s / 1_000 ≤ a / 1_000 + (s - a) / 1_000 + 1
parts_ge a s = omega arith

status_complete :
    (status : Option Text)
    → text_eq (unwrap_or status (codes "unknown")) (codes "complete") ≡ true
    → status ≡ some (codes "complete")
unfolding text_eq
status_complete none h = cc
status_complete (some t) h = ap some ((text_eq_iff t (codes "complete")).0 h)

completed_sound :
    (response : PayResponse) {p : PaymentResult}
    → response.status ≡ some (codes "complete")
    → completed response ≡ ok p
    → IsComplete response p
unfolding completed
completed_sound response {p} c h =
    let a = msat_or_zero response.amount_msat in
    let s = msat_or_zero response.amount_sent_msat in
    let (x, e1, h1) = >>=-eq-ok (ok_or response.payment_preimage _) _ h in
    let (y, e2, h2) = >>=-eq-ok (ok_or response.payment_hash _) _ h1 in
    let same = ok-injective refl h2 in
    let amount = ap (λ (q : PaymentResult). q.amount_sats) same in
    let fee = ap (λ (q : PaymentResult). q.fee_sats) same in
    record {
      status = c;
      preimage =
          ok_or-eq-ok response.payment_preimage _ e1
          ∙ ap (λ (q : PaymentResult). some q.preimage) same;
      payment_hash =
          ok_or-eq-ok response.payment_hash _ e2
          ∙ ap (λ (q : PaymentResult). some q.payment_hash) same;
      amount = sym amount;
      cost_le = omega (arith, parts_le a s, amount, fee);
      cost_ge = omega (arith, parts_ge a s, amount, fee);
    }

of_pay-IsComplete :
    (response : PayResponse) {p : PaymentResult} → of_pay response ≡ ok p → IsComplete response p
unfolding of_pay
of_pay-IsComplete response {p} h =
    let status = unwrap_or response.status (codes "unknown") in
    let (t, done) = guard-eq-ok (text_eq status (codes "complete")) (completed response) _ h in
    completed_sound response (status_complete response.status t) done

-- What a payment that succeeded was answered with.
pub record IsPaid (json : ClnJson) (p : PaymentResult) (r : RestResponse) : Type 0 where
  pub body : Text
  pub response : PayResponse
  pub success : is_success r.status ≡ true
  pub body_read : r.bytes ≡ ok body
  pub parsed : json.parse_pay body ≡ ok response
  pub is_complete : IsComplete response p

-- A payment that is reported as made was answered with a status of 2xx and a body that says
-- `complete`: the preimage and the payment hash are the body's own, the amount is what was asked for
-- in whole satoshis, and the amount and the fee together are what was sent, or the amount if that is
-- more, in whole satoshis and less one at most.
pub pay_invoice-IsPaid :
    {Node : Type 0} (json : ClnJson) (b : ClnRestBackend Node) (bolt11 : Text) (max_fee_sats : ℕ)
    (node : Node) {p : PaymentResult}
    → (pay_invoice json b bolt11 max_fee_sats node).1 ≡ ok p
    → (r : RestResponse) × ((b.client.send (pay_request json b bolt11 max_fee_sats) node).1 ≡ ok r)
      × IsPaid json p r
unfolding pay_invoice pay_answer exchange
pay_invoice-IsPaid json b bolt11 max_fee_sats node {p} h =
    let sent = (b.client.send (pay_request json b bolt11 max_fee_sats) node).1 in
    let (r, e1, h1) = >>=-eq-ok (received sent) _ (map_err-eq-ok to_client_error _ h) in
    let (response, e2, h2) = >>=-eq-ok (map_err _ (r.bytes >>= json.parse_pay)) _ h1 in
    let (body, e3, parsed) = >>=-eq-ok r.bytes json.parse_pay (map_err-eq-ok _ _ e2) in
    let (same, success) = checked-eq-ok transport api sent e1 in
    (
      r,
      same,
      record {
        body = body;
        response = response;
        success = success;
        body_read = e3;
        parsed = parsed;
        is_complete = of_pay-IsComplete response h2;
      },
    )
