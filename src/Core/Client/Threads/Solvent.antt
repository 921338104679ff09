-- ===== src/Core/Client/Threads/Solvent.antt =====
-- What one request owes, among others that run at the same time: what it has charged and not yet
-- handed to the backend.
use bolt.Core.Budget.Bounds.{Stricter}
use bolt.Core.Budget.Step.{check_and_record_cases}
use bolt.Core.Budget.{limits, effective_budget}
use bolt.Core.Client.Extract.{extract_challenge, invoice_amount_sats}
use bolt.Core.Client.Flow.{
  Step, on_store, dispatch, send_request, send_with_auth, charge, pay, push_receipt,
  payment_required,
}
use bolt.Core.Client.Spending.{
  paid_sats, invoice_amount_sats-le, Allowed-capped, total-record_spending,
}
use bolt.Core.Client.Threads.{
  Thread, done, next, resume, and_then, conclude_thread, settle_thread, unauthenticated_thread,
  token_thread, request_thread,
}
use bolt.Core.Client.{L402Client, Session, Method, HttpRequest, HttpResponse, L402Response}
use bolt.Core.Receipt.{Receipt}
use bolt.Prelude.{
  ℕ, ◌+◌, ◌≤◌, ◌<◌, Bool, true, false, Option, none, some, ◌==◌, if◌then◌else◌, Result, ok, err,
  inl, inr, arith, u64_mod, Option-cases,
}
use bolt.Proto.Bolt11.Amount.{max_satoshis}
use bolt.Proto.Challenge.{L402Challenge}
use bolt.Proto.Errors.{ClientError}
use bolt.Proto.Port.{PaymentResult}
use bolt.Proto.Token.{L402Token, to_header_value}
use bolt.Text.{Text}

module _ {World Store : Type 0} (c : L402Client World Store) (cap : ℕ) where
  -- The total has room for what was paid and for `owed` more, which was charged already.
  pub record Funded (s : Session World Store) (owed : ℕ) : Type 0 where
    pub paid : paid_sats c.std s.trace + owed ≤ s.budget_state.total
    pub capped : s.budget_state.total ≤ cap

  -- A thread for which `owed` is charged pays no more than it charges, whatever the others owe.
  unfoldable pub Solvent : Thread World Store → ℕ → Type 0
  Solvent (done r) owed = Unit
  Solvent (next f k) owed =
      (s : Session World Store) (others : ℕ)
      → Funded s (owed + others)
      → (rest : ℕ) × Funded (f s) (rest + others) × Solvent (k s) rest

  -- A step after which nothing else is paid, charged or owed.
  unfoldable IsInert : {A : Type 0} → Step World Store A → Type 0
  IsInert m = (s : Session World Store) (owed : ℕ) → Funded s owed → Funded (m s).0 owed

  Solvent-done : (r : Result ClientError L402Response) (owed : ℕ) → Solvent (done r) owed
  unfolding Solvent
  Solvent-done r owed = tt

  Solvent-resume :
      {A : Type 0} (r : Result ClientError A) (k : A → Thread World Store) (owed : ℕ)
      → ((a : A) → Solvent (k a) owed)
      → Solvent (resume r k) owed
  unfolding Solvent resume
  Solvent-resume (ok a) k owed h = h a
  Solvent-resume (err e) k owed h = tt

  Solvent-if :
      (b : Bool) (t u : Thread World Store) (owed : ℕ)
      → Solvent t owed
      → Solvent u owed
      → Solvent (if b then t else u) owed
  Solvent-if true t u owed ht hu = ht
  Solvent-if false t u owed ht hu = hu

  Solvent-and_then :
      {A : Type 0} (m : Step World Store A) (k : A → Thread World Store) (owed : ℕ)
      → IsInert m
      → ((a : A) → Solvent (k a) owed)
      → Solvent (and_then m k) owed
  unfolding Solvent and_then IsInert
  Solvent-and_then m k owed i h s others f =
      (owed, i s (owed + others) f, Solvent-resume (m s).1 k owed h)

  on_store-IsInert :
      {A : Type 0} (f : Store → Store × Result ClientError A) → IsInert (on_store c f)
  unfolding on_store IsInert
  on_store-IsInert f s owed h = record { paid = h.paid; capped = h.capped }

  dispatch-IsInert : (r : HttpRequest) → IsInert (dispatch c r)
  unfolding dispatch IsInert
  dispatch-IsInert r s owed h = record { paid = h.paid; capped = h.capped }

  send_with_auth-IsInert :
      (m : Method) (url : Text) (body : Option Text) (t : L402Token)
      → IsInert (send_with_auth c m url body t)
  unfolding send_with_auth IsInert
  send_with_auth-IsInert m url body t s owed h =
      elim (Option-cases (c.env.header_error (to_header_value t))) [
        | inl e ↦ rw (send_with_auth, e) (dispatch-IsInert _ s owed h)
        | inr (x, e) ↦ rw (send_with_auth, e) h
      ]

  push_receipt-IsInert : (r : HttpResponse) (x : Receipt) → IsInert (push_receipt c r x)
  unfolding push_receipt IsInert
  push_receipt-IsInert r x s owed h = record { paid = h.paid; capped = h.capped }

  read-IsInert : {A : Type 0} (f : Session World Store → A) → IsInert (λ s. (s, ok (f s)))
  unfolding IsInert
  read-IsInert f s owed h = h

  -- The backend is handed what was charged for it.
  Solvent-pay :
      (invoice : Text) (k : PaymentResult → Thread World Store)
      → ((y : PaymentResult) → Solvent (k y) 0)
      → Solvent (and_then (pay c invoice) k) (invoice_amount_sats c.std invoice)
  unfolding Solvent and_then pay
  Solvent-pay invoice k h s others f =
      let r = c.env.backend.pay_invoice invoice c.config.max_fee_sats s.world in
      (0, record { paid = omega (arith, f.paid); capped = f.capped }, Solvent-resume r.1 k 0 h)

  Solvent-conclude :
      (begin : World) (url : Text) (y : PaymentResult) (r : HttpResponse)
      → Solvent (conclude_thread c begin url y r) 0
  unfolding conclude_thread
  Solvent-conclude begin url y r =
      Solvent-if (r.status == payment_required) _ _ 0
        (Solvent-and_then (on_store c _) _ 0 (on_store-IsInert _) (λ u. Solvent-done _ 0))
        (Solvent-and_then _ _ 0 (read-IsInert _) (λ x.
          Solvent-and_then (push_receipt c r x) _ 0 (push_receipt-IsInert r x)
            (λ z. Solvent-done _ 0)))

  module _
      (limit : (d : Option Text)
        → Stricter (limits (effective_budget c.budget d)).total_max (some cap))
      (fits : cap + max_satoshis < u64_mod) where
    -- What the budget accepts is charged; what it refuses is not.
    Solvent-charge :
        (invoice : Text) (domain : Option Text) (k : Unit {0} → Thread World Store)
        → ((u : Unit {0}) → Solvent (k u) (invoice_amount_sats c.std invoice))
        → Solvent (and_then (charge c (invoice_amount_sats c.std invoice) domain) k) 0
    unfolding Solvent and_then charge resume
    Solvent-charge invoice domain k h s others f =
        let amount = invoice_amount_sats c.std invoice in
        let now = c.env.now s.world in
        elim (check_and_record_cases c.budget now amount domain s.budget_state) [
          | inr (n, (reason, e)) ↦ (0, rw e f, rw e tt)
          | inl (a, e) ↦
              let (exact, le) =
                Allowed-capped c cap limit fits (limits (effective_budget c.budget domain)) now
                  amount s.budget_state (limit domain) a f.capped
                  (invoice_amount_sats-le c.std invoice) in
              let total = total-record_spending c cap now amount s.budget_state in
              (
                amount,
                rw e (record { paid = omega (arith, f.paid); capped = omega arith }),
                rw e (h tt),
              )
        ]

    Solvent-settle :
        (begin : World) (m : Method) (url : Text) (body : Option Text) (x : L402Challenge)
        → Solvent (settle_thread c begin m url body x) 0
    unfolding settle_thread
    Solvent-settle begin m url body x = Solvent-charge x.invoice (c.env.host_of url) _ (λ u.
        Solvent-pay x.invoice _ (λ y. Solvent-and_then (on_store c _) _ 0 (on_store-IsInert _) (λ v.
          Solvent-and_then (send_with_auth c m url body _) _ 0 (send_with_auth-IsInert m url body _)
            (λ r. Solvent-conclude begin url y r))))

    Solvent-unauthenticated :
        (begin : World) (m : Method) (url : Text) (body : Option Text)
        → Solvent (unauthenticated_thread c begin m url body) 0
    unfolding unauthenticated_thread send_request
    Solvent-unauthenticated begin m url body =
        Solvent-and_then (dispatch c _) _ 0 (dispatch-IsInert _) (λ r.
          Solvent-if (r.status == payment_required) _ _ 0
            (Solvent-resume (extract_challenge c.std c.base64 r) _ 0
              (λ x. Solvent-settle begin m url body x))
            (Solvent-done _ 0))

    Solvent-token :
        (begin : World) (m : Method) (url : Text) (body : Option Text) (o : Option (Text × Text))
        → Solvent (token_thread c begin m url body o) 0
    unfolding token_thread
    Solvent-token begin m url body none = Solvent-unauthenticated begin m url body
    Solvent-token begin m url body (some (macaroon, preimage)) =
        Solvent-and_then (send_with_auth c m url body _) _ 0 (send_with_auth-IsInert m url body _)
          (λ r.
            Solvent-if (r.status == payment_required) _ _ 0
              (Solvent-and_then (on_store c _) _ 0 (on_store-IsInert _)
                (λ u. Solvent-unauthenticated begin m url body))
              (Solvent-done _ 0))

    pub Solvent-request :
        (m : Method) (url : Text) (body : Option Text) → Solvent (request_thread c m url body) 0
    unfolding request_thread
    Solvent-request m url body = Solvent-and_then _ _ 0 (read-IsInert _) (λ begin.
        Solvent-and_then (on_store c _) _ 0 (on_store-IsInert _)
          (λ o. Solvent-token begin m url body o))
