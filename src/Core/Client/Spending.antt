-- ===== src/Core/Client/Spending.antt =====
-- The total limit, over all requests of a client.
use bolt.Core.Budget.Bounds.{Stricter}
use bolt.Core.Budget.Step.{Under, Allowed, check_and_record_cases}
use bolt.Core.Budget.{Limits, limits, BudgetState, effective_budget, record_spending}
use bolt.Core.Client.Extract.{amount_or_zero, invoice_amount_sats}
use bolt.Core.Client.Flow.{on_store, dispatch, push_receipt, charge, pay, purchase, request}
use bolt.Core.Client.Keeps.{Keeps, Keeps-request}
use bolt.Core.Client.{L402Client, Session, Method, Event, sent, paid, new_session}
use bolt.Prelude.{
  ℕ, ◌+◌, ◌≤◌, ◌<◌, ◌≡◌, refl, Option, none, some, List, [], ◌∷◌, Result, ok, err, inl, inr, arith,
  u64_mod, add64,
}
use bolt.Proto.Bolt11.Amount.{max_satoshis, satoshis_bound}
use bolt.Proto.Bolt11.Bounds.{decode_bolt11_amount-lt}
use bolt.Proto.Bolt11.{InvoiceAmount, decode_bolt11_amount}
use bolt.Proto.Challenge.{L402Challenge}
use bolt.Proto.Errors.{L402Error}
use bolt.Proto.Std.{Std}
use bolt.Text.{Text}

-- The decoded amounts of the invoices that were handed to the backend.
abbrev pub paid_sats : Std → List Event → ℕ
paid_sats std [] = 0
paid_sats std (sent r ∷ t) = paid_sats std t
paid_sats std (paid invoice ∷ t) = invoice_amount_sats std invoice + paid_sats std t

pub record Call : Type 0 where
  pub method : Method
  pub url : Text
  pub body : Option Text

-- Requests one after the other; one that fails does not stop the next.
unfoldable pub run :
    {World Store : Type 0}
    → L402Client World Store
    → List Call
    → Session World Store
    → Session World Store
run c [] s = s
run c (x ∷ calls) s = run c calls (request c x.method x.url x.body s).0

pub invoice_amount_sats-le :
    (std : Std) (invoice : Text) → invoice_amount_sats std invoice ≤ max_satoshis
unfolding invoice_amount_sats
invoice_amount_sats-le std invoice = go (decode_bolt11_amount std invoice) refl
  where
    go :
        (r : Result L402Error (Option InvoiceAmount))
        → decode_bolt11_amount std invoice ≡ r
        → amount_or_zero r ≤ max_satoshis
    go (err e) h = omega arith
    go (ok none) h = omega arith
    go (ok (some a)) h = satoshis_bound a (decode_bolt11_amount-lt std invoice h).1

module _ {World Store : Type 0} (c : L402Client World Store) (cap : ℕ) where
  -- What was handed to the backend is covered by the tracker's total, which is within the cap.
  pub record IsCovered (s : Session World Store) : Type 0 where
    pub covered : paid_sats c.std s.trace ≤ s.budget_state.total
    pub capped : s.budget_state.total ≤ cap

  pub total-record_spending :
      (now amount : ℕ) (s : BudgetState)
      → (record_spending now amount s).total ≡ add64 s.total amount
  unfolding record_spending
  total-record_spending now amount s = refl

  module _
      (limit : (d : Option Text)
        → Stricter (limits (effective_budget c.budget d)).total_max (some cap))
      (fits : cap + max_satoshis < u64_mod) where
    -- An accepted payment leaves the total within the cap, and does not wrap around.
    pub Allowed-capped :
        (l : Limits) (now amount : ℕ) (s : BudgetState)
        → Stricter l.total_max (some cap)
        → Allowed l now amount s
        → s.total ≤ cap
        → amount ≤ max_satoshis
        → (add64 s.total amount ≡ s.total + amount) × (s.total + amount ≤ cap)
    Allowed-capped l now amount s st a le small = go l.total_max st a.total
      where
        go :
            (o : Option ℕ)
            → Stricter o (some cap)
            → Under o (add64 s.total amount)
            → (add64 s.total amount ≡ s.total + amount) × (s.total + amount ≤ cap)
        go none h u = absurd h
        go (some n) h u = (omega arith, omega arith)

    purchase-IsCovered : (url : Text) (x : L402Challenge) → Keeps IsCovered (purchase c url x)
    unfolding purchase charge pay
    purchase-IsCovered url x s h =
        let amount = invoice_amount_sats c.std x.invoice in
        let domain = c.env.host_of url in
        let now = c.env.now s.world in
        elim (check_and_record_cases c.budget now amount domain s.budget_state) [
          | inr (n, (reason, e)) ↦ rw (e, charge) h
          | inl (a, e) ↦
              let (exact, le) =
                Allowed-capped (limits (effective_budget c.budget domain)) now amount s.budget_state
                  (limit domain) a h.capped (invoice_amount_sats-le c.std x.invoice) in
              let total = total-record_spending now amount s.budget_state in
              rw (e, charge) (record { covered = omega arith; capped = omega arith })
        ]

    -- A request keeps the payments covered, whatever the servers, the node and the store do.
    request-IsCovered :
        (m : Method) (url : Text) (body : Option Text) → Keeps IsCovered (request c m url body)
    request-IsCovered =
        Keeps-request c IsCovered
          (λ A f s h. unfold on_store in record { covered = h.covered; capped = h.capped })
          (λ r s h. unfold dispatch in record { covered = h.covered; capped = h.capped })
          (λ y. Unit)
          (λ r start url y t g s h.
            unfold push_receipt in record { covered = h.covered; capped = h.capped })
          (λ url x s y e. tt) purchase-IsCovered

    run-IsCovered_from :
        (calls : List Call) (s : Session World Store) → IsCovered s → IsCovered (run c calls s)
    unfolding run
    run-IsCovered_from [] s h = h
    run-IsCovered_from (x ∷ calls) s h =
        run-IsCovered_from calls _ (request-IsCovered x.method x.url x.body s h)

-- A new client whose every budget that can apply, the general one and those of the domains, has a
-- total limit of `cap` or less, where `cap` leaves room below 2^64 for the largest invoice amount:
-- after any requests, whatever the servers, the Lightning node, the clock and the token store do,
-- the decoded amounts of all invoices that were handed to the Lightning backend add up to no more
-- than the total that the client reports, and that is no more than `cap`.
pub run-IsCovered :
    {World Store : Type 0} (c : L402Client World Store) (cap : ℕ) (world : World) (store : Store)
    (calls : List Call)
    → ((d : Option Text) → Stricter (limits (effective_budget c.budget d)).total_max (some cap))
    → cap + max_satoshis < u64_mod
    → IsCovered c cap (run c calls (new_session world store))
run-IsCovered c cap world store calls limit fits =
    run-IsCovered_from c cap limit fits calls (new_session world store)
      (record { covered = omega arith; capped = omega arith })
