-- ===== src/Core/Client/Purchase.antt =====
-- The payment of an invoice, behind the budget.
use bolt.Core.Budget.Step.{Allowed, check_and_record_cases}
use bolt.Core.Budget.{limits, effective_budget, record_spending}
use bolt.Core.Client.Extract.{invoice_amount_sats}
use bolt.Core.Client.Flow.{charge, pay, purchase}
use bolt.Core.Client.{L402Client, Session, paid}
use bolt.Prelude.{◌≡◌, ◌∷◌, ◌⊎◌, inl, inr, err}
use bolt.Proto.Challenge.{L402Challenge}
use bolt.Proto.Errors.{budget_exceeded}
use bolt.Text.{Text}

module _ {World Store : Type 0} (c : L402Client World Store) (url : Text) (x : L402Challenge)
    (s : Session World Store) where
  -- The budget's rule for the decoded amount of the invoice, at the present time.
  abbrev pub Affordable : Type 0
  Affordable =
      Allowed (limits (effective_budget c.budget (c.env.host_of url))) (c.env.now s.world)
        (invoice_amount_sats c.std x.invoice) s.budget_state

  -- The session after the backend was asked.
  abbrev pub charged : Session World Store
  charged = record s {
    world = (c.env.backend.pay_invoice x.invoice c.config.max_fee_sats s.world).0;
    budget_state =
        record_spending (c.env.now s.world) (invoice_amount_sats c.std x.invoice) s.budget_state;
    trace = paid x.invoice ∷ s.trace;
  }

  -- An invoice that the budget allows, by its decoded amount and for the host of the URL, is charged
  -- to the budget and handed to the backend with the configured fee limit, once, and the result is
  -- the backend's, also where the payment fails. An invoice that the budget does not allow is never
  -- handed to the backend: nothing of the session changes, and the error is `BudgetExceeded`.
  pub purchase_cases :
      (Affordable
        × (purchase c url x s
            ≡ (charged, (c.env.backend.pay_invoice x.invoice c.config.max_fee_sats s.world).1)))
      ⊎ ((¬ Affordable)
          × ((reason : Text) × (purchase c url x s ≡ (s, err (budget_exceeded reason)))))
  unfolding purchase charge pay
  purchase_cases =
      elim (check_and_record_cases c.budget (c.env.now s.world)
        (invoice_amount_sats c.std x.invoice) (c.env.host_of url) s.budget_state) [
          | inl (a, e) ↦ inl (a, rw (purchase, charge, e))
          | inr (n, (reason, e)) ↦ inr (n, (reason, rw (purchase, charge, e)))
        ]
