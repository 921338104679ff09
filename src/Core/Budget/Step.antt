-- ===== src/Core/Budget/Step.antt =====
-- One call of `check_and_record`, on every branch.
use bolt.Core.Budget.{
  Budget, Limits, limits, BudgetState, effective_budget, check_request, check_window, check_windows,
  check_and_record, record_spending, spent_at, per_request_reason, window_reason,
}
use bolt.Prelude.{
  ℕ, ◌/◌, ◌≤◌, ◌≡◌, refl, ◌⊎◌, inl, inr, Option, none, some, add64, Result, ok, err, ◌>>◌, arith,
  ltb, Bool-cases, ltb→lt,
}
use bolt.Proto.Errors.{ClientError, budget_exceeded}
use bolt.Text.{Text, text}

-- The value respects the limit, if there is one.
abbrev pub Under : Option ℕ → ℕ → Type 0
Under none n = Unit
Under (some max) n = n ≤ max

-- What the call asks for, from the four limits and what is recorded for the hour, the day and the
-- whole life of the tracker.
pub record Allowed (l : Limits) (now amount : ℕ) (s : BudgetState) : Type 0 where
  pub request : Under l.per_request_max amount
  pub hour : Under l.hourly_max (add64 (spent_at (now / 3600) s.hourly) amount)
  pub day : Under l.daily_max (add64 (spent_at (now / 86400) s.daily) amount)
  pub total : Under l.total_max (add64 s.total amount)

-- A test passes and the limit holds, or it fails with a reason and the limit is broken.
abbrev Verdict : Result ClientError (Unit {0}) → Type 0 → Type 0
Verdict r P = ((r ≡ ok tt) × P) ⊎ ((reason : Text) × (r ≡ err (budget_exceeded reason)) × ¬ P)

check_request-Verdict :
    (m : Option ℕ) (amount : ℕ) → Verdict (check_request m amount) (Under m amount)
unfolding check_request
check_request-Verdict none amount = inl (refl, tt)
check_request-Verdict (some max) amount = elim (Bool-cases (ltb max amount)) [
  | inl over ↦
      inr (per_request_reason amount max, rw over, λ u. let h = ltb→lt _ _ over in omega arith)
  | inr under ↦ inl (rw under, ground arith)
]

check_window-Verdict :
    (window : Text) (m : Option ℕ) (spent amount : ℕ)
    → Verdict (check_window window m spent amount) (Under m (add64 spent amount))
unfolding check_window
check_window-Verdict window none spent amount = inl (refl, tt)
check_window-Verdict window (some max) spent amount =
    elim (Bool-cases (ltb max (add64 spent amount))) [
      | inl over ↦ inr (
        window_reason window spent amount max,
        rw over,
        λ u. let h = ltb→lt _ _ over in omega arith,
      )
      | inr under ↦ inl (rw under, ground arith)
    ]

check_windows-Verdict :
    (l : Limits) (now amount : ℕ) (s : BudgetState)
    → Verdict
        (check_request l.per_request_max amount >> check_windows l now amount s)
        (Allowed l now amount s)
unfolding check_windows
check_windows-Verdict l now amount s = elim (check_request-Verdict l.per_request_max amount) [
  | inr (r, e, n) ↦ inr (r, rw e, λ a. n a.request)
  | inl (e, p) ↦
      rw e
        (elim (check_window-Verdict (text "hourly") l.hourly_max (spent_at (now / 3600) s.hourly)
          amount) [
            | inr (r, f, n) ↦ inr (r, rw f, λ a. n a.hour)
            | inl (f, q) ↦
                rw f
                  (elim (check_window-Verdict (text "daily") l.daily_max
                    (spent_at (now / 86400) s.daily) amount) [
                      | inr (r, g, n) ↦ inr (r, rw g, λ a. n a.day)
                      | inl (g, t) ↦
                          rw g
                            (elim (check_window-Verdict (text "total") l.total_max s.total amount) [
                              | inr (r, h, n) ↦ inr (r, h, λ a. n a.total)
                              | inl (h, u) ↦
                                  inl (h, record { request = p; hour = q; day = t; total = u })
                            ])
                    ])
          ])
]

-- With the limits of the budget that applies to the domain: either the payment is allowed, and
-- the call succeeds and records it, or it is not allowed, and the call fails with `BudgetExceeded`
-- and leaves the state as it was.
pub check_and_record_cases :
    (b : Budget) (now amount : ℕ) (domain : Option Text) (s : BudgetState)
    → (Allowed (limits (effective_budget b domain)) now amount s
        × (check_and_record b now amount domain s ≡ (record_spending now amount s, ok tt)))
      ⊎ ((¬ Allowed (limits (effective_budget b domain)) now amount s)
          × ((reason : Text) × (check_and_record b now amount domain s
                ≡ (s, err (budget_exceeded reason)))))
unfolding check_and_record
check_and_record_cases b now amount domain s =
    elim (check_windows-Verdict (limits (effective_budget b domain)) now amount s) [
      | inl (e, a) ↦ inl (a, rw (check_and_record, e))
      | inr (r, e, n) ↦ inr (n, (r, rw (check_and_record, e)))
    ]
