-- ===== src/Core/Budget/History.antt =====
-- The tracker against an ideal ledger that keeps every payment: totals by hour and by day of the clock
-- (from a multiple of 3600 or 86400 seconds to the next) are sums over the ledger. The tracker drops old windows, and this is never seen while the clock does not
-- run backwards.
use bolt.Core.Budget.Step.{Under, Allowed, check_and_record_cases}
use bolt.Core.Budget.{
  Budget, Limits, limits, BudgetState, effective_budget, add_entry, check_and_record,
  record_spending, spent_at,
}
use bolt.HashMap
use bolt.HashMap.Laws.{get-insert, get-retain}
use bolt.HashMap.{HashMap}
use bolt.Prelude.{
  ℕ, ◌+◌, ◌-◌, ◌/◌, ◌≤◌, ◌<◌, ◌≡◌, ◌⊎◌, inl, inr, Option, List, [], ◌∷◌, add64, u64_mod, ok, err,
  arith, leb, ◌==◌, if◌then◌else◌, subst, sym,
}
use bolt.Proto.Errors.{budget_exceeded}
use bolt.Text.{Text}

-- One payment: the clock in seconds, and the satoshis.
pub record Spend : Type 0 where
  pub at : ℕ
  pub amount : ℕ

abbrev pub sum : List Spend → ℕ
sum [] = 0
sum (x ∷ h) = x.amount + sum h

-- What was spent in window `k`, with windows of `size` seconds.
abbrev pub spent_in : ℕ → ℕ → List Spend → ℕ
spent_in size k [] = 0
spent_in size k (x ∷ h) = (if x.at / size == k then x.amount else 0) + spent_in size k h

pub spent_in-le-sum : (size k : ℕ) (h : List Spend) → spent_in size k h ≤ sum h
spent_in-le-sum size k [] = omega arith
spent_in-le-sum size k (x ∷ h) = ground (arith, spent_in-le-sum size k h)

-- The ledger's own rule for a payment.
pub record Permits (l : Limits) (now amount : ℕ) (h : List Spend) : Type 0 where
  pub request : Under l.per_request_max amount
  pub hour : Under l.hourly_max (spent_in 3600 (now / 3600) h + amount)
  pub day : Under l.daily_max (spent_in 86400 (now / 86400) h + amount)
  pub total : Under l.total_max (sum h + amount)

-- The tracker's state stands for the ledger at time `now`.
pub record Tracks (now : ℕ) (h : List Spend) (s : BudgetState) : Type 0 where
  pub total : s.total ≡ sum h
  pub hours : (k : ℕ) → now / 3600 - 48 ≤ k → spent_at k s.hourly ≡ spent_in 3600 k h
  pub days : (k : ℕ) → now / 86400 - 2 ≤ k → spent_at k s.daily ≡ spent_in 86400 k h

spent_at-record :
    (cutoff k a : ℕ) (m : HashMap ℕ ℕ) (j : ℕ)
    → cutoff ≤ j
    → spent_at j (HashMap.retain (leb cutoff) (add_entry k a m))
      ≡ (if k == j then add64 (spent_at k m) a else spent_at j m)
unfolding add_entry
spent_at-record cutoff k a m j h = rw get-retain (rw get-insert (ground arith))

-- One window of the state, after a payment.
window-Tracks :
    (size back now amount : ℕ) (h : List Spend) (m : HashMap ℕ ℕ) (k : ℕ)
    → ((j : ℕ) → now / size - back ≤ j → spent_at j m ≡ spent_in size j h)
    → sum h + amount < u64_mod
    → now / size - back ≤ k
    → spent_at k (HashMap.retain (leb (now / size - back)) (add_entry (now / size) amount m))
      ≡ spent_in size k (record { at = now; amount = amount } ∷ h)
window-Tracks size back now amount h m k t small old =
    rw (spent_at-record (now / size - back) (now / size) amount m k old)
      (ground (arith, t (now / size) (omega arith), t k old, spent_in-le-sum size (now / size) h))

later-Tracks :
    {now later : ℕ} {h : List Spend} {s : BudgetState}
    → Tracks now h s
    → now ≤ later
    → Tracks later h s
later-Tracks t le = record {
  total = t.total;
  hours = λ k o. t.hours k (omega arith);
  days = λ k o. t.days k (omega arith);
}

record_spending-Tracks :
    (now amount : ℕ) {h : List Spend} {s : BudgetState}
    → Tracks now h s
    → sum h + amount < u64_mod
    → Tracks now (record { at = now; amount = amount } ∷ h) (record_spending now amount s)
unfolding record_spending
record_spending-Tracks now amount {h} {s} t small = record {
  total = rw t.total (omega arith);
  hours = λ k old. window-Tracks 3600 48 now amount h s.hourly k t.hours small old;
  days = λ k old. window-Tracks 86400 2 now amount h s.daily k t.days small old;
}

Under-subst : (m : Option ℕ) {a b : ℕ} → a ≡ b → Under m a → Under m b
Under-subst m e = subst (Under m) e

-- While the sums fit in a `u64`, the tracker's test is the ledger's.
add64-Tracks : (a b c n : ℕ) → a ≡ b → b ≤ n → n + c < u64_mod → add64 a c ≡ b + c
add64-Tracks a b c n e le small = omega arith

pub Allowed-Permits :
    (l : Limits) (now amount : ℕ) {h : List Spend} {s : BudgetState}
    → Tracks now h s
    → sum h + amount < u64_mod
    → (Allowed l now amount s → Permits l now amount h)
      × (Permits l now amount h → Allowed l now amount s)
Allowed-Permits l now amount {h} {s} t small =
    let hour =
      add64-Tracks _ _ amount (sum h) (t.hours (now / 3600) (omega arith))
        (spent_in-le-sum 3600 (now / 3600) h) small in
    let day =
      add64-Tracks _ _ amount (sum h) (t.days (now / 86400) (omega arith))
        (spent_in-le-sum 86400 (now / 86400) h) small in
    let total = add64-Tracks _ _ amount (sum h) t.total (omega arith) small in
    (
      λ a. record {
        request = a.request;
        hour = Under-subst l.hourly_max hour a.hour;
        day = Under-subst l.daily_max day a.day;
        total = Under-subst l.total_max total a.total;
      },
      λ p. record {
        request = p.request;
        hour = Under-subst l.hourly_max (sym hour) p.hour;
        day = Under-subst l.daily_max (sym day) p.day;
        total = Under-subst l.total_max (sym total) p.total;
      },
    )

-- A state that stands for a ledger, a clock that has not run backwards, and sums that fit in a
-- `u64`: the call succeeds exactly when the ledger permits the payment under the budget that
-- applies, with what was spent in the present hour and day of the clock, and the new state stands for the ledger with the payment; otherwise it fails with
-- `BudgetExceeded`, and the state still stands for the old ledger.
pub check_and_record-Permits :
    (b : Budget) (before now amount : ℕ) (domain : Option Text) {h : List Spend} {s : BudgetState}
    → Tracks before h s
    → before ≤ now
    → sum h + amount < u64_mod
    → (Permits (limits (effective_budget b domain)) now amount h
        × ((s' : BudgetState) × (check_and_record b now amount domain s ≡ (s', ok tt))
            × Tracks now (record { at = now; amount = amount } ∷ h) s'))
      ⊎ ((¬ Permits (limits (effective_budget b domain)) now amount h)
          × ((reason : Text) × (check_and_record b now amount domain s
                ≡ (s, err (budget_exceeded reason)))
              × Tracks now h s))
check_and_record-Permits b before now amount domain {h} {s} t le small =
    let t' = later-Tracks t le in
    let same = Allowed-Permits (limits (effective_budget b domain)) now amount t' small in
    elim (check_and_record_cases b now amount domain s) [
      | inl (a, e) ↦
          inl (
            same.0 a,
            (record_spending now amount s, e, record_spending-Tracks now amount t' small),
          )
      | inr (n, (reason, e)) ↦ inr (λ p. n (same.1 p), (reason, e, t'))
    ]
