-- ===== src/Core/Budget/Bounds.antt =====
-- Any sequence of calls on one tracker keeps every limit, in every hour and every day of the clock.
use bolt.Core.Budget.History.{Spend, sum, spent_in, Permits, Tracks, check_and_record-Permits}
use bolt.Core.Budget.Step.{Under}
use bolt.Core.Budget.{
  Budget, Limits, limits, BudgetState, effective_budget, check_and_record, new_state,
}
use bolt.HashMap
use bolt.Prelude.{
  ℕ, ◌+◌, ◌*◌, ◌/◌, ◌≤◌, ◌&&◌, leb, ltb, if◌then◌else◌, ◌<◌, ◌≡◌, refl, inl, inr, Option, none,
  some, List, [], ◌∷◌, u64_mod, Result, ok, err, arith, All, ◌==◌, Bool-cases,
}
use bolt.Proto.Errors.{ClientError}
use bolt.Text.{Text}

-- A call of `check_and_record`, with the clock's reading.
pub record Call : Type 0 where
  pub at : ℕ
  pub amount : ℕ
  pub domain : Option Text

abbrev pub note : Result ClientError (Unit {0}) → Call → List Spend → List Spend
note (ok u) c h = record { at = c.at; amount = c.amount } ∷ h
note (err e) c h = h

-- The final state, and what was accepted, the latest first.
unfoldable pub run : Budget → List Call → BudgetState → List Spend → BudgetState × List Spend
run b [] s h = (s, h)
run b (c ∷ cs) s h =
    let r = check_and_record b c.at c.amount c.domain s in run b cs r.0 (note r.1 c h)

abbrev pub requested : List Call → ℕ
requested [] = 0
requested (c ∷ cs) = c.amount + requested cs

-- The clock does not run backwards.
abbrev pub IsMonotone : ℕ → List Call → Type 0
IsMonotone now [] = Unit
IsMonotone now (c ∷ cs) = (now ≤ c.at) × IsMonotone c.at cs

-- The first limit is at least as strict as the second.
abbrev pub Stricter : Option ℕ → Option ℕ → Type 0
Stricter m none = Unit
Stricter none (some n) = ⊥
Stricter (some m) (some n) = m ≤ n

-- Every budget that can apply is at least as strict as `l`.
pub record Caps (b : Budget) (l : Limits) : Type 0 where
  pub request :
      (d : Option Text) → Stricter (limits (effective_budget b d)).per_request_max l.per_request_max
  pub hour : (d : Option Text) → Stricter (limits (effective_budget b d)).hourly_max l.hourly_max
  pub day : (d : Option Text) → Stricter (limits (effective_budget b d)).daily_max l.daily_max
  pub total : (d : Option Text) → Stricter (limits (effective_budget b d)).total_max l.total_max

-- The ledger is within the limits.
pub record Within (l : Limits) (h : List Spend) : Type 0 where
  pub request : All (λ x. Under l.per_request_max x.amount) h
  pub hour : (k : ℕ) → Under l.hourly_max (spent_in 3600 k h)
  pub day : (k : ℕ) → Under l.daily_max (spent_in 86400 k h)
  pub total : Under l.total_max (sum h)

Under-Stricter : (m n : Option ℕ) (a b : ℕ) → Stricter m n → b ≤ a → Under m a → Under n b
Under-Stricter m none a b s le u = tt
Under-Stricter none (some n) a b s le u = absurd s
Under-Stricter (some m) (some n) a b s le u = omega arith

-- A window gets the payment, or stays as it was.
window-Under :
    (m n : Option ℕ) (size now amount : ℕ) (h : List Spend) (k : ℕ)
    → Stricter m n
    → Under m (spent_in size (now / size) h + amount)
    → Under n (spent_in size k h)
    → Under n (spent_in size k (record { at = now; amount = amount } ∷ h))
window-Under m n size now amount h k s new old = elim (Bool-cases (now / size == k)) [
  | inl e ↦ Under-Stricter m n (spent_in size (now / size) h + amount) _ s (ground arith) new
  | inr e ↦ rw e (Under-Stricter n n (spent_in size k h) _ (same n) (omega arith) old)
]
  where
    same : (o : Option ℕ) → Stricter o o
    same none = tt
    same (some x) = omega arith

Permits-Within :
    (b : Budget) (l : Limits) (d : Option Text) (now amount : ℕ) (h : List Spend)
    → Caps b l
    → Permits (limits (effective_budget b d)) now amount h
    → Within l h
    → Within l (record { at = now; amount = amount } ∷ h)
Permits-Within b l d now amount h c p w = record {
  request = (
    Under-Stricter _ l.per_request_max amount amount (c.request d) (omega arith) p.request,
    w.request,
  );
  hour = λ k. window-Under _ l.hourly_max 3600 now amount h k (c.hour d) p.hour (w.hour k);
  day = λ k. window-Under _ l.daily_max 86400 now amount h k (c.day d) p.day (w.day k);
  total = Under-Stricter _ l.total_max (sum h + amount) _ (c.total d) (omega arith) p.total;
}

-- What was spent in the `size` seconds that start at `from`.
abbrev pub spent_between : ℕ → ℕ → List Spend → ℕ
spent_between from size [] = 0
spent_between from size (x ∷ h) =
    (if leb from x.at && ltb x.at (from + size) then x.amount else 0) + spent_between from size h

-- Such a stretch of time lies in two windows.
spent_between-hour :
    (from : ℕ) (h : List Spend)
    → spent_between from 3600 h ≤ spent_in 3600 (from / 3600) h + spent_in 3600 (from / 3600 + 1) h
spent_between-hour from [] = omega arith
spent_between-hour from (x ∷ h) = ground (arith, spent_between-hour from h)

spent_between-day :
    (from : ℕ) (h : List Spend)
    → spent_between from 86400 h
      ≤ spent_in 86400 (from / 86400) h + spent_in 86400 (from / 86400 + 1) h
spent_between-day from [] = omega arith
spent_between-day from (x ∷ h) = ground (arith, spent_between-day from h)

abbrev pub twice : Option ℕ → Option ℕ
twice none = none
twice (some n) = some (2 * n)

Under-twice :
    (m : Option ℕ) (a b : ℕ) {c : ℕ} → Under m a → Under m b → c ≤ a + b → Under (twice m) c
Under-twice none a b u v le = tt
Under-twice (some n) a b u v le = omega arith

-- What a run ends in.
pub record Kept (l : Limits) (r : BudgetState × List Spend) : Type 0 where
  pub within : Within l r.1
  pub any_hour : (from : ℕ) → Under (twice l.hourly_max) (spent_between from 3600 r.1)
  pub any_day : (from : ℕ) → Under (twice l.daily_max) (spent_between from 86400 r.1)
  pub total : r.0.total ≡ sum r.1

run-Kept_from :
    (b : Budget) (l : Limits) (calls : List Call) (now : ℕ) (s : BudgetState) (h : List Spend)
    → Caps b l
    → Tracks now h s
    → Within l h
    → IsMonotone now calls
    → sum h + requested calls < u64_mod
    → Kept l (run b calls s h)
unfolding run
run-Kept_from b l [] now s h c t w m small = record {
  within = w;
  any_hour = λ from.
      Under-twice l.hourly_max _ _ (w.hour (from / 3600)) (w.hour (from / 3600 + 1))
        (spent_between-hour from h);
  any_day = λ from.
      Under-twice l.daily_max _ _ (w.day (from / 86400)) (w.day (from / 86400 + 1))
        (spent_between-day from h);
  total = t.total;
}
run-Kept_from b l (x ∷ calls) now s h c t w m small =
    elim (check_and_record-Permits b now x.at x.amount x.domain t m.0 (omega arith)) [
      | inl (p, (s', e, t')) ↦ rw e (
          run-Kept_from b l calls x.at s' _ c t' (Permits-Within b l x.domain x.at x.amount h c p w)
            m.1 (omega arith))
      | inr (n, (reason, e, t')) ↦ rw e (run-Kept_from b l calls x.at s h c t' w m.1 (omega arith))
    ]

none-Within : (l : Limits) → Within l []
none-Within l = record {
  request = tt;
  hour = λ k. zero-Under l.hourly_max;
  day = λ k. zero-Under l.daily_max;
  total = zero-Under l.total_max;
}
  where
    zero-Under : (m : Option ℕ) → Under m 0
    zero-Under none = tt
    zero-Under (some n) = omega arith

pub new_state-Tracks : (now : ℕ) → Tracks now [] new_state
unfolding HashMap.get
new_state-Tracks now = record { total = refl; hours = λ k o. refl; days = λ k o. refl }

-- From a new tracker, with a clock that does not run backwards and requested amounts whose sum
-- fits in a `u64`: whatever the sequence of calls, every accepted payment is within the
-- per-request limit, the payments accepted in each hour and in each day of the clock (from a multiple
-- of 3600 or 86400 seconds to the next) add up to no more than the hourly and the daily limit, those
-- accepted in any 3600 or 86400 seconds in a row to no more than twice that limit, all of them add up to no more than the total limit, and the total
-- that the tracker reports is their sum. The limits are any that every budget that can apply, the
-- general one and those of the domains, is at least as strict as.
pub run-Kept :
    (b : Budget) (l : Limits) (calls : List Call)
    → Caps b l
    → IsMonotone 0 calls
    → requested calls < u64_mod
    → Kept l (run b calls new_state [])
run-Kept b l calls c m small =
    run-Kept_from b l calls 0 new_state [] c (new_state-Tracks 0) (none-Within l) m (omega arith)
