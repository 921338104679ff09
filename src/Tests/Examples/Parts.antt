-- ===== src/Tests/Examples/Parts.antt =====
-- The theorems on the budget, the cache and the mock backend, at concrete inputs.
use bolt.Core.Budget.Bounds.{Call, Caps, Kept, Stricter, run, run-Kept, new_state-Tracks}
use bolt.Core.Budget.History.{Permits, Tracks, check_and_record-Permits}
use bolt.Core.Budget.{
  Budget, DomainBudgets, Limits, budget, no_domains, domain_budget, limits, BudgetState, new_state,
  effective_budget, check_and_record, record_spending,
}
use bolt.Core.Cache
use bolt.Core.Cache.Reads.{get-put, drops, victim}
use bolt.Core.Cache.Runs
use bolt.Core.Cache.Runs.{Agrees, queue_run, run-Agrees}
use bolt.Mock.Backend.Balance.{pay_all, pay_all-balance}
use bolt.Mock.Server
use bolt.Prelude.{
  ℕ, ◌+◌, ◌≡◌, ◌⊎◌, Option, none, some, List, [], ◌∷◌, ite, if◌then◌else◌, ok, err, arith,
}
use bolt.Proto.Errors.{budget_exceeded}
use bolt.Tests.Fixtures.{some_limits}
use bolt.Text.Equality.{Text-discrete}
use bolt.Text.{Text, codes}

-- A budget with a stricter one for a host.
abbrev strict_limits : Limits
strict_limits = record {
  per_request_max = some 10;
  hourly_max = some 100;
  daily_max = some 200;
  total_max = some 300;
}

abbrev two_budgets : Budget
two_budgets =
    budget some_limits (domain_budget (codes "h") (budget strict_limits no_domains) no_domains)

strict-Stricter :
    (P : Budget → Type 0)
    → P (budget some_limits no_domains)
    → ((d : Option Text) → P (effective_budget (budget some_limits no_domains) d))
unfolding effective_budget bolt.Core.Budget.get_domain
strict-Stricter P p none = p
strict-Stricter P p (some d) = p

abbrev one_budget : Budget
one_budget = budget some_limits no_domains

one_budget-Caps : Caps one_budget some_limits
one_budget-Caps = record {
  request =
      strict-Stricter (λ b. Stricter (limits b).per_request_max some_limits.per_request_max)
        (omega arith);
  hour = strict-Stricter (λ b. Stricter (limits b).hourly_max some_limits.hourly_max) (omega arith);
  day = strict-Stricter (λ b. Stricter (limits b).daily_max some_limits.daily_max) tt;
  total = strict-Stricter (λ b. Stricter (limits b).total_max some_limits.total_max) (omega arith);
}

-- Two payments in one hour, of which the second would exceed the limit of the hour, and one after it.
abbrev calls : List Call
calls =
    record { at = 7_200; amount = 400; domain = none }
    ∷ record { at = 7_300; amount = 450; domain = some (codes "h") }
    ∷ record { at = 7_400; amount = 300; domain = none }
    ∷ record { at = 10_800; amount = 300; domain = none }
    ∷ []

run-Kept_example : Kept some_limits (run one_budget calls new_state [])
run-Kept_example = run-Kept one_budget some_limits calls one_budget-Caps (omega arith) (omega arith)

check_and_record-Permits_example :
    (Permits (limits (effective_budget two_budgets (some (codes "h")))) 7_200 11 []
      × ((s' : BudgetState) × (check_and_record two_budgets 7_200 11 (some (codes "h")) new_state
            ≡ (s', ok tt))
          × Tracks 7_200 (record { at = 7_200; amount = 11 } ∷ []) s'))
    ⊎ ((¬ Permits (limits (effective_budget two_budgets (some (codes "h")))) 7_200 11 [])
        × ((reason : Text) × (check_and_record two_budgets 7_200 11 (some (codes "h")) new_state
              ≡ (new_state, err (budget_exceeded reason)))
            × Tracks 7_200 [] new_state))
check_and_record-Permits_example =
    check_and_record-Permits two_budgets 0 7_200 11 (some (codes "h")) {h = []} {s = new_state}
      (new_state-Tracks 0) (omega arith) (omega arith)

-- A cache for two, with three keys.
abbrev cache_calls : List Runs.Call
cache_calls =
    Runs.Call.put (codes "a") (codes "m1", codes "p1")
    ∷ Runs.Call.put (codes "b") (codes "m2", codes "p2")
    ∷ Runs.Call.put (codes "a") (codes "m3", codes "p3")
    ∷ Runs.Call.put (codes "c") (codes "m4", codes "p4")
    ∷ Runs.Call.remove (codes "c")
    ∷ []

run-Agrees_example : Agrees (Runs.run (Cache.new 2) cache_calls) 2 (queue_run 2 [] cache_calls)
run-Agrees_example = run-Agrees 2 cache_calls

abbrev full_cache : Cache.CacheInner
full_cache = Runs.run (Cache.new 1) (Runs.Call.put (codes "a") (codes "m1", codes "p1") ∷ [])

get-put_example :
    Cache.get (codes "a") (Cache.put (codes "b") (codes "m2", codes "p2") full_cache)
    ≡ ite (Text-discrete (codes "b") (codes "a")) (some (codes "m2", codes "p2")) (
        if drops (victim (codes "b") full_cache) (codes "a")
        then none
        else Cache.get (codes "a") full_cache)
get-put_example = get-put (codes "b") (codes "a") (codes "m2", codes "p2") full_cache

abbrev invoices : List (Text × ℕ)
invoices = (codes "lnbc1", 10) ∷ (codes "lnbc2", 10) ∷ []

pay_all-balance_example :
    (pay_all invoices Server.new_state).0.balance + (pay_all invoices Server.new_state).1
    ≡ 1_000_000
pay_all-balance_example = pay_all-balance invoices Server.new_state
