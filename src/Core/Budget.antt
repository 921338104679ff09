-- ===== src/Core/Budget.antt =====
-- crates/bolt402-core/src/budget.rs. `RwLock` and `Arc` drop out: the write lock is held from the
-- first read of the state to its last write, so a call is one step on the state. The clock's
-- reading is the argument `now`, in seconds. Sums are those of a release build.
pub mod Step
pub mod History
pub mod Bounds
use bolt.HashMap
use bolt.HashMap.{HashMap}
use bolt.Prelude.{
  ℕ, ◌+◌, ◌-◌, ◌/◌, Bool, true, false, Option, none, some, ◌++◌, [], ltb, leb, if◌then◌else◌,
  unwrap_or, add64, ℕ_discrete, Result, ok, err, ◌>>=◌, ◌>>◌,
}
use bolt.Proto.Errors.{ClientError, budget_exceeded}
use bolt.Text.Decimal.{print_u64}
use bolt.Text.Equality.{text_eq}
use bolt.Text.{Text, text}

-- The four limits of a `Budget`, in satoshis.
pub record Limits : Type 0 where
  pub per_request_max : Option ℕ
  pub hourly_max : Option ℕ
  pub daily_max : Option ℕ
  pub total_max : Option ℕ

-- A `Budget` has a map of budgets in it.
mutual
  pub data Budget : Type 0 where
    budget : Limits → DomainBudgets → Budget

  pub data DomainBudgets : Type 0 where
    no_domains : DomainBudgets
    domain_budget : Text → Budget → DomainBudgets → DomainBudgets

abbrev pub limits : Budget → Limits
limits (budget l ds) = l

abbrev pub domain_budgets : Budget → DomainBudgets
domain_budgets (budget l ds) = ds

-- `domain_budgets.get(domain)`.
unfoldable pub get_domain : Text → DomainBudgets → Option Budget
get_domain d no_domains = none
get_domain d (domain_budget k b ds) = if text_eq k d then some b else get_domain d ds

abbrev pub unlimited : Budget
unlimited =
    budget
      (record { per_request_max = none; hourly_max = none; daily_max = none; total_max = none })
      no_domains

pub per_request_reason : ℕ → ℕ → Text
per_request_reason amount max =
    text "payment of "
    ++ (print_u64 amount
        ++ (text " sats exceeds per-request limit of " ++ (print_u64 max ++ text " sats")))

-- The reason for a window, which is "hourly", "daily" or "total".
pub window_reason : Text → ℕ → ℕ → ℕ → Text
window_reason window spent amount max =
    text "payment of "
    ++ (print_u64 amount
        ++ (text " sats would exceed "
            ++ (window
                ++ (text " limit ("
                    ++ (print_u64 spent
                        ++ (text " + "
                            ++ (print_u64 amount
                                ++ (text " > " ++ (print_u64 max ++ text ")")))))))))

unfoldable pub check_request : Option ℕ → ℕ → Result ClientError (Unit {0})
check_request none amount = ok tt
check_request (some max) amount =
    if ltb max amount then err (budget_exceeded (per_request_reason amount max)) else ok tt

-- `Budget::check`.
abbrev pub check : Budget → ℕ → Result ClientError (Unit {0})
check b = check_request (limits b).per_request_max

pub record BudgetState : Type 0 where
  pub total : ℕ
  pub hourly : HashMap ℕ ℕ
  pub daily : HashMap ℕ ℕ

abbrev pub new_state : BudgetState
new_state = record { total = 0; hourly = []; daily = [] }

-- Lines 98 to 106: the budget of the domain, if it has one.
unfoldable pub effective_budget : Budget → Option Text → Budget
effective_budget b none = b
effective_budget b (some domain) = unwrap_or (get_domain domain (domain_budgets b)) b

abbrev pub spent_at : ℕ → HashMap ℕ ℕ → ℕ
spent_at k m = unwrap_or (HashMap.get ℕ_discrete k m) 0

-- The three blocks "check hourly/daily/total limit".
unfoldable pub check_window : Text → Option ℕ → ℕ → ℕ → Result ClientError (Unit {0})
check_window window none spent amount = ok tt
check_window window (some max) spent amount =
    if ltb max (add64 spent amount)
    then err (budget_exceeded (window_reason window spent amount max))
    else ok tt

-- `*map.entry(k).or_insert(0) += amount`.
unfoldable pub add_entry : ℕ → ℕ → HashMap ℕ ℕ → HashMap ℕ ℕ
add_entry k amount m = HashMap.insert ℕ_discrete k (add64 (spent_at k m) amount) m

-- Lines 155 to 164: record the spending, and drop the old entries. `saturating_sub` is `-`.
unfoldable pub record_spending : ℕ → ℕ → BudgetState → BudgetState
record_spending now amount s = record {
  total = add64 s.total amount;
  hourly = HashMap.retain (leb (now / 3600 - 48)) (add_entry (now / 3600) amount s.hourly);
  daily = HashMap.retain (leb (now / 86400 - 2)) (add_entry (now / 86400) amount s.daily);
}

-- Lines 119 to 153, on the budget that applies.
unfoldable pub check_windows : Limits → ℕ → ℕ → BudgetState → Result ClientError (Unit {0})
check_windows l now amount s = do
  check_window (text "hourly") l.hourly_max (spent_at (now / 3600) s.hourly) amount
  check_window (text "daily") l.daily_max (spent_at (now / 86400) s.daily) amount
  check_window (text "total") l.total_max s.total amount

unfoldable pub check_and_record :
    Budget → ℕ → ℕ → Option Text → BudgetState → BudgetState × Result ClientError (Unit {0})
check_and_record b now amount domain s =
    let effective = effective_budget b domain in
    elim (check effective amount >> check_windows (limits effective) now amount s) [
      | err e ↦ (s, err e)
      | ok u ↦ (record_spending now amount s, ok tt)
    ]

-- `total_spent`.
abbrev pub total_spent : BudgetState → ℕ
total_spent s = s.total
