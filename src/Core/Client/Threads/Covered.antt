-- ===== src/Core/Client/Threads/Covered.antt =====
-- The total limit, over requests that run at the same time.
use bolt.Core.Client.Threads.Solvent.{Funded, Solvent, Solvent-request}
use bolt.Core.Budget.Bounds.{Stricter}
use bolt.Core.Budget.{limits, effective_budget}
use bolt.Core.Client.Spending.{IsCovered}
use bolt.Core.Client.Threads.{Thread, next, request_thread, Schedule, stop, arrive, turn}
use bolt.Core.Client.{L402Client, Session, new_session}
use bolt.Prelude.{ℕ, ◌+◌, ◌<◌, ◌≡◌, refl, Option, some, List, [], ◌∷◌, ◌++◌, arith, u64_mod}
use bolt.Proto.Bolt11.Amount.{max_satoshis}
use bolt.Text.{Text}

module _ {World Store : Type 0} (c : L402Client World Store) (cap : ℕ) where
  -- What all threads together owe.
  unfoldable AllSolvent : List (Thread World Store) → ℕ → Type 0
  AllSolvent [] owed = Unit
  AllSolvent (t ∷ ts) owed =
      (a : ℕ) × ((b : ℕ) × (owed ≡ a + b) × Solvent c cap t a × AllSolvent ts b)

  Funded-eq : (s : Session World Store) (m n : ℕ) → m ≡ n → Funded c cap s m → Funded c cap s n
  Funded-eq s m n e h = record { paid = omega (arith, h.paid, e); capped = h.capped }

  AllSolvent-cons :
      (t : Thread World Store) (ts : List (Thread World Store)) (a b : ℕ)
      → Solvent c cap t a
      → AllSolvent ts b
      → AllSolvent (t ∷ ts) (a + b)
  unfolding AllSolvent
  AllSolvent-cons t ts a b h k = (a, (b, refl, h, k))

  -- A step of one thread.
  AllSolvent-turn :
      (s : Session World Store) (before after : List (Thread World Store))
      (f : Session World Store → Session World Store) (k : Session World Store → Thread World Store)
      (owed others : ℕ)
      → AllSolvent (before ++ next f k ∷ after) owed
      → Funded c cap s (owed + others)
      → (rest : ℕ) × Funded c cap (f s) (rest + others) × AllSolvent (before ++ k s ∷ after) rest
  unfolding AllSolvent Solvent
  AllSolvent-turn s [] after f k owed others (a, (b, e, h, more)) funded =
      let (rest, after_step, solvent) =
        h s (b + others)
          (Funded-eq s (owed + others) (a + (b + others)) (omega (arith, e)) funded) in
      (
        rest + b,
        Funded-eq (f s) (rest + (b + others)) (rest + b + others) (omega arith) after_step,
        AllSolvent-cons (k s) after rest b solvent more,
      )
  AllSolvent-turn s (t ∷ before) after f k owed others (a, (b, e, h, more)) funded =
      let (rest, after_step, solvent) =
        AllSolvent-turn s before after f k b (a + others) more
          (Funded-eq s (owed + others) (b + (a + others)) (omega (arith, e)) funded) in
      (
        a + rest,
        Funded-eq (f s) (rest + (a + others)) (a + rest + others) (omega arith) after_step,
        AllSolvent-cons t (before ++ k s ∷ after) a rest h solvent,
      )

  Schedule-Funded :
      ((d : Option Text) → Stricter (limits (effective_budget c.budget d)).total_max (some cap))
      → cap + max_satoshis < u64_mod
      → {end : Session World Store} {left : List (Thread World Store)} {s : Session World Store}
        {ts : List (Thread World Store)} (owed : ℕ)
      → Schedule c end left s ts
      → AllSolvent ts owed
      → Funded c cap s owed
      → (rest : ℕ) × Funded c cap end rest
  Schedule-Funded limit fits owed stop h f = (owed, f)
  Schedule-Funded limit fits owed (arrive m url body next_steps) h f =
      Schedule-Funded limit fits (0 + owed) next_steps
        (AllSolvent-cons (request_thread c m url body) _ 0 owed
          (Solvent-request c cap limit fits m url body) h)
        (Funded-eq _ owed (0 + owed) (omega arith) f)
  Schedule-Funded limit fits owed (turn before after step k next_steps) h f =
      let (rest, funded, solvent) =
        AllSolvent-turn _ before after step k owed 0 h
          (Funded-eq _ owed (owed + 0) (omega arith) f) in
      Schedule-Funded limit fits rest next_steps solvent
        (Funded-eq _ (rest + 0) rest (omega arith) funded)

-- A new client whose every budget that can apply has a total limit of `cap` or less, where `cap`
-- leaves room below 2^64 for the largest invoice amount: after any schedule of requests that run at
-- the same time, the finished and the unfinished ones, in whatever order they make their steps and
-- whatever the servers, the node, the clock and the store do, the decoded amounts of all invoices
-- that were handed to the backend add up to no more than the tracker's total, which is within `cap`.
pub Schedule-IsCovered :
    {World Store : Type 0} (c : L402Client World Store) (cap : ℕ) (world : World) (store : Store)
    (end : Session World Store) (left : List (Thread World Store))
    → ((d : Option Text) → Stricter (limits (effective_budget c.budget d)).total_max (some cap))
    → cap + max_satoshis < u64_mod
    → Schedule c end left (new_session world store) []
    → IsCovered c cap end
unfolding AllSolvent
Schedule-IsCovered c cap world store end left limit fits schedule =
    let (rest, h) =
      Schedule-Funded c cap limit fits 0 schedule tt
        (record { paid = omega arith; capped = omega arith }) in
    record { covered = omega (arith, h.paid); capped = h.capped }
