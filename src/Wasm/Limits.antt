-- ===== src/Wasm/Limits.antt =====
-- What a client for JavaScript that pays with LND promises.
use bolt.Core.Budget.Bounds.{Stricter}
use bolt.Core.Budget.{Budget, limits, effective_budget}
use bolt.Core.Cache.{CacheInner}
use bolt.Core.Client.Builder.{HttpClient, ClientParts, build, client_of, http_client_of}
use bolt.Core.Client.Receipts.{AllGood, run-AllGood}
use bolt.Core.Client.Spending.{Call, run, IsCovered, run-IsCovered}
use bolt.Core.Client.{Env, new_session}
use bolt.Lnd.Rest.Proof.{pay_invoice-IsSettled}
use bolt.Lnd.Rest.{LndJson, LndRestBackend, lnd_rest_backend}
use bolt.Prelude.{
  ℕ, ◌+◌, ◌<◌, ◌≡◌, refl, sym, ap, subst, Option, none, some, List, Result, ok, >>=-eq-ok, map_err,
  map_err-eq-ok, ok-injective, arith, u64_mod,
}
use bolt.Proto.Bolt11.Amount.{max_satoshis}
use bolt.Proto.Challenge.{Base64}
use bolt.Proto.Port.{LnBackend}
use bolt.Proto.Std.{Std}
use bolt.Rest.{Crypto, IsProof}
use bolt.Text.{Text}
use bolt.Wasm.{WasmBudgetConfig, to_budget, to_opt, with_backend, with_lnd_rest}

to_opt-some : (v : ℕ) → 0 < v → to_opt v ≡ some v
to_opt-some v h = ground (arith, h)

to_opt-Stricter : (v : ℕ) → 0 < v → Stricter (to_opt v) (some v)
to_opt-Stricter v h = rw (to_opt-some v h) (omega arith)

-- A limit that is not 0 holds for every host.
to_budget-Stricter :
    (config : WasmBudgetConfig) (d : Option Text)
    → 0 < config.total_max
    → Stricter (limits (effective_budget (to_budget config) d)).total_max (some config.total_max)
unfolding to_budget effective_budget bolt.Core.Budget.get_domain
to_budget-Stricter config none h = to_opt-Stricter config.total_max h
to_budget-Stricter config (some d) h = to_opt-Stricter config.total_max h

module _ {World : Type 0} (env : Env World) (make : Text → Result Text (HttpClient World))
    (user_agent : Text) where
  with_backend-parts :
      (b : LnBackend World) (config : WasmBudgetConfig) (fee : ℕ)
      {parts : ClientParts World CacheInner}
      → with_backend env make user_agent b config fee ≡ ok parts
      → (parts.budget ≡ to_budget config) × (parts.env.backend ≡ b)
  unfolding with_backend build
  with_backend-parts b config fee {parts} h =
      let (http, e, made) = >>=-eq-ok (http_client_of make _) _ (map_err-eq-ok _ _ h) in
      let same = ok-injective refl made in
      (
        ap (λ (x : ClientParts World CacheInner). x.budget) (sym same),
        ap (λ (x : ClientParts World CacheInner). x.env.backend) (sym same),
      )

  -- A client that `withLndRest` makes with a total limit that is not 0 and leaves room below 2^64
  -- for the largest invoice amount: after any requests, whatever the servers, the node and the clock
  -- do, the decoded amounts of all invoices that were handed to the node add up to no more than the
  -- total spent, which is within the limit; and every receipt is a proof of payment.
  pub with_lnd_rest-IsCovered :
      (std : Std) (base64 : Base64) (json : LndJson) (crypto : Crypto)
      (built : Result Text (bolt.Rest.HttpClient World)) (url macaroon : Text)
      (config : WasmBudgetConfig) (max_fee_sats : ℕ) (parts : ClientParts World CacheInner)
      (world : World) (store : CacheInner) (calls : List Call)
      → with_lnd_rest env make user_agent json crypto built url macaroon config max_fee_sats
        ≡ ok parts
      → 0 < config.total_max
      → config.total_max + max_satoshis < u64_mod
      → IsCovered
          (client_of std base64 parts)
          config.total_max
          (run (client_of std base64 parts) calls (new_session world store))
        × AllGood
            (client_of std base64 parts)
            (IsProof crypto)
            (run (client_of std base64 parts) calls (new_session world store))
  unfolding with_lnd_rest
  with_lnd_rest-IsCovered std base64 json crypto built url macaroon config max_fee_sats parts world
        store calls h positive fits =
      let (lnd, e, made) = >>=-eq-ok (map_err _ (bolt.Lnd.Rest.new built url macaroon)) _ h in
      let (same_budget, same_backend) =
        with_backend-parts (lnd_rest_backend json crypto lnd) config max_fee_sats made in
      (
        run-IsCovered (client_of std base64 parts) config.total_max world store calls
            (λ d.
              subst
                (λ x. Stricter (limits (effective_budget x d)).total_max (some config.total_max))
                (sym same_budget) (to_budget-Stricter config d positive))
            fits,
        run-AllGood (client_of std base64 parts) (IsProof crypto) world store calls
            (λ invoice fee w p paid.
              (pay_invoice-IsSettled json crypto lnd invoice fee w (
                subst (λ (b : LnBackend World). (b.pay_invoice invoice fee w).1 ≡ ok p) same_backend
                  paid)).2.proof),
      )
