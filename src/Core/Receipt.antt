-- ===== src/Core/Receipt.antt =====
-- crates/bolt402-core/src/receipt.rs. The clock's reading is an argument.
use bolt.Prelude.{ℕ, add64}
use bolt.Text.{Text}

pub record Receipt : Type 0 where
  pub timestamp : ℕ
  pub endpoint : Text
  pub amount_sats : ℕ
  pub fee_sats : ℕ
  pub payment_hash : Text
  pub preimage : Text
  pub response_status : ℕ
  pub latency_ms : ℕ

-- `Receipt::new` at time `now`.
abbrev pub new : ℕ → Text → ℕ → ℕ → Text → Text → ℕ → ℕ → Receipt
new now endpoint amount_sats fee_sats payment_hash preimage response_status latency_ms = record {
  timestamp = now;
  endpoint = endpoint;
  amount_sats = amount_sats;
  fee_sats = fee_sats;
  payment_hash = payment_hash;
  preimage = preimage;
  response_status = response_status;
  latency_ms = latency_ms;
}

abbrev pub total_cost_sats : Receipt → ℕ
total_cost_sats r = add64 r.amount_sats r.fee_sats
