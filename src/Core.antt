-- ===== src/Core.antt =====
-- The client crate, crates/bolt402-core: budgets, the token cache, receipts and the client.
pub mod Budget
pub mod Cache
pub mod Receipt
pub mod Client
