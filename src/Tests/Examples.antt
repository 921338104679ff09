-- ===== src/Tests/Examples.antt =====
-- The theorems at concrete inputs.
pub mod Client
pub mod Parts
pub mod Headers
pub mod Sqlite
pub mod Lnd
pub mod Threads
pub mod Wallets
pub mod Bindings
