-- ===== src/Proto.antt =====
-- The protocol crate, crates/bolt402-proto: errors, BOLT11 amounts, tokens and challenges.
pub mod Errors
pub mod Std
pub mod Bolt11
pub mod Scheme
pub mod Token
pub mod Challenge
pub mod Port
