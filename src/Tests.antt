-- ===== src/Tests.antt =====
-- Runs of the model on the inputs of the repository's tests, and the theorems at concrete inputs.
pub mod Fixtures
pub mod Runs
pub mod Examples
