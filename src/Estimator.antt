-- ===== src/Estimator.antt =====
-- The crate soroban-budget: what a compiled contract costs, read off its Wasm module.
pub mod Module
pub mod Estimate
pub mod Walk
pub mod Entries
