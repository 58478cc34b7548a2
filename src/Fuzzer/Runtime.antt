-- ===== src/Fuzzer/Runtime.antt =====
-- soroban-fuzzer/src/runtime.rs: what an action did, the classification of calls, and the ledger clock.
pub mod Outcome
pub mod Call
pub mod Ledger
pub mod Classified
pub mod Recorded
pub mod Clock
