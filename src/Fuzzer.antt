-- ===== src/Fuzzer.antt =====
-- The crate soroban-fuzzer: generated call sequences against a contract, checked after every call.
pub mod Storage
pub mod Resources
pub mod Journal
pub mod Runtime
pub mod Runner
