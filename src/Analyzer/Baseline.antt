-- ===== src/Analyzer/Baseline.antt =====
-- soroban-analyzer/src/baseline.rs: the findings a team has already seen.
pub mod Defs
pub mod Matching
pub mod Roundtrip
