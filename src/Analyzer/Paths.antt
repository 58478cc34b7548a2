-- ===== src/Analyzer/Paths.antt =====
-- The analysis of many files by a pool of threads: soroban-analyzer/src/lib.rs, `analyze_paths`.
pub mod Pool
pub mod Moves
pub mod Accounting
pub mod Remaining
pub mod Complete
pub mod Analysis
pub mod Refined
