-- ===== src/Analyzer/Report.antt =====
-- soroban-analyzer/src/report.rs: the findings of a run, what excuses them and what gates.
pub mod Defs
pub mod Gate
pub mod Counts
