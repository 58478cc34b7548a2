-- ===== src/Analyzer/Rules.antt =====
-- soroban-analyzer/src/rules.rs: the rules and their loader.
pub mod Defs
pub mod Loaded
