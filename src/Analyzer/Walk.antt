-- ===== src/Analyzer/Walk.antt =====
-- soroban-analyzer/src/walk.rs: the files to analyse.
pub mod Tree
pub mod Found
