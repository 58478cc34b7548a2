-- ===== src/Analyzer/Command.antt =====
-- soroban-analyzer/src/main.rs: the command line.
pub mod Options
pub mod Run
pub mod Adopt
