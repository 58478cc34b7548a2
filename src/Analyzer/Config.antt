-- ===== src/Analyzer/Config.antt =====
-- soroban-analyzer/src/config.rs: configuration files and what is accepted.
pub mod File
pub mod Accepted
