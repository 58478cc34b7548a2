-- ===== src/Analyzer.antt =====
-- The static analyser: crate soroban-analyzer.
pub mod Severity
pub mod Finding
pub mod Rules
pub mod Baseline
pub mod Report
pub mod Source
pub mod Suppress
pub mod Engine
pub mod Walk
pub mod Config
pub mod Command
pub mod Paths
