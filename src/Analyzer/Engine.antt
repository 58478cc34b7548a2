-- ===== src/Analyzer/Engine.antt =====
-- soroban-analyzer/src/detector.rs: the detectors, their sink and the engine over one file.
pub mod Defs
pub mod Checked
pub mod Valid
