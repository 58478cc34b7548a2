-- ===== src/Analyzer/Source.antt =====
-- soroban-analyzer/src/source.rs: a source file and the places in it.
pub mod Lines
pub mod Newlines
pub mod Cursor
pub mod Snippet
