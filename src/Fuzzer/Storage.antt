-- ===== src/Fuzzer/Storage.antt =====
-- soroban-fuzzer/src/storage.rs: snapshots of the ledger, and what changed between two of them.
pub mod Xdr
pub mod Render
pub mod Snapshot
pub mod Diff
pub mod Captured
pub mod Accounting
pub mod Unchanged
pub mod Fresh
