-- ===== src/Estimator/Walk.antt =====
-- Lemmas on the walk of soroban-budget/src/estimate.rs.
pub mod Invariant
pub mod Fits
pub mod Cycle
pub mod Sum
pub mod Seen
