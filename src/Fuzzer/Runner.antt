-- ===== src/Fuzzer/Runner.antt =====
-- soroban-fuzzer/src/runner.rs: the run of one case, the checks after every action, and the tally.
pub mod Case
pub mod Tally
pub mod Ends
pub mod Finished
pub mod Accounts
pub mod Runs
pub mod Replay
pub mod ReadOnly
