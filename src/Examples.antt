-- ===== src/Examples.antt =====
-- The theorems at concrete inputs, and runs of the definitions.
mod Budget
mod Order
mod Ledger
mod Limits
mod Fuzz
mod Analyzer
