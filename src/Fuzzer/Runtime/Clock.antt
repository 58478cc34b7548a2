-- ===== src/Fuzzer/Runtime/Clock.antt =====
-- `advance` and `close_ledger` of soroban-fuzzer/src/runtime.rs and the clock of the ledger.
use soroban_fuzzer.Prelude.{ℕ, ◌+◌, ◌*◌, ◌≤◌, ◌≡◌, refl, min, arith}
use soroban_fuzzer.Fuzzer.Storage.Xdr.{Xdr}
use soroban_fuzzer.Fuzzer.Resources.{saturating_add, u32_max}
use soroban_fuzzer.Fuzzer.Runtime.Call.{Host, Session}
use soroban_fuzzer.Fuzzer.Runtime.Ledger.{
  seconds_per_ledger, u64_max, saturating_add_u64, advance, close_ledger,
}

-- The clock of the test environment: a number that was set is read back, setting one leaves the
-- other, and what is read fits into 32 and 64 bits.
pub record HasClock (x : Xdr) (h : Host x) : Type 0 where
  pub sequence_set :
      (n : ℕ) (env : h.Env) → n ≤ u32_max → h.sequence (h.set_sequence_number n env) ≡ n
  pub timestamp_set : (n : ℕ) (env : h.Env) → n ≤ u64_max → h.timestamp (h.set_timestamp n env) ≡ n
  pub sequence_kept : (n : ℕ) (env : h.Env) → h.sequence (h.set_timestamp n env) ≡ h.sequence env
  pub timestamp_kept :
      (n : ℕ) (env : h.Env) → h.timestamp (h.set_sequence_number n env) ≡ h.timestamp env
  pub sequence_le : (env : h.Env) → h.sequence env ≤ u32_max
  pub timestamp_le : (env : h.Env) → h.timestamp env ≤ u64_max

-- Of an environment with a clock: both ways of moving the ledger leave the same environment, although
-- one reads the time after it has set the sequence number; the clock then shows the sum up to what 32
-- and 64 bits hold, and never goes back.
pub close_ledger_clock :
    (x : Xdr) (h : Host x) (clock : HasClock x h) (ledgers : ℕ) (s : Session x h)
    → let t = close_ledger x h ledgers s in
      ((advance x h ledgers s).env ≡ t.env)
      × (h.sequence t.env ≡ min (h.sequence s.env + ledgers) u32_max)
      × (h.timestamp t.env ≡ min (h.timestamp s.env + ledgers * seconds_per_ledger) u64_max)
      × (h.sequence s.env ≤ h.sequence t.env)
      × (h.timestamp s.env ≤ h.timestamp t.env)
unfolding advance close_ledger saturating_add saturating_add_u64
close_ledger_clock x h clock ledgers s =
    let to = min (h.sequence s.env + ledgers) u32_max in
    let time = min (h.timestamp s.env + ledgers * seconds_per_ledger) u64_max in
    let moved = h.set_sequence_number to s.env in
    let e1 = clock.sequence_kept time moved in
    let e2 = clock.sequence_set to s.env (omega arith) in
    let e3 = clock.timestamp_set time moved (omega arith) in
    (
      rw (clock.timestamp_kept to s.env) refl,
      omega (arith, e1, e2),
      e3,
      omega (arith, e1, e2, clock.sequence_le s.env),
      omega (arith, e3, clock.timestamp_le s.env),
    )
