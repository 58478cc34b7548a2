-- ===== src/Fuzzer/Runtime/Ledger.antt =====
-- soroban-fuzzer/src/runtime.rs: `LedgerCtl`, which moves the ledger of the test environment.
use soroban_fuzzer.Prelude.{ℕ, ◌+◌, ◌-◌, ◌*◌, ◌^◌, min}
use soroban_fuzzer.Prelude.Text.{◌<>◌, show_nat}
use soroban_fuzzer.Fuzzer.Storage.Xdr.{Xdr}
use soroban_fuzzer.Fuzzer.Resources.{saturating_add}
use soroban_fuzzer.Fuzzer.Journal.{push_call, bare_call}
use soroban_fuzzer.Fuzzer.Runtime.Call.{Host, Session}

abbrev pub seconds_per_ledger : ℕ
seconds_per_ledger = 5

abbrev pub u64_max : ℕ
u64_max = 2 ^ 64 - 1

-- `u64::saturating_add`
unfoldable pub saturating_add_u64 : ℕ → ℕ → ℕ
saturating_add_u64 m n = min (m + n) u64_max

module _ (x : Xdr) (h : Host x) where
  unfoldable pub advance : ℕ → Session x h → Session x h
  unfolding saturating_add saturating_add_u64
  advance ledgers s =
      let moved = h.set_sequence_number (saturating_add (h.sequence s.env) ledgers) s.env in
      record s {
        env =
            h.set_timestamp (saturating_add_u64 (h.timestamp moved) (ledgers * seconds_per_ledger))
              moved;
      }

  unfoldable pub close_ledger : ℕ → Session x h → Session x h
  unfolding saturating_add saturating_add_u64 push_call
  close_ledger ledgers s =
      let from_sequence = h.sequence s.env in
      let to_sequence = saturating_add from_sequence ledgers in
      let timestamp = saturating_add_u64 (h.timestamp s.env) (ledgers * seconds_per_ledger) in
      record {
        env = h.set_timestamp timestamp (h.set_sequence_number to_sequence s.env);
        journal =
            push_call
              (bare_call "<ledger>" (
                "ledger closed: sequence "
                <> show_nat from_sequence
                <> " -> "
                <> show_nat to_sequence
                <> ", timestamp "
                <> show_nat timestamp))
              s.journal;
      }
