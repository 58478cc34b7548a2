-- ===== src/Examples/Limits.antt =====
-- An invocation within the limits of a network, but for its instructions and its footprint.
use soroban_fuzzer.Prelude.{[], ◌∷◌, none, All, ◌↔◌, ◌≡◌, refl}
use soroban_fuzzer.Prelude.Int.{pos}
use soroban_fuzzer.Fuzzer.Resources.{ResourceUsage, ResourceLimits, breaches, first_breach}
use soroban_fuzzer.Fuzzer.Resources.Limits.{Exceeded, Within, breaches_exact}

abbrev heavy : ResourceUsage
heavy = record {
  instructions = pos 700;
  mem_bytes = pos 10;
  disk_read_entries = 3;
  memory_read_entries = 4;
  write_entries = 2;
  disk_read_bytes = 0;
  write_bytes = 64;
  contract_events_size_bytes = 0;
}

abbrev network : ResourceLimits
network = record {
  instructions = pos 600;
  mem_bytes = pos 10;
  disk_read_entries = 3;
  write_entries = 4;
  ledger_entries = 8;
  disk_read_bytes = 0;
  write_bytes = 64;
  contract_events_size_bytes = 0;
}

over_two_limits :
    breaches heavy network
    ≡ record { limit = "instructions"; used = pos 700; allowed = pos 600 }
      ∷ record { limit = "ledger_entries"; used = pos 9; allowed = pos 8 }
      ∷ []
unfolding breaches
over_two_limits = refl

breaches_exact_example :
    All Exceeded (breaches heavy network)
    × ((first_breach heavy network ≡ none) ↔ Within heavy network)
breaches_exact_example = breaches_exact heavy network
