-- ===== src/Examples/Budget.antt =====
-- A small contract: an import, an exported function with a loop that calls a helper twice, and the
-- helper. And a second one, whose exported function calls itself.
use soroban_fuzzer.Prelude.{
  ℕ, String, List, [], ◌∷◌, inl, refl, length, ltb, ◌+◌, ◌↔◌, ◌≡◌, ◌≤◌, true, false, In,
}
use soroban_fuzzer.Prelude.BTree.{total, set_contains, set_insert}
use soroban_fuzzer.Estimator.Module.Facts.{FunctionFacts, Module, function}
use soroban_fuzzer.Estimator.Module.Parse.{
  Result, ok, Payload, import_section, function_section, export_section, code_section_entry,
  other_payload, end_block, call, loop_block, other, parse,
}
use soroban_fuzzer.Estimator.Module.Shape.{IsWellFormed, parse-IsWellFormed}
use soroban_fuzzer.Estimator.Estimate.{
  in_loops, in_indirect_calls, in_recursion, unbounded_ord, max_depth, estimate_entry, estimate,
}
use soroban_fuzzer.Estimator.Walk.Invariant.{reports, estimate_entry_flags}
use soroban_fuzzer.Estimator.Walk.Fits.{Fits, Reaches, direct, recursion_iff}
use soroban_fuzzer.Estimator.Walk.Cycle.{cycle_is_reported}
use soroban_fuzzer.Estimator.Walk.Sum.{TreeSum, no_leaf, import_leaf, estimate_entry_exact}
use soroban_fuzzer.Estimator.Walk.Seen.{functions-le}
use soroban_fuzzer.Estimator.Entries.{Estimated, estimate_covers}

abbrev payloads : List (Result Payload)
payloads =
    ok other_payload
    ∷ ok (
        import_section (ok (record { from_module = "l"; field_name = "put"; is_func = true }) ∷ []))
    ∷ ok (function_section (ok 0 ∷ ok 0 ∷ []))
    ∷ ok (export_section (ok (record { export_name = "run"; is_func = true; target = 1 }) ∷ []))
    ∷ ok (
        code_section_entry
          (ok (ok loop_block ∷ ok (call 2) ∷ ok (call 0) ∷ ok (call 2) ∷ ok end_block ∷ [])))
    ∷ ok (code_section_entry (ok (ok other ∷ ok other ∷ ok end_block ∷ [])))
    ∷ []

abbrev contract : Module
contract = record {
  path = "c.wasm";
  bytes = 90;
  imports = record { index = 0; module_name = "l"; name = "put" } ∷ [];
  functions =
      record {
        instructions = 4;
        calls = 2 ∷ 2 ∷ [];
        host_calls = 0 ∷ [];
        indirect_calls = 0;
        loops = 1;
        branches = 0;
      }
      ∷ record {
        instructions = 2;
        calls = [];
        host_calls = [];
        indirect_calls = 0;
        loops = 0;
        branches = 0;
      }
      ∷ [];
  exports = ("run", 1) ∷ [];
  other_exports = [];
}

parsed : parse "c.wasm" 90 payloads ≡ ok contract
unfolding parse
parsed = refl

parse-IsWellFormed_example : IsWellFormed contract
parse-IsWellFormed_example = parse-IsWellFormed "c.wasm" 90 payloads contract parsed

not_recursive : reports in_recursion (estimate_entry contract "run" 1) ≡ false
unfolding estimate_entry set_contains
not_recursive = refl

-- The helper is called twice and counts twice.
run_instructions : (estimate_entry contract "run" 1).instructions ≡ 8
unfolding estimate_entry
run_instructions = refl

estimate_entry_exact_example :
    TreeSum contract no_leaf (λ f. f.instructions) 1 (estimate_entry contract "run" 1).instructions
    × TreeSum contract no_leaf (λ f. f.loops) 1 (estimate_entry contract "run" 1).loops
    × TreeSum contract no_leaf
        (λ f. f.indirect_calls)
        1
        (estimate_entry contract "run" 1).indirect_calls
    × TreeSum contract
        (import_leaf contract)
        (λ f. length f.host_calls)
        1
        (estimate_entry contract "run" 1).host_calls_total
estimate_entry_exact_example = estimate_entry_exact contract "run" 1 not_recursive

recursion_iff_example :
    (reports in_recursion (estimate_entry contract "run" 1) ≡ false)
    ↔ Fits contract (max_depth + 1) 1
recursion_iff_example = recursion_iff contract "run" 1

estimate_entry_flags_example :
    (reports in_loops (estimate_entry contract "run" 1)
      ≡ ltb 0 (estimate_entry contract "run" 1).loops)
    × (reports in_indirect_calls (estimate_entry contract "run" 1)
        ≡ ltb 0 (estimate_entry contract "run" 1).indirect_calls)
    × ((estimate_entry contract "run" 1).host_calls_total
        ≡ total (estimate_entry contract "run" 1).host_calls)
estimate_entry_flags_example = estimate_entry_flags contract "run" 1

functions-le_example : (estimate_entry contract "run" 1).functions ≤ 2
functions-le_example = functions-le contract "run" 1

abbrev loops_forever : FunctionFacts
loops_forever = record {
  instructions = 1;
  calls = 0 ∷ [];
  host_calls = [];
  indirect_calls = 0;
  loops = 0;
  branches = 0;
}

abbrev recursive : Module
recursive = record {
  path = "r.wasm";
  bytes = 40;
  imports = [];
  functions = loops_forever ∷ [];
  exports = ("spin", 0) ∷ ("again", 0) ∷ [];
  other_exports = [];
}

calls_itself : Reaches recursive 0 0
unfolding function
calls_itself = direct (loops_forever, refl, inl refl)

cycle_is_reported_example : reports in_recursion (estimate_entry recursive "spin" 0) ≡ true
cycle_is_reported_example = cycle_is_reported recursive "spin" 0 0 (inl refl) calls_itself

estimate_covers_example :
    ((name : String) (i : ℕ)
      → In (name, i) recursive.exports
      → Estimated recursive (estimate recursive).entries recursive.exports i)
    × (length (estimate recursive).entries ≡ 1)
unfolding set_insert
estimate_covers_example = estimate_covers recursive
