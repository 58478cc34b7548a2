-- ===== src/Estimator/Walk/Seen.antt =====
-- The set `seen` of `walk` in soroban-budget/src/estimate.rs, and the count `functions` made of it.
use soroban_fuzzer.Prelude.{
  ℕ, suc, ◌+◌, ◌-◌, ◌≤◌, ◌<◌, ◌≡◌, zero, some, List, [], ◌∷◌, arith, ltb, length, get_elem?, String,
}
use soroban_fuzzer.Prelude.BTree.{set_insert}
use soroban_fuzzer.Prelude.Sorted.{
  IsSorted, InRange, insert-IsSorted, insert-InRange, length-le-range,
}
use soroban_fuzzer.Prelude.Order.{nat_ord}
use soroban_fuzzer.Estimator.Module.Facts.{
  FunctionFacts, Module, function, defined_base, function_count,
}
use soroban_fuzzer.Estimator.Estimate.{
  Walked, flag, count_host, add_body, flag_if, walk, start, max_depth, estimate_entry, in_loops,
  in_indirect_calls,
}
use soroban_fuzzer.Estimator.Walk.Invariant.{walk_inv}

get_elem?-some-lt :
    {A : Type 0} (xs : List A) (i : ℕ) (a : A) → get_elem? xs i ≡ some a → i < length xs
get_elem?-some-lt [] i a h = cc
get_elem?-some-lt (x ∷ xs) zero a h = omega arith
get_elem?-some-lt (x ∷ xs) (suc i) a h = omega (arith, get_elem?-some-lt xs i a h)

-- A function with a body has an index past the imports.
pub function_range :
    (m : Module) (i : ℕ) (facts : FunctionFacts)
    → function m i ≡ some facts
    → (defined_base m ≤ i) × (i < function_count m)
unfolding function
function_range m i facts h =
    ground (arith, get_elem?-some-lt m.functions (i - length m.imports) facts)

record SeesDefined (m : Module) (w : Walked) : Type 0 where
  sorted : IsSorted w.seen
  range : InRange (defined_base m) (function_count m) w.seen

body-SeesDefined :
    (m : Module) (index : ℕ) (facts : FunctionFacts) (w : Walked)
    → function m index ≡ some facts
    → SeesDefined m w
    → SeesDefined m (
        flag_if
          (ltb 0 facts.indirect_calls)
          in_indirect_calls
          (flag_if (ltb 0 facts.loops) in_loops (add_body index facts w)))
unfolding flag_if add_body flag set_insert
body-SeesDefined m index facts w e h = record {
  sorted = ground (arith, insert-IsSorted index tt w.seen h.sorted);
  range =
      let (lo, hi) = function_range m index facts e in
      ground
        (arith, insert-InRange (defined_base m) (function_count m) index tt w.seen lo hi h.range);
}

walk-SeesDefined :
    (m : Module) (room : ℕ) (path : List ℕ) (index : ℕ) (w : Walked)
    → SeesDefined m w
    → SeesDefined m (walk m room path index w)
unfolding count_host flag
walk-SeesDefined m =
    walk_inv m (SeesDefined m) (λ host w h. record { sorted = h.sorted; range = h.range })
      (body-SeesDefined m) (λ w h. record { sorted = h.sorted; range = h.range })

-- An entrypoint reaches no more functions than the module defines.
pub functions-le :
    (m : Module) (name : String) (root : ℕ)
    → (estimate_entry m name root).functions ≤ length m.functions
unfolding estimate_entry
functions-le m name root =
    let h =
      walk-SeesDefined m (max_depth + 1) [] root (start name)
        (record { sorted = tt; range = tt }) in
    omega
      (arith, length-le-range (defined_base m) (function_count m) _ (omega arith) h.sorted h.range)
