-- ===== src/Estimator/Estimate.antt =====
-- soroban-budget/src/estimate.rs: the walk of the call tree and the estimate of each entrypoint.
use Prim.Native.Nat.{Ordering, compare}
use soroban_fuzzer.Prelude.{
  ℕ, zero, suc, ◌+◌, ◌≡◌, ◌↔◌, String, Bool, none, some, List, [], ◌∷◌, foldl, arith, ltb, ◌==◌,
  if◌then◌else◌, length, any,
}
use soroban_fuzzer.Prelude.Order.{Ord, by_rank, nat_ord, string_ord}
use soroban_fuzzer.Prelude.BTree.{BTreeMap, BTreeSet, bump, set_insert, set_contains}
use soroban_fuzzer.Prelude.Text.{◌<>◌, show_nat}
use soroban_fuzzer.Estimator.Module.Facts.{FunctionFacts, Module, full_name, function, host_import}

pub data Unbounded : Type 0 where
  in_loops in_indirect_calls in_recursion : Unbounded

-- The derived order is the order of declaration.
abbrev pub rank : Unbounded → ℕ
rank in_loops = 0
rank in_indirect_calls = 1
rank in_recursion = 2

pub unbounded_cmp_iff : (a b : Unbounded) → (compare (rank a) (rank b) ≡ Ordering.eq) ↔ (a ≡ b)
unbounded_cmp_iff a b = ground arith

instance abbrev pub unbounded_ord : Ord Unbounded
unbounded_ord = by_rank rank unbounded_cmp_iff

pub record EntryEstimate : Type 0 where
  pub name : String
  pub instructions : ℕ
  pub functions : ℕ
  pub host_calls : BTreeMap String ℕ
  pub host_calls_total : ℕ
  pub unbounded : BTreeSet Unbounded
  pub loops : ℕ
  pub indirect_calls : ℕ

-- `self.unbounded.is_empty()`
abbrev pub is_exact : EntryEstimate → Bool
is_exact e = length e.unbounded == 0

abbrev pub max_depth : ℕ
max_depth = 64

-- What `walk` changes through its two references: the estimate and the functions seen.
pub record Walked : Type 0 where
  pub estimate : EntryEstimate
  pub seen : BTreeSet ℕ

-- `estimate.unbounded.insert(reason)`
unfoldable pub flag : Unbounded → Walked → Walked
unfolding set_insert
flag reason w = record w {
  estimate = record (w.estimate) { unbounded = set_insert reason w.estimate.unbounded };
}

-- `*estimate.host_calls.entry(name).or_insert(0) += 1; estimate.host_calls_total += 1`
unfoldable pub count_host : String → Walked → Walked
unfolding bump
count_host host w = record w {
  estimate = record (w.estimate) {
    host_calls = bump host w.estimate.host_calls;
    host_calls_total = w.estimate.host_calls_total + 1;
  };
}

-- The sums over one body, before its host calls. Their overflow, in a tree of calls that is
-- exponential in its depth, is not modelled.
unfoldable pub add_body : ℕ → FunctionFacts → Walked → Walked
unfolding set_insert
add_body index facts w = record {
  estimate = record (w.estimate) {
    instructions = w.estimate.instructions + facts.instructions;
    loops = w.estimate.loops + facts.loops;
    indirect_calls = w.estimate.indirect_calls + facts.indirect_calls;
  };
  seen = set_insert index w.seen;
}

unfoldable pub flag_if : Bool → Unbounded → Walked → Walked
unfolding flag
flag_if test reason w = if test then flag reason w else w

-- A host call by the import's name, or by its index where no import has it.
unfoldable pub host_name : Module → ℕ → String
unfolding host_import full_name
host_name m host = elim (host_import m host) [
  | some i ↦ full_name i
  | none ↦ "function " <> show_nat host
]

-- Everything that `walk` does for one body before it follows the calls.
unfoldable pub visit : Module → ℕ → FunctionFacts → Walked → Walked
unfolding add_body flag_if count_host host_name
visit m index facts w =
    foldl (λ w' host. count_host (host_name m host) w')
      (flag_if (ltb 0 facts.indirect_calls) in_indirect_calls
        (flag_if (ltb 0 facts.loops) in_loops (add_body index facts w)))
      facts.host_calls

-- A call of, or an export naming, a function that is not defined here.
unfoldable pub attribute : Module → ℕ → Walked → Walked
unfolding host_import full_name count_host
attribute m index w = elim (host_import m index) [ some i ↦ count_host (full_name i) w | none ↦ w ]

-- `walk`, where `room` is `MAX_DEPTH + 1 - depth`: it is 0 exactly when `depth > MAX_DEPTH`. The
-- push before the calls and the pop after them are the longer `path` that the calls are given.
unfoldable pub walk : Module → ℕ → List ℕ → ℕ → Walked → Walked
unfolding flag attribute visit function
walk m zero path index w = flag in_recursion w
walk m (suc room) path index w =
    if any (λ i. i == index) path then flag in_recursion w else elim (function m index) [
      | none ↦ attribute m index w
      | some facts ↦
          foldl (λ w' callee. walk m room (index ∷ path) callee w') (visit m index facts w)
            facts.calls
    ]

abbrev pub start : String → Walked
start name = record {
  estimate = record {
    name = name;
    instructions = 0;
    functions = 0;
    host_calls = [];
    host_calls_total = 0;
    unbounded = [];
    loops = 0;
    indirect_calls = 0;
  };
  seen = [];
}

unfoldable pub estimate_entry : Module → String → ℕ → EntryEstimate
unfolding walk
estimate_entry m name root =
    let w = walk m (max_depth + 1) [] root (start name) in
    record (w.estimate) { functions = length w.seen }

pub record Budget : Type 0 where
  pub path : String
  pub bytes : ℕ
  pub imports : ℕ
  pub functions : ℕ
  pub entries : List EntryEstimate
  pub other_exports : List String

-- The loop of `estimate`: an export of an index that is reported already is skipped.
unfoldable pub estimate_exports : Module → BTreeSet ℕ → List (String × ℕ) → List EntryEstimate
unfolding estimate_entry set_insert set_contains
estimate_exports m reported [] = []
estimate_exports m reported ((name, index) ∷ es) =
    let rest = estimate_exports m (set_insert index reported) es in
    if set_contains index reported then rest else estimate_entry m name index ∷ rest

unfoldable pub estimate : Module → Budget
unfolding estimate_exports
estimate m = record {
  path = m.path;
  bytes = m.bytes;
  imports = length m.imports;
  functions = length m.functions;
  entries = estimate_exports m [] m.exports;
  other_exports = m.other_exports;
}
