-- ===== src/Estimator/Walk/Invariant.antt =====
-- What `walk` of soroban-budget/src/estimate.rs carries from call to call: the flags, the counts by
-- name and the totals.
use soroban_fuzzer.Prelude.{
  ℕ, zero, suc, ◌+◌, ◌≡◌, refl, inl, inr, Bool, true, some, List, [], ◌∷◌, arith, ltb, ◌==◌,
  if◌then◌else◌, any, Bool-cases, Option-cases, foldl_inv, String,
}
use soroban_fuzzer.Prelude.Order.{nat_ord, string_ord, same}
use soroban_fuzzer.Prelude.BTree.{set_contains, contains-insert, total, total-bump}
use soroban_fuzzer.Estimator.Module.Facts.{FunctionFacts, Module, function, host_import}
use soroban_fuzzer.Estimator.Estimate.{
  Unbounded, in_loops, in_indirect_calls, in_recursion, unbounded_ord, EntryEstimate, Walked, flag,
  count_host, add_body, flag_if, host_name, visit, attribute, walk, start, max_depth,
  estimate_entry,
}
use soroban_fuzzer.Prelude.{◌&&◌}

module _ (m : Module) (P : Walked → Type 0)
    (on_host : (host : String) (w : Walked) → P w → P (count_host host w)) where
  pub attribute_inv : (index : ℕ) (w : Walked) → P w → P (attribute m index w)
  unfolding attribute
  attribute_inv index w h = elim (Option-cases (host_import m index)) [
    | inl e ↦ rw (e, attribute) h
    | inr (i, e) ↦ rw (e, attribute) (on_host _ w h)
  ]

  module _
      (on_body : (index : ℕ) (facts : FunctionFacts) (w : Walked)
        → function m index ≡ some facts
        → P w
        → P (
            flag_if
              (ltb 0 facts.indirect_calls)
              in_indirect_calls
              (flag_if (ltb 0 facts.loops) in_loops (add_body index facts w)))) where
    pub visit_inv :
        (index : ℕ) (facts : FunctionFacts) (w : Walked)
        → function m index ≡ some facts
        → P w
        → P (visit m index facts w)
    unfolding visit
    visit_inv index facts w e h =
        foldl_inv P (λ w' host. count_host (host_name m host) w') (λ w' host. on_host _ w')
          facts.host_calls _ (on_body index facts w e h)

    module _ (on_flag : (w : Walked) → P w → P (flag in_recursion w)) where
      pub walk_inv :
          (room : ℕ) (path : List ℕ) (index : ℕ) (w : Walked) → P w → P (walk m room path index w)
      unfolding walk
      walk_inv zero path index w h = on_flag w h
      walk_inv (suc room) path index w h = elim (Bool-cases (any (λ i. i == index) path)) [
        | inl e ↦ rw e (on_flag w h)
        | inr e ↦ rw e (elim (Option-cases (function m index)) [
          | inl e' ↦ rw e' (attribute_inv index w h)
          | inr (facts, e') ↦ rw e' (
              foldl_inv P (λ w' c. walk m room (index ∷ path) c w')
                (λ w' c. walk_inv room (index ∷ path) c w') facts.calls _
                (visit_inv index facts w e' h))
        ])
      ]

-- `reason` is among the reasons collected so far.
abbrev pub flagged : Unbounded → Walked → Bool
flagged reason w = set_contains reason w.estimate.unbounded

pub flagged-flag :
    (r s : Unbounded) (w : Walked) → flagged s (flag r w) ≡ (if same s r then true else flagged s w)
unfolding flag
flagged-flag r s w = contains-insert r s w.estimate.unbounded

-- The body of a function adds the flags of its loops and indirect calls, and no other.
pub flagged-body :
    (index : ℕ) (facts : FunctionFacts) (r : Unbounded) (w : Walked)
    → flagged r (
        flag_if
          (ltb 0 facts.indirect_calls)
          in_indirect_calls
          (flag_if (ltb 0 facts.loops) in_loops (add_body index facts w)))
      ≡ (if ltb 0 facts.indirect_calls && same r in_indirect_calls
          then true
          else if ltb 0 facts.loops && same r in_loops
          then true
          else flagged r w)
unfolding flag_if add_body
flagged-body index facts r w = ground (
  arith,
  flagged-flag in_loops r (add_body index facts w),
  flagged-flag in_indirect_calls r (flag_if (ltb 0 facts.loops) in_loops (add_body index facts w)),
)

flagged-count_host :
    (r : Unbounded) (host : String) (w : Walked) → flagged r (count_host host w) ≡ flagged r w
unfolding count_host
flagged-count_host r host w = refl

-- A reason that was reported stays reported.
pub walk_keeps_flag :
    (m : Module) (r : Unbounded) (room : ℕ) (path : List ℕ) (index : ℕ) (w : Walked)
    → flagged r w ≡ true
    → flagged r (walk m room path index w) ≡ true
walk_keeps_flag m r =
    walk_inv m (λ w. flagged r w ≡ true) (λ host w h. rw flagged-count_host h)
      (λ index facts w e h. ground (arith, flagged-body index facts r w))
      (λ w h. ground (arith, flagged-flag in_recursion r w))

-- One function's own facts never report recursion.
pub attribute_recursion :
    (m : Module) (b : Bool) (index : ℕ) (w : Walked)
    → flagged in_recursion w ≡ b
    → flagged in_recursion (attribute m index w) ≡ b
attribute_recursion m b =
    attribute_inv m (λ w. flagged in_recursion w ≡ b) (λ host w h. rw flagged-count_host h)

pub visit_recursion :
    (m : Module) (b : Bool) (index : ℕ) (facts : FunctionFacts) (w : Walked)
    → function m index ≡ some facts
    → flagged in_recursion w ≡ b
    → flagged in_recursion (visit m index facts w) ≡ b
visit_recursion m b =
    visit_inv m (λ w. flagged in_recursion w ≡ b) (λ host w h. rw flagged-count_host h)
      (λ index facts w e h. ground (arith, flagged-body index facts in_recursion w))

-- The flags say whether the counts are positive, and the host calls by name add up to their total.
pub record IsConsistent (w : Walked) : Type 0 where
  pub loops_flag : flagged in_loops w ≡ ltb 0 w.estimate.loops
  pub indirect_flag : flagged in_indirect_calls w ≡ ltb 0 w.estimate.indirect_calls
  pub host_total : w.estimate.host_calls_total ≡ total w.estimate.host_calls

flag-IsConsistent : (w : Walked) → IsConsistent w → IsConsistent (flag in_recursion w)
unfolding flag
flag-IsConsistent w h = record {
  loops_flag = ground (arith, flagged-flag in_recursion in_loops w, h.loops_flag);
  indirect_flag = ground (arith, flagged-flag in_recursion in_indirect_calls w, h.indirect_flag);
  host_total = h.host_total;
}

count_host-IsConsistent :
    (host : String) (w : Walked) → IsConsistent w → IsConsistent (count_host host w)
unfolding count_host
count_host-IsConsistent host w h = record {
  loops_flag = h.loops_flag;
  indirect_flag = h.indirect_flag;
  host_total = ground (arith, total-bump host w.estimate.host_calls, h.host_total);
}

body-IsConsistent :
    (index : ℕ) (facts : FunctionFacts) (w : Walked)
    → IsConsistent w
    → IsConsistent (
        flag_if
          (ltb 0 facts.indirect_calls)
          in_indirect_calls
          (flag_if (ltb 0 facts.loops) in_loops (add_body index facts w)))
unfolding flag_if add_body flag
body-IsConsistent index facts w h = record {
  loops_flag = ground (arith, flagged-body index facts in_loops w, h.loops_flag);
  indirect_flag = ground (arith, flagged-body index facts in_indirect_calls w, h.indirect_flag);
  host_total = ground (arith, h.host_total);
}

walk-IsConsistent :
    (m : Module) (room : ℕ) (path : List ℕ) (index : ℕ) (w : Walked)
    → IsConsistent w
    → IsConsistent (walk m room path index w)
walk-IsConsistent m =
    walk_inv m IsConsistent count_host-IsConsistent (λ i f w e. body-IsConsistent i f w)
      flag-IsConsistent

abbrev pub reports : Unbounded → EntryEstimate → Bool
reports reason e = set_contains reason e.unbounded

-- Of every entrypoint's estimate: `Loops` is reported exactly when a loop site was counted,
-- `IndirectCalls` exactly when a `call_indirect` site was, and the total of host calls is the sum of
-- the counts by import name.
pub estimate_entry_flags :
    (m : Module) (name : String) (root : ℕ)
    → (reports in_loops (estimate_entry m name root) ≡ ltb 0 (estimate_entry m name root).loops)
      × (reports in_indirect_calls (estimate_entry m name root)
          ≡ ltb 0 (estimate_entry m name root).indirect_calls)
      × ((estimate_entry m name root).host_calls_total
          ≡ total (estimate_entry m name root).host_calls)
unfolding estimate_entry set_contains
estimate_entry_flags m name root =
    let h =
      walk-IsConsistent m (max_depth + 1) [] root (start name)
        (record { loops_flag = refl; indirect_flag = refl; host_total = refl }) in
    (h.loops_flag, h.indirect_flag, h.host_total)
