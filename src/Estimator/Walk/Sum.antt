-- ===== src/Estimator/Walk/Sum.antt =====
-- The counters of `walk` in soroban-budget/src/estimate.rs and the tree of static calls.
use soroban_fuzzer.Prelude.{
  ℕ, zero, suc, ◌+◌, ◌≡◌, refl, inl, inr, Bool, false, none, some, List, [], ◌∷◌, foldl, arith,
  length, Option-cases, In, String, ◌∙◌,
}
use soroban_fuzzer.Estimator.Module.Facts.{FunctionFacts, Module, function, host_import}
use soroban_fuzzer.Estimator.Estimate.{
  in_recursion, unbounded_ord, Walked, flag, visit, attribute, count_host, add_body, flag_if,
  host_name, walk, start, max_depth, estimate_entry,
}
use soroban_fuzzer.Estimator.Walk.Invariant.{reports}
use soroban_fuzzer.Estimator.Walk.Fits.{
  Fits, Fits-Calls, Fits-acyclic, AllReach, not_on_path, extend_path, walk_calls, recursion_iff,
}
use soroban_fuzzer.Prelude.{ltb, subst}
use soroban_fuzzer.Estimator.Estimate.{in_loops, in_indirect_calls, Unbounded}
use soroban_fuzzer.Estimator.Module.Facts.{full_name}

-- The sum over the call tree of a function and over the trees of several: `weight` of every body,
-- `leaf` of everything called that has none.
mutual
  pub data TreeSum (m : Module) (leaf : ℕ → ℕ) (weight : FunctionFacts → ℕ) : ℕ → ℕ → Type 0 where
    no_body : (i : ℕ) → function m i ≡ none → TreeSum m leaf weight i (leaf i)
    body :
        (i : ℕ) (facts : FunctionFacts) (n : ℕ)
        → function m i ≡ some facts
        → TreeSums m leaf weight facts.calls n
        → TreeSum m leaf weight i (weight facts + n)

  pub data TreeSums (m : Module) (leaf : ℕ → ℕ) (weight : FunctionFacts → ℕ)
      : List ℕ → ℕ → Type 0 where
    done : TreeSums m leaf weight [] zero
    more :
        (c : ℕ) (cs : List ℕ) (a b : ℕ)
        → TreeSum m leaf weight c a
        → TreeSums m leaf weight cs b
        → TreeSums m leaf weight (c ∷ cs) (a + b)

module _ (m : Module) (leaf : ℕ → ℕ) (weight : FunctionFacts → ℕ) (counter : Walked → ℕ)
    (at_leaf : (i : ℕ) (w : Walked) → counter (attribute m i w) ≡ counter w + leaf i)
    (at_body : (i : ℕ) (facts : FunctionFacts) (w : Walked)
      → counter (visit m i facts w) ≡ counter w + weight facts) where
  calls_sum :
      (room : ℕ) (path cs : List ℕ)
      → ((c : ℕ)
          → In c cs
          → (w : Walked)
          → (n : ℕ) × TreeSum m leaf weight c n × (counter (walk m room path c w) ≡ counter w + n))
      → (w : Walked)
      → (n : ℕ) × TreeSums m leaf weight cs n
        × (counter (walk_calls m room path cs w) ≡ counter w + n)
  calls_sum room path [] step w = (0, done, omega arith)
  calls_sum room path (c ∷ cs) step w =
      let (a, ta, ea) = step c (inl refl) w in
      let (b, tb, eb) = calls_sum room path cs (λ c' i. step c' (inr i)) (walk m room path c w) in
      (a + b, more c cs a b ta tb, omega (arith, ea, eb))

  -- A walk that fits adds the sum over its tree to the counter.
  pub walk_sum :
      (room : ℕ) (path : List ℕ) (index : ℕ) (w : Walked)
      → Fits m room index
      → AllReach m path index
      → (n : ℕ) × TreeSum m leaf weight index n
        × (counter (walk m room path index w) ≡ counter w + n)
  unfolding walk
  walk_sum zero path index w f r = absurd f
  walk_sum (suc room) path index w f r =
      rw (not_on_path m index path (Fits-acyclic m (suc room) index f) r)
        (elim (Option-cases (function m index)) [
          | inl e ↦ (leaf index, no_body index e, rw e (at_leaf index w))
          | inr (facts, e) ↦
              let (n, t, s) =
                calls_sum room (index ∷ path) facts.calls
                  (λ c i w'.
                    walk_sum room (index ∷ path) c w' (Fits-Calls m room index c f (facts, e, i))
                      (extend_path m index c path (facts, e, i) r))
                  (visit m index facts w) in
              (
                weight facts + n,
                body index facts n e t,
                rw e (omega (arith, s, at_body index facts w)),
              )
        ])

-- A call of a host import counts one host call.
abbrev pub import_leaf : Module → ℕ → ℕ
import_leaf m i = elim (host_import m i) [ none ↦ 0 | some _ ↦ 1 ]

abbrev pub no_leaf : ℕ → ℕ
no_leaf i = 0

hosts_total :
    (m : Module) (hosts : List ℕ) (w : Walked)
    → (foldl (λ w' h. count_host (host_name m h) w') w hosts).estimate.host_calls_total
      ≡ w.estimate.host_calls_total + length hosts
unfolding count_host
hosts_total m [] w = omega arith
hosts_total m (h ∷ hosts) w = omega (arith, hosts_total m hosts (count_host (host_name m h) w))

-- A counter that host calls leave alone.
hosts_keep :
    (m : Module) (counter : Walked → ℕ)
    → ((host : String) (w : Walked) → counter (count_host host w) ≡ counter w)
    → (hosts : List ℕ) (w : Walked)
    → counter (foldl (λ w' h. count_host (host_name m h) w') w hosts) ≡ counter w
hosts_keep m counter same [] w = refl
hosts_keep m counter same (h ∷ hosts) w =
    hosts_keep m counter same hosts (count_host (host_name m h) w) ∙ same (host_name m h) w

module _ (m : Module) where
  attribute_total :
      (i : ℕ) (w : Walked)
      → (attribute m i w).estimate.host_calls_total ≡ w.estimate.host_calls_total + import_leaf m i
  unfolding attribute count_host
  attribute_total i w = ground arith

  visit_total :
      (i : ℕ) (facts : FunctionFacts) (w : Walked)
      → (visit m i facts w).estimate.host_calls_total
        ≡ w.estimate.host_calls_total + length facts.host_calls
  unfolding visit flag_if flag add_body
  visit_total i facts w = ground (
    arith,
    hosts_total m facts.host_calls (
        flag_if (ltb 0 facts.indirect_calls) in_indirect_calls
          (flag_if (ltb 0 facts.loops) in_loops (add_body i facts w))),
  )

  attribute_keeps :
      (counter : Walked → ℕ)
      → ((host : String) (w : Walked) → counter (count_host host w) ≡ counter w)
      → (i : ℕ) (w : Walked) → counter (attribute m i w) ≡ counter w + no_leaf i
  unfolding attribute
  attribute_keeps counter same i w = elim (Option-cases (host_import m i)) [
    | inl e ↦ rw (e, attribute) (omega arith)
    | inr (h, e) ↦ rw (e, attribute) (omega (arith, same (full_name h) w))
  ]

  visit_adds :
      (counter : Walked → ℕ) (weight : FunctionFacts → ℕ)
      → ((host : String) (w : Walked) → counter (count_host host w) ≡ counter w)
      → ((b : Bool) (r : Unbounded) (w : Walked) → counter (flag_if b r w) ≡ counter w)
      → ((i : ℕ) (facts : FunctionFacts) (w : Walked)
          → counter (add_body i facts w) ≡ counter w + weight facts)
      → (i : ℕ) (facts : FunctionFacts) (w : Walked)
      → counter (visit m i facts w) ≡ counter w + weight facts
  unfolding visit
  visit_adds counter weight hosts flags adds i facts w =
      hosts_keep m counter hosts facts.host_calls _
      ∙ (flags _ in_indirect_calls _ ∙ (flags _ in_loops _ ∙ adds i facts w))

-- Without `Recursion` in it, an entrypoint's estimate is exact about the tree of its static calls:
-- instructions, loop sites and `call_indirect` sites are the sums over the bodies in that tree, and
-- the host calls are the host call sites of the bodies and the imports called as functions.
pub estimate_entry_exact :
    (m : Module) (name : String) (root : ℕ)
    → reports in_recursion (estimate_entry m name root) ≡ false
    → TreeSum m no_leaf (λ f. f.instructions) root (estimate_entry m name root).instructions
      × TreeSum m no_leaf (λ f. f.loops) root (estimate_entry m name root).loops
      × TreeSum m no_leaf (λ f. f.indirect_calls) root (estimate_entry m name root).indirect_calls
      × TreeSum m
          (import_leaf m)
          (λ f. length f.host_calls)
          root
          (estimate_entry m name root).host_calls_total
unfolding estimate_entry count_host flag_if flag add_body
estimate_entry_exact m name root h =
    let fits = (recursion_iff m name root).0 h in
    (
      from (λ w. w.estimate.instructions) (λ f. f.instructions) (λ _ _. refl)
          (λ b r w. ground arith) (λ _ _ _. refl) refl fits,
      from (λ w. w.estimate.loops) (λ f. f.loops) (λ _ _. refl) (λ b r w. ground arith)
          (λ _ _ _. refl) refl fits,
      from (λ w. w.estimate.indirect_calls) (λ f. f.indirect_calls) (λ _ _. refl)
          (λ b r w. ground arith) (λ _ _ _. refl) refl fits,
      zero_sum (import_leaf m) (λ f. length f.host_calls) (λ w. w.estimate.host_calls_total)
          (attribute_total m) (visit_total m) refl fits,
    )
  where
    zero_sum :
        (leaf : ℕ → ℕ) (weight : FunctionFacts → ℕ) (counter : Walked → ℕ)
        → ((i : ℕ) (w : Walked) → counter (attribute m i w) ≡ counter w + leaf i)
        → ((i : ℕ) (facts : FunctionFacts) (w : Walked)
            → counter (visit m i facts w) ≡ counter w + weight facts)
        → counter (start name) ≡ 0
        → Fits m (max_depth + 1) root
        → TreeSum m leaf weight root (counter (walk m (max_depth + 1) [] root (start name)))
    zero_sum leaf weight counter l b z f =
        let (n, t, e) =
          walk_sum m leaf weight counter l b (max_depth + 1) [] root (start name) f tt in
        subst (TreeSum m leaf weight root) (omega arith) t

    from :
        (counter : Walked → ℕ) (weight : FunctionFacts → ℕ)
        → ((host : String) (w : Walked) → counter (count_host host w) ≡ counter w)
        → ((b : Bool) (r : Unbounded) (w : Walked) → counter (flag_if b r w) ≡ counter w)
        → ((i : ℕ) (facts : FunctionFacts) (w : Walked)
            → counter (add_body i facts w) ≡ counter w + weight facts)
        → counter (start name) ≡ 0
        → Fits m (max_depth + 1) root
        → TreeSum m no_leaf weight root (counter (walk m (max_depth + 1) [] root (start name)))
    from counter weight hosts flags adds =
        zero_sum no_leaf weight counter (attribute_keeps m counter hosts)
          (visit_adds m counter weight hosts flags adds)
