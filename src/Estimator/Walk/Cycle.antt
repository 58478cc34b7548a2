-- ===== src/Estimator/Walk/Cycle.antt =====
-- `walk` of soroban-budget/src/estimate.rs on a module whose call graph has a cycle.
use soroban_fuzzer.Prelude.{ℕ, ◌+◌, ◌≡◌, inl, inr, true, String, ◌⊎◌, Bool-cases, subst}
use soroban_fuzzer.Estimator.Module.Facts.{Module}
use soroban_fuzzer.Estimator.Estimate.{in_recursion, unbounded_ord, max_depth, estimate_entry}
use soroban_fuzzer.Estimator.Walk.Invariant.{reports}
use soroban_fuzzer.Estimator.Walk.Fits.{Fits, Reaches, Fits-Reaches, Fits-acyclic, recursion_iff}

no_fit :
    (m : Module) (root i : ℕ)
    → (root ≡ i) ⊎ Reaches m root i
    → Reaches m i i
    → ¬ Fits m (max_depth + 1) root
no_fit m root i (inl e) r f =
    Fits-acyclic m (max_depth + 1) i (subst (Fits m (max_depth + 1)) e f) r
no_fit m root i (inr p) r f =
    let (q, less, f') = Fits-Reaches m (max_depth + 1) root i f p in Fits-acyclic m q i f' r

-- If a function that calls itself, directly or through others, is the entrypoint or is reached from
-- it, the estimate reports `Recursion`.
pub cycle_is_reported :
    (m : Module) (name : String) (root i : ℕ)
    → (root ≡ i) ⊎ Reaches m root i
    → Reaches m i i
    → reports in_recursion (estimate_entry m name root) ≡ true
cycle_is_reported m name root i p r =
    elim (Bool-cases (reports in_recursion (estimate_entry m name root))) [
      | inl e ↦ e
      | inr e ↦ absurd (no_fit m root i p r ((recursion_iff m name root).0 e))
    ]
