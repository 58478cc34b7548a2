-- ===== src/Fuzzer/Runner/Runs.antt =====
-- The tally of a run of soroban-fuzzer/src/runner.rs.
use soroban_fuzzer.Prelude.{
  ℕ, ◌+◌, ◌≡◌, refl, String, Option, none, some, List, [], ◌∷◌, arith, length, subst, sym, inl, inr,
}
use soroban_fuzzer.Prelude.Order.{Ord, string_ord, pair_ord}
use soroban_fuzzer.Prelude.BTree.{BTreeMap, bump, total, total-bump}
use soroban_fuzzer.Fuzzer.Storage.Xdr.{Xdr, ScVal}
use soroban_fuzzer.Fuzzer.Resources.{saturating_add}
use soroban_fuzzer.Fuzzer.Journal.{Journal, total_actions}
use soroban_fuzzer.Fuzzer.Runtime.Call.{Host, Session}
use soroban_fuzzer.Fuzzer.Runner.Case.{
  Attempt, CaseConfig, Ended, CaseTally, Target, Invariant, run_case,
}
use soroban_fuzzer.Fuzzer.Runner.Tally.{
  Tally, new_tally, count_kinds, absorb, RunState, is_skipped, settle, run_generated, run_cases,
  stop_or,
}
use soroban_fuzzer.Fuzzer.Runner.Ends.{Ended-cases}
use soroban_fuzzer.Fuzzer.Runner.Accounts.{run_case_accounts}

total-count_kinds :
    (m : BTreeMap String ℕ) (kinds : List String)
    → total (count_kinds m kinds) ≡ total m + length kinds
unfolding count_kinds
total-count_kinds m [] = omega arith
total-count_kinds m (kind ∷ kinds) =
    omega (arith, total-count_kinds (bump kind m) kinds, total-bump kind m)

-- `n` actions are in the tally, and its counts by kind sum up to the unexpected rejections.
abbrev pub Adds : ℕ → Tally → Type 0
Adds n t =
    (total_actions t.stats ≡ n)
    × (total t.unexpected_rejections_by_kind ≡ t.stats.unexpected_rejections)

absorb-Adds :
    (c : CaseTally) (t : Tally) (m n : ℕ)
    → total_actions c.stats ≡ m
    → length c.unexpected_rejection_kinds ≡ c.stats.unexpected_rejections
    → Adds n t
    → Adds (n + m) (absorb c t)
unfolding absorb total_actions
absorb-Adds c t m n e k q = (
  omega (arith, e, q.0),
  omega (
    arith,
    k,
    q.1,
    total-count_kinds t.unexpected_rejections_by_kind c.unexpected_rejection_kinds,
  ),
)

-- A run that passes has gone on.
passes-stop_or :
    (o : Option String) (r : RunState) (rest : RunState × Option String)
    → (stop_or o r rest).1 ≡ none
    → (o ≡ none) × (stop_or o r rest ≡ rest)
unfolding stop_or
passes-stop_or none r rest e = (refl, refl)
passes-stop_or (some message) r rest e = cc

module _ (x : Xdr) (h : Host x) (t : Target x h) ⦃a : Ord x.Address⦄ ⦃v : Ord (ScVal x)⦄ where
  abbrev pub Generated : Type 0
  Generated = t.State × List t.Action

  -- The actions of all cases.
  abbrev pub action_count : List Generated → ℕ
  action_count [] = 0
  action_count (g ∷ gs) = length g.1 + action_count gs

  generated-Adds :
      (config : CaseConfig) (invariants : Attempt (List (Invariant x h t))) (env : h.Env)
      (g : Generated) (r : RunState) (n : ℕ)
      → (run_generated x h t config none invariants env g r).1 ≡ none
      → Adds n r.tally
      → Adds (n + length g.1) (run_generated x h t config none invariants env g r).0.tally
  unfolding run_generated is_skipped settle
  generated-Adds config invariants env (initial, actions) r n e q =
      let b = run_case_accounts x h t config invariants env r.journal initial actions 0 in
      let end = (run_case x h t config invariants env r.journal initial actions 0).0 in
      elim (Ended-cases end) [
        | inl (s, k, d) ↦
            let (e1, e2, _) = b.0 s k d in rw d (absorb-Adds k r.tally (length actions) n e1 e2 q)
        | inr (j, message, d) ↦
            let e' =
              subst
                (λ (z : Ended (Session x h) CaseTally).
                  (settle x h t (record r { index = saturating_add r.index 1 }) z).1 ≡ none)
                d e in
            cc e'
      ]

  passed-Adds :
      (config : CaseConfig) (invariants : Attempt (List (Invariant x h t))) (env : h.Env)
      (gs : List Generated) (r : RunState) (n : ℕ)
      → (run_cases x h t config none invariants env gs r).1 ≡ none
      → Adds n r.tally
      → Adds (n + action_count gs) (run_cases x h t config none invariants env gs r).0.tally
  unfolding run_cases
  passed-Adds config invariants env [] r n e q = (omega (arith, q.0), q.1)
  passed-Adds config invariants env (g ∷ gs) r n e q =
      let step = run_generated x h t config none invariants env g r in
      let rest = run_cases x h t config none invariants env gs step.0 in
      let (passed, goes_on) = passes-stop_or step.1 step.0 rest e in
      let here = generated-Adds config invariants env g r n passed q in
      let after =
        passed-Adds config invariants env gs step.0 (n + length g.1)
          (subst (λ (z : RunState × Option String). z.1 ≡ none) goes_on e) here in
      subst (λ (z : RunState × Option String). Adds (n + action_count (g ∷ gs)) z.0.tally)
        (sym goes_on) (omega (arith, after.0), after.1)

  -- A run that passes has counted every action of every case exactly once, as accepted, as an
  -- expected or as an unexpected rejection, and its counts by kind sum up to the unexpected
  -- rejections.
  pub passed_run_accounts :
      (config : CaseConfig) (invariants : Attempt (List (Invariant x h t))) (env : h.Env)
      (gs : List Generated) (journal : Journal)
      → let r =
          run_cases x h t config none invariants env gs
            (record { index = 0; tally = new_tally; journal = journal }) in
        r.1 ≡ none
        → (total_actions r.0.tally.stats ≡ action_count gs)
          × (total r.0.tally.unexpected_rejections_by_kind ≡ r.0.tally.stats.unexpected_rejections)
  unfolding total_actions
  passed_run_accounts config invariants env gs journal e =
      let b =
        passed-Adds config invariants env gs
          (record { index = 0; tally = new_tally; journal = journal }) 0 e (refl, refl) in
      (omega (arith, b.0), b.1)
