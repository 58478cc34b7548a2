-- ===== src/Fuzzer/Runner/Finished.antt =====
-- `run_case` of soroban-fuzzer/src/runner.rs and its counter, by the ways in which a case can end.
use soroban_fuzzer.Prelude.{ℕ, ◌+◌, ◌≤◌, ◌≡◌, refl, String, none, List, [], ◌∷◌, arith, length}
use soroban_fuzzer.Prelude.Order.{Ord, pair_ord}
use soroban_fuzzer.Fuzzer.Storage.Xdr.{Xdr, ScVal}
use soroban_fuzzer.Fuzzer.Journal.{Journal, total_actions, reset}
use soroban_fuzzer.Fuzzer.Runtime.Call.{Host, Session}
use soroban_fuzzer.Fuzzer.Runner.Case.{
  Attempt, returns, panics, attempt, prepare, apply_auth_policy, CaseConfig, Ended, done, panicked,
  CaseTally, no_tally, Target, CheckCtx, Invariant, check_invariants, CaseSetup, run_action,
  run_actions, run_case, go_on,
}
use soroban_fuzzer.Fuzzer.Runner.Ends.{
  Settles, >>=-Settles, attempt-Ends, Ends, Counted, Anything, Calm, check_invariants-Ends,
  run_action-Ends,
}

module _ (x : Xdr) (h : Host x) (t : Target x h) ⦃a : Ord x.Address⦄ ⦃v : Ord (ScVal x)⦄
    (Q : Journal → String → Type 0) (invariants : List (Invariant x h t))
    (calm : Calm x h t Q invariants) where
  -- How a run of actions ends, with its counter.
  Finished : ℕ → ℕ → Ended (Session x h) CaseTally × ℕ → Type 0
  Finished m z r = Ends (λ k. Counted m k × (r.1 ≡ z)) Q r.0 × (r.1 ≤ z)

  go_on-Finished :
      {A : Type 0} (P : A → Type 0) (m z seen : ℕ)
      (next : Session x h → A → Ended (Session x h) CaseTally × ℕ) (r : Ended (Session x h) A)
      → ((s : Session x h) (b : A) → P b → Finished m z (next s b))
      → seen ≤ z
      → Ends P Q r
      → Finished m z (go_on x h t next seen r)
  unfolding go_on Finished
  go_on-Finished P m z seen next (done s b) keeps less q = keeps s b q
  go_on-Finished P m z seen next (panicked j message) keeps less q = (q, less)

  abbrev ready_for : CaseSetup x h t → Session x h → Session x h
  ready_for c s = record s { env = apply_auth_policy x h t c.config.auth s.env }

  abbrev first_check : CaseSetup x h t → t.State → CheckCtx x h t
  first_check c initial = record { world = c.world; model = initial; action = none; step = 0 }

  run_actions-Finished :
      (c : CaseSetup x h t) (index : ℕ) (model : t.State) (actions : List t.Action) (seen n m z : ℕ)
      (k : CaseTally) (s : Session x h)
      → c.invariants ≡ invariants
      → Counted n k
      → n + length actions ≡ m
      → seen + length actions ≡ z
      → Finished m z (run_actions x h t c index model actions seen k s)
  unfolding run_actions Finished
  run_actions-Finished c index model [] seen n m z k s e counted em ez =
      (((omega (arith, counted.0), counted.1), omega arith), omega arith)
  run_actions-Finished c index model (action ∷ rest) seen n m z k s e counted em ez =
      go_on-Finished Anything m z (seen + 1) _
        (attempt x h t (t.next_state model action) (ready_for c s))
        (λ s1 model' u.
          go_on-Finished (Counted (n + 1)) m z (seen + 1)
            (λ s2 k'. run_actions x h t c (index + 1) model' rest (seen + 1) k' s2)
            (run_action x h t c index model' action k s1)
            (λ s2 k' counted'.
              run_actions-Finished c (index + 1) model' rest (seen + 1) (n + 1) m z k' s2 e counted'
                (omega arith) (omega arith))
            (omega arith)
            (run_action-Ends x h t Q invariants calm c index n model' action k s1 e counted))
        (omega arith)
        (attempt-Ends x h t Q invariants calm Anything (t.next_state model action) (ready_for c s)
          (calm.of_next s.journal model action))

  -- The invariants that the setup of a case keeps are the ones offered.
  Keeps : h.Env × CaseSetup x h t → Type 0
  Keeps ready = ready.1.invariants ≡ invariants

  prepare-Settles :
      (config : CaseConfig) (offered : Attempt (List (Invariant x h t))) (env : h.Env)
      (journal : Journal) (initial : t.State)
      → Settles (λ is. is ≡ invariants) (Q journal) offered
      → Settles Keeps (Q journal) (prepare x h t config offered env initial)
  unfolding prepare Keeps
  prepare-Settles config (panics message) env journal initial q =
      >>=-Settles Keeps (Q journal) (t.setup env initial) _ (calm.of_setup journal env initial)
        (λ ready. q)
  prepare-Settles config (returns is) env journal initial q =
      >>=-Settles Keeps (Q journal) (t.setup env initial) _ (calm.of_setup journal env initial)
        (λ ready.
          >>=-Settles Keeps (Q journal) (t.tracked_contracts ready.1) _
            (calm.of_tracked journal ready.1) (λ scoped. q))

  pub run_case-Ends :
      (config : CaseConfig) (offered : Attempt (List (Invariant x h t))) (env : h.Env)
      (journal : Journal) (initial : t.State) (actions : List t.Action) (seen : ℕ)
      → Settles (λ is. is ≡ invariants) (Q journal) offered
      → let r = run_case x h t config offered env journal initial actions seen in
        Ends (λ k. Counted (length actions) k × (r.1 ≡ seen + length actions)) Q r.0
        × (r.1 ≤ seen + length actions)
  unfolding run_case total_actions Finished Keeps
  run_case-Ends config offered env journal initial actions seen q =
      let z = seen + length actions in
      let before : Session x h = record { env = env; journal = journal } in
      go_on-Finished Keeps (length actions) z seen _
        (attempt x h t (prepare x h t config offered env initial) before)
        (λ s ready e.
          go_on-Finished Anything (length actions) z seen
            (λ s' u. run_actions x h t ready.1 0 initial actions seen no_tally s')
            (check_invariants x h t ready.1.invariants ready.1.scoped (first_check ready.1 initial)
              (record { env = ready.0; journal = reset s.journal }))
            (λ s' u q'.
              run_actions-Finished ready.1 0 initial actions seen 0 (length actions) z no_tally s' e
                (refl, refl) (omega arith) refl)
            (omega arith) (rw e (check_invariants-Ends x h t Q invariants calm ready.1.scoped _ _)))
        (omega arith)
        (attempt-Ends x h t Q invariants calm Keeps (prepare x h t config offered env initial)
          before (prepare-Settles config offered env journal initial q))
