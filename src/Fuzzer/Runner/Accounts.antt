-- ===== src/Fuzzer/Runner/Accounts.antt =====
-- `run_case` of soroban-fuzzer/src/runner.rs: the tally of a case, its counter and the note of its
-- failure.
use soroban_fuzzer.Prelude.{ℕ, ◌+◌, ◌≤◌, ◌≡◌, refl, String, true, List, [], ◌∷◌, length, subst, All}
use soroban_fuzzer.Prelude.Order.{Ord, pair_ord}
use soroban_fuzzer.Fuzzer.Storage.Xdr.{Xdr, ScVal}
use soroban_fuzzer.Fuzzer.Journal.{Journal, total_actions, fail, has_failure}
use soroban_fuzzer.Fuzzer.Runtime.Call.{Host, Session, Runtime}
use soroban_fuzzer.Fuzzer.Runner.Case.{
  Attempt, returns, panics, CaseConfig, Ended, done, panicked, CaseTally, Target, CheckCtx,
  Invariant, fail_message, run_case,
}
use soroban_fuzzer.Fuzzer.Runner.Ends.{Settles, Ends, Counted, Noted, Anything, Calm}
use soroban_fuzzer.Fuzzer.Runner.Finished.{run_case-Ends}

Whatever : Journal → String → Type 0
Whatever j message = Unit

any_end : {S A : Type 0} (r : Ended S A) → Ends Anything Whatever r
unfolding Whatever
any_end (done s a) = tt
any_end (panicked j message) = tt

abbrev pub IsReturned : {A : Type 0} → Attempt A → Type 0
IsReturned (returns a) = Unit
IsReturned (panics message) = ⊥

returned-Settles :
    {A : Type 0} (j : Journal) (r : Attempt A) → IsReturned r → Settles Anything (Noted j) r
returned-Settles j (returns a) q = tt
returned-Settles j (panics message) q = absurd q

any_settling : {A : Type 0} (j : Journal) (r : Attempt A) → Settles Anything (Whatever j) r
unfolding Whatever
any_settling j (returns a) = tt
any_settling j (panics message) = tt

-- What a target's `invariants` offers, if it returns.
offers : {A : Type 0} → Attempt (List A) → List A
offers (returns is) = is
offers (panics message) = []

offers-Settles :
    {A : Type 0} (j : Journal) (r : Attempt (List A)) → Settles (λ is. is ≡ offers r) (Whatever j) r
unfolding Whatever offers
offers-Settles j (returns is) = refl
offers-Settles j (panics message) = tt

module _ (x : Xdr) (h : Host x) (t : Target x h) where
  always-Calm : (invariants : List (Invariant x h t)) → Calm x h t Whatever invariants
  unfolding Whatever
  always-Calm invariants = record {
    of_fail = λ kind detail j. tt;
    of_setup = λ j env m. any_settling j (t.setup env m);
    of_tracked = λ j w. any_settling j (t.tracked_contracts w);
    of_next = λ j m action. any_settling j (t.next_state m action);
    of_describe = λ j action. any_settling j (t.describe action);
    of_expects = λ j action. any_settling j (t.expects_rejection action);
    of_kind = λ j action. any_settling j (t.action_kind action);
    of_execute = λ rt w action s. any_end (t.execute rt w action s);
    of_checks = of_list invariants;
  }
    where
      of_list :
          (is : List (Invariant x h t))
          → All
              (λ (i : Invariant x h t).
                (ctx : CheckCtx x h t) (s : Session x h) → Ends Anything Whatever (i.check ctx s))
              is
      of_list [] = tt
      of_list (i ∷ is) = ((λ ctx s. any_end (i.check ctx s)), of_list is)

  -- A case that comes to its end has counted every action exactly once, as accepted, as an expected
  -- or as an unexpected rejection; it has a kind for every unexpected rejection; and the shrinker's
  -- counter has grown by the number of actions. However the case ends, the counter has grown by no
  -- more than that.
  pub run_case_accounts :
      ⦃a : Ord x.Address⦄ ⦃v : Ord (ScVal x)⦄ (config : CaseConfig)
      (offered : Attempt (List (Invariant x h t))) (env : h.Env) (journal : Journal)
      (initial : t.State) (actions : List t.Action) (seen : ℕ)
      → let r = run_case x h t config offered env journal initial actions seen in
        ((s : Session x h) (k : CaseTally)
          → r.0 ≡ done s k
          → (total_actions k.stats ≡ length actions)
            × (length k.unexpected_rejection_kinds ≡ k.stats.unexpected_rejections)
            × (r.1 ≡ seen + length actions))
        × (r.1 ≤ seen + length actions)
  run_case_accounts config offered env journal initial actions seen =
      let r = run_case x h t config offered env journal initial actions seen in
      let b =
        run_case-Ends x h t Whatever (offers offered) (always-Calm (offers offered)) config offered
          env journal initial actions seen (offers-Settles journal offered) in
      (
        λ s k e.
            let q =
              subst
                (Ends (λ k. Counted (length actions) k × (r.1 ≡ seen + length actions)) Whatever) e
                b.0 in
            (q.0.0, q.0.1, q.1),
        b.1,
      )

  -- The methods of a target return, but for `execute`.
  pub record AlwaysReturns : Type 0 where
    pub setup_returns : (env : h.Env) (m : t.State) → IsReturned (t.setup env m)
    pub tracked_contracts_returns : (w : t.World) → IsReturned (t.tracked_contracts w)
    pub next_state_returns : (m : t.State) (action : t.Action) → IsReturned (t.next_state m action)
    pub describe_returns : (action : t.Action) → IsReturned (t.describe action)
    pub expects_rejection_returns : (action : t.Action) → IsReturned (t.expects_rejection action)
    pub action_kind_returns : (action : t.Action) → IsReturned (t.action_kind action)

  -- If `invariants` and the target's other methods return, `execute` aside, and neither `execute` nor
  -- a check panics of its own accord without a note in the journal, then every case that ends by a
  -- panic has left a note of its failure, from which the panic's message is made.
  pub run_case-Noted :
      ⦃a : Ord x.Address⦄ ⦃v : Ord (ScVal x)⦄ (config : CaseConfig)
      (invariants : List (Invariant x h t)) (env : h.Env) (journal : Journal) (initial : t.State)
      (actions : List t.Action) (seen : ℕ)
      → AlwaysReturns
      → ((rt : Runtime x h) (w : t.World) (action : t.Action) (s : Session x h)
          → Ends Anything Noted (t.execute rt w action s))
      → All
          (λ (i : Invariant x h t).
            (ctx : CheckCtx x h t) (s : Session x h) → Ends Anything Noted (i.check ctx s))
          invariants
      → (j : Journal) (message : String)
      → (run_case x h t config (returns invariants) env journal initial actions seen).0
        ≡ panicked j message
      → (has_failure j ≡ true) × (message ≡ fail_message j)
  run_case-Noted config invariants env journal initial actions seen r calm_execute calm_checks j
        message e =
      let calm : Calm x h t Noted invariants = record {
        of_fail = λ kind detail j'. (unfold fail has_failure in refl, refl);
        of_setup = λ j' env' m. returned-Settles j' _ (r.setup_returns env' m);
        of_tracked = λ j' w. returned-Settles j' _ (r.tracked_contracts_returns w);
        of_next = λ j' m action. returned-Settles j' _ (r.next_state_returns m action);
        of_describe = λ j' action. returned-Settles j' _ (r.describe_returns action);
        of_expects = λ j' action. returned-Settles j' _ (r.expects_rejection_returns action);
        of_kind = λ j' action. returned-Settles j' _ (r.action_kind_returns action);
        of_execute = calm_execute;
        of_checks = calm_checks;
      } in
      let end = run_case x h t config (returns invariants) env journal initial actions seen in
      subst (Ends (λ k. Counted (length actions) k × (end.1 ≡ seen + length actions)) Noted) e
        (run_case-Ends x h t Noted invariants calm config (returns invariants) env journal initial
          actions seen refl).0
