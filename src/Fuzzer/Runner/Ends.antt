-- ===== src/Fuzzer/Runner/Ends.antt =====
-- The parts of `run_case` in soroban-fuzzer/src/runner.rs, by the ways in which they can end.
use soroban_fuzzer.Prelude.{
  ℕ, ◌+◌, ◌≡◌, refl, String, Bool, true, false, List, [], ◌∷◌, arith, length, length-append, subst,
  Bool-cases, inl, inr, ◌⊎◌, ◌||◌, All,
}
use soroban_fuzzer.Prelude.Order.{Ord, pair_ord}
use soroban_fuzzer.Fuzzer.Storage.Xdr.{Xdr, ScVal}
use soroban_fuzzer.Fuzzer.Storage.Diff.{StorageDelta, delta_is_empty}
use soroban_fuzzer.Fuzzer.Journal.{Journal, total_actions, fail, has_failure}
use soroban_fuzzer.Fuzzer.Runtime.Outcome.{StepOutcome, went_ok, rejected, violation, is_violation}
use soroban_fuzzer.Fuzzer.Runtime.Call.{Host, Session, Runtime}
use soroban_fuzzer.Fuzzer.Runner.Case.{
  Attempt, returns, panics, ◌>>=◌, attempt, count_by, count_rejected, then_execute, Ended, done,
  panicked, Verdict, holds, broken, CaseTally, Target, CheckCtx, Invariant, fail_case, fail_message,
  judge, skips, check_each, host_reclaimed, check_read_only, delta_between, then_read_only,
  check_invariants, count_outcome, judge_outcome, CaseSetup, then_keep, then_check, then_judge,
  run_action,
}

-- `P` of the value that a part ended with, `Q` of the journal and the message of a panic.
abbrev pub Ends : {S A : Type 0} → (A → Type 0) → (Journal → String → Type 0) → Ended S A → Type 0
Ends P Q (done s a) = P a
Ends P Q (panicked j message) = Q j message

-- The tally counts `n` actions, and has a kind for every unexpected rejection.
abbrev pub Counted : ℕ → CaseTally → Type 0
Counted n c =
    (total_actions c.stats ≡ n)
    × (length c.unexpected_rejection_kinds ≡ c.stats.unexpected_rejections)

-- The journal has the note of a failure, and the panic's message is made of it.
abbrev pub Noted : Journal → String → Type 0
Noted j message = (has_failure j ≡ true) × (message ≡ fail_message j)

abbrev pub Anything : {A : Type 0} → A → Type 0
Anything a = Unit

-- `P` of the value that a method returns, `R` of the message of its panic.
abbrev pub Settles : {A : Type 0} → (A → Type 0) → (String → Type 0) → Attempt A → Type 0
Settles P R (returns a) = P a
Settles P R (panics message) = R message

pub >>=-Settles :
    {A B : Type 0} (P : B → Type 0) (R : String → Type 0) (m : Attempt A) (f : A → Attempt B)
    → Settles Anything R m
    → ((a : A) → Settles P R (f a))
    → Settles P R (m >>= f)
>>=-Settles P R (returns a) f q keeps = keeps a
>>=-Settles P R (panics message) f q keeps = q

pub Ended-cases :
    {S A : Type 0} (r : Ended S A)
    → ((s : S) × (a : A) × (r ≡ done s a))
      ⊎ ((j : Journal) × (message : String) × (r ≡ panicked j message))
Ended-cases (done s a) = inl (s, a, refl)
Ended-cases (panicked j message) = inr (j, message, refl)

module _ (x : Xdr) (h : Host x) (t : Target x h) (Q : Journal → String → Type 0) where
  -- Neither a method of the target nor a check panics in a way that `Q` does not hold of.
  pub record Calm (invariants : List (Invariant x h t)) : Type 0 where
    pub of_fail :
        (kind detail : String) (j : Journal)
        → Q (fail kind detail j) (fail_message (fail kind detail j))
    pub of_setup :
        (j : Journal) (env : h.Env) (m : t.State) → Settles Anything (Q j) (t.setup env m)
    pub of_tracked : (j : Journal) (w : t.World) → Settles Anything (Q j) (t.tracked_contracts w)
    pub of_next :
        (j : Journal) (m : t.State) (action : t.Action)
        → Settles Anything (Q j) (t.next_state m action)
    pub of_describe : (j : Journal) (action : t.Action) → Settles Anything (Q j) (t.describe action)
    pub of_expects :
        (j : Journal) (action : t.Action) → Settles Anything (Q j) (t.expects_rejection action)
    pub of_kind : (j : Journal) (action : t.Action) → Settles Anything (Q j) (t.action_kind action)
    pub of_execute :
        (rt : Runtime x h) (w : t.World) (action : t.Action) (s : Session x h)
        → Ends Anything Q (t.execute rt w action s)
    pub of_checks :
        All
          (λ (i : Invariant x h t).
            (ctx : CheckCtx x h t) (s : Session x h) → Ends Anything Q (i.check ctx s))
          invariants

  module _ (invariants : List (Invariant x h t)) (calm : Calm invariants) where
    pub attempt-Ends :
        {A : Type 0} (P : A → Type 0) (r : Attempt A) (s : Session x h)
        → Settles P (Q s.journal) r
        → Ends P Q (attempt x h t r s)
    unfolding attempt
    attempt-Ends P (returns a) s q = q
    attempt-Ends P (panics message) s q = q

    judge-Ends :
        (name : String) (r : Ended (Session x h) Verdict)
        → Ends Anything Q r
        → Ends Anything Q (judge x h t name r)
    unfolding judge fail_case
    judge-Ends name (done s holds) q = tt
    judge-Ends name (done s (broken detail)) q = calm.of_fail "invariant" _ s.journal
    judge-Ends name (panicked j message) q = q

    check_each-Ends :
        (is : List (Invariant x h t)) (ctx : CheckCtx x h t) (s : Session x h)
        → All
            (λ (i : Invariant x h t).
              (ctx : CheckCtx x h t) (s : Session x h) → Ends Anything Q (i.check ctx s))
            is
        → Ends Anything Q (check_each x h t is ctx s)
    unfolding check_each
    check_each-Ends [] ctx s q = tt
    check_each-Ends (i ∷ is) ctx s q = elim (Bool-cases (skips x h t ctx i)) [
      | inl e ↦ rw e (check_each-Ends is ctx s q.1)
      | inr e ↦
          let b = judge-Ends i.name (i.check ctx s) (q.0 ctx s) in
          elim (Ended-cases (judge x h t i.name (i.check ctx s))) [
            | inl (s', u, d) ↦ rw (e, d) (check_each-Ends is ctx s' q.1)
            | inr (j, m, d) ↦ rw (e, d) (subst (Ends Anything Q) d b)
          ]
    ]

    module _ ⦃a : Ord x.Address⦄ ⦃v : Ord (ScVal x)⦄ where
      check_read_only-Ends :
          (d : StorageDelta) (s : Session x h) → Ends Anything Q (check_read_only x h t d s)
      unfolding check_read_only fail_case
      check_read_only-Ends d s = elim (Bool-cases (delta_is_empty d || host_reclaimed x h t d)) [
        | inl e ↦ rw e tt
        | inr e ↦ rw e (calm.of_fail "invariant" _ s.journal)
      ]

      then_read_only-Ends :
          (scoped : List x.Address) (before : h.Env) (r : Ended (Session x h) (Unit {0}))
          → Ends Anything Q r
          → Ends Anything Q (then_read_only x h t scoped before r)
      unfolding then_read_only
      then_read_only-Ends scoped before (done s u) q =
          check_read_only-Ends (delta_between x h t scoped before s.env) s
      then_read_only-Ends scoped before (panicked j m) q = q

      pub check_invariants-Ends :
          (scoped : List x.Address) (ctx : CheckCtx x h t) (s : Session x h)
          → Ends Anything Q (check_invariants x h t invariants scoped ctx s)
      unfolding check_invariants
      check_invariants-Ends scoped ctx s = of_list invariants calm.of_checks
        where
          of_list :
              (is : List (Invariant x h t))
              → All
                  (λ (i : Invariant x h t).
                    (ctx : CheckCtx x h t) (s : Session x h) → Ends Anything Q (i.check ctx s))
                  is
              → Ends Anything Q (check_invariants x h t is scoped ctx s)
          of_list [] q = tt
          of_list (i ∷ is) q = then_read_only-Ends scoped s.env _ (check_each-Ends (i ∷ is) ctx s q)

      count_unexpected-Settles :
          (expected : Bool) (action : t.Action) (j : Journal) (c : CaseTally) (n : ℕ)
          → Counted n c
          → Settles (Counted (n + 1)) (Q j) (count_by x h t action c expected)
      unfolding count_by total_actions
      count_unexpected-Settles true action j c n k = (omega (arith, k.0), k.1)
      count_unexpected-Settles false action j c n k =
          >>=-Settles (Counted (n + 1)) (Q j) (t.action_kind action) _ (calm.of_kind j action)
            (λ kind. (
              omega (arith, k.0),
              omega (arith, k.1, length-append c.unexpected_rejection_kinds (kind ∷ [])),
            ))

      count_outcome-Settles :
          (action : t.Action) (o : StepOutcome) (j : Journal) (c : CaseTally) (n : ℕ)
          → Counted n c
          → is_violation o ≡ false
          → Settles (Counted (n + 1)) (Q j) (count_outcome x h t action o c)
      unfolding count_outcome count_rejected total_actions is_violation
      count_outcome-Settles action went_ok j c n k e = (omega (arith, k.0), k.1)
      count_outcome-Settles action (rejected reason) j c n k e =
          >>=-Settles (Counted (n + 1)) (Q j) (t.expects_rejection action) (count_by x h t action c)
            (calm.of_expects j action)
            (λ expected. count_unexpected-Settles expected action j c n k)
      count_outcome-Settles action (violation reason) j c n k e = cc

      judge_outcome-Ends :
          (action : t.Action) (o : StepOutcome) (c : CaseTally) (n : ℕ) (s : Session x h)
          → Counted n c
          → Ends (Counted (n + 1)) Q (judge_outcome x h t action o c s)
      unfolding judge_outcome fail_case is_violation
      judge_outcome-Ends action went_ok c n s k =
          attempt-Ends (Counted (n + 1)) (count_outcome x h t action went_ok c) s
            (count_outcome-Settles action went_ok s.journal c n k refl)
      judge_outcome-Ends action (rejected reason) c n s k =
          attempt-Ends (Counted (n + 1)) (count_outcome x h t action (rejected reason) c) s
            (count_outcome-Settles action (rejected reason) s.journal c n k refl)
      judge_outcome-Ends action (violation reason) c n s k =
          calm.of_fail "unexpected-error" reason s.journal

      then_keep-Ends :
          (n : ℕ) (k : CaseTally) (r : Ended (Session x h) (Unit {0}))
          → Counted n k
          → Ends Anything Q r
          → Ends (Counted n) Q (then_keep x h t k r)
      unfolding then_keep
      then_keep-Ends n k (done s u) counted q = counted
      then_keep-Ends n k (panicked j m) counted q = q

      then_check-Ends :
          (c : CaseSetup x h t) (index n : ℕ) (model : t.State) (action : t.Action)
          (r : Ended (Session x h) CaseTally)
          → c.invariants ≡ invariants
          → Ends (Counted n) Q r
          → Ends (Counted n) Q (then_check x h t c index model action r)
      unfolding then_check
      then_check-Ends c index n model action (done s k) e counted =
          then_keep-Ends n k _ counted (rw e (check_invariants-Ends c.scoped _ s))
      then_check-Ends c index n model action (panicked j m) e q = q

      then_judge-Ends :
          (c : CaseSetup x h t) (index n : ℕ) (model : t.State) (action : t.Action) (k : CaseTally)
          (r : Ended (Session x h) StepOutcome)
          → c.invariants ≡ invariants
          → Counted n k
          → Ends Anything Q r
          → Ends (Counted (n + 1)) Q (then_judge x h t c index model action k r)
      unfolding then_judge
      then_judge-Ends c index n model action k (done s o) e counted q =
          then_check-Ends c index (n + 1) model action _ e
            (judge_outcome-Ends action o k n _ counted)
      then_judge-Ends c index n model action k (panicked j m) e counted q = q

      then_execute-Ends :
          (c : CaseSetup x h t) (index n : ℕ) (model : t.State) (action : t.Action) (k : CaseTally)
          (r : Ended (Session x h) String)
          → c.invariants ≡ invariants
          → Counted n k
          → Ends Anything Q r
          → Ends (Counted (n + 1)) Q (then_execute x h t c index model action k r)
      unfolding then_execute
      then_execute-Ends c index n model action k (done s description) e counted q =
          then_judge-Ends c index n model action k _ e counted (calm.of_execute _ c.world action _)
      then_execute-Ends c index n model action k (panicked j m) e counted q = q

      pub run_action-Ends :
          (c : CaseSetup x h t) (index n : ℕ) (model : t.State) (action : t.Action) (k : CaseTally)
          (s : Session x h)
          → c.invariants ≡ invariants
          → Counted n k
          → Ends (Counted (n + 1)) Q (run_action x h t c index model action k s)
      unfolding run_action
      run_action-Ends c index n model action k s e counted =
          then_execute-Ends c index n model action k _ e counted
            (attempt-Ends Anything (t.describe action) s (calm.of_describe s.journal action))
