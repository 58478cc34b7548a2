-- ===== src/Fuzzer/Runner/Case.antt =====
-- soroban-fuzzer/src/runner.rs: `run_case`. A panic of the code is an end of the case that keeps the
-- journal, which the code shares across cases.
mod Parts
mod Checks
unfoldable pub use Parts.*
unfoldable pub use Checks.*
use soroban_fuzzer.Prelude.{ℕ, ◌+◌, String, Bool, true, false, none, some, List, [], ◌∷◌, ◌++◌}
use soroban_fuzzer.Prelude.Order.{Ord, pair_ord}
use soroban_fuzzer.Fuzzer.Storage.Xdr.{Xdr, ScVal}
use soroban_fuzzer.Fuzzer.Journal.{Journal, reset, begin_step, finish_step, ActionStats, no_stats}
use soroban_fuzzer.Fuzzer.Runtime.Outcome.{
  StepOutcome, went_ok, rejected, violation, describe_outcome,
}
use soroban_fuzzer.Fuzzer.Runtime.Call.{Host, Session, Runtime}

-- What one case contributed.
pub record CaseTally : Type 0 where
  pub stats : ActionStats
  pub unexpected_rejection_kinds : List String

abbrev pub no_tally : CaseTally
no_tally = record { stats = no_stats; unexpected_rejection_kinds = [] }

module _ (x : Xdr) (h : Host x) (t : Target x h) ⦃a : Ord x.Address⦄ ⦃v : Ord (ScVal x)⦄ where
  -- A refusal, by whether the target meant it.
  unfoldable pub count_by : t.Action → CaseTally → Bool → Attempt CaseTally
  count_by action c true = returns (record c {
    stats = record (c.stats) { expected_rejections = c.stats.expected_rejections + 1 };
  })
  count_by action c false = do
    kind ← t.action_kind action
    returns (record c {
      stats = record (c.stats) { unexpected_rejections = c.stats.unexpected_rejections + 1 };
      unexpected_rejection_kinds = c.unexpected_rejection_kinds ++ kind ∷ [];
    })

  unfoldable pub count_rejected : t.Action → CaseTally → Attempt CaseTally
  unfolding count_by
  count_rejected action c = t.expects_rejection action >>= count_by action c

  unfoldable pub count_outcome : t.Action → StepOutcome → CaseTally → Attempt CaseTally
  unfolding count_rejected
  count_outcome action went_ok c =
      returns (record c { stats = record (c.stats) { accepted = c.stats.accepted + 1 } })
  count_outcome action (rejected reason) c = count_rejected action c
  count_outcome action (violation reason) c = returns c

  -- A violation fails the case, anything else is counted.
  unfoldable pub judge_outcome :
      t.Action → StepOutcome → CaseTally → Session x h → Ended (Session x h) CaseTally
  unfolding count_outcome fail_case attempt
  judge_outcome action (violation detail) c s = fail_case x h t "unexpected-error" detail s
  judge_outcome action outcome c s = attempt x h t (count_outcome action outcome c) s

  -- The parts of a case that stay the same from action to action.
  pub record CaseSetup : Type 0 where
    pub config : CaseConfig
    pub world : t.World
    pub scoped : List x.Address
    pub invariants : List (Invariant x h t)

  unfoldable pub then_keep :
      CaseTally → Ended (Session x h) (Unit {0}) → Ended (Session x h) CaseTally
  then_keep tally (done s _) = done s tally
  then_keep tally (panicked j message) = panicked j message

  -- After an outcome that is no violation the invariants are checked.
  unfoldable pub then_check :
      CaseSetup
      → ℕ
      → t.State
      → t.Action
      → Ended (Session x h) CaseTally
      → Ended (Session x h) CaseTally
  unfolding then_keep check_invariants
  then_check c index model action (done s tally) = then_keep tally (
      check_invariants x h t c.invariants c.scoped
        (record { world = c.world; model = model; action = some action; step = index }) s)
  then_check c index model action (panicked j message) = panicked j message

  -- After an action that came to an end its outcome is noted and judged.
  unfoldable pub then_judge :
      CaseSetup
      → ℕ
      → t.State
      → t.Action
      → CaseTally
      → Ended (Session x h) StepOutcome
      → Ended (Session x h) CaseTally
  unfolding then_check finish_step describe_outcome judge_outcome
  then_judge c index model action tally (done s outcome) = then_check c index model action (
      judge_outcome action outcome tally
        (record s { journal = finish_step (describe_outcome outcome) s.journal }))
  then_judge c index model action tally (panicked j message) = panicked j message

  -- The action is described, begun and executed.
  unfoldable pub then_execute :
      CaseSetup
      → ℕ
      → t.State
      → t.Action
      → CaseTally
      → Ended (Session x h) String
      → Ended (Session x h) CaseTally
  unfolding begin_step then_judge
  then_execute c index model action tally (done s description) =
      let rt : Runtime x h = record {
        limits = c.config.limits;
        policy = c.config.resources;
        step = index;
        scoped = c.scoped;
      } in
      let begun : Session x h = record s { journal = begin_step index description s.journal } in
      then_judge c index model action tally (t.execute rt c.world action begun)
  then_execute c index model action tally (panicked j message) = panicked j message

  -- One round of the loop of `run_case`, after the counter of actions seen and the next model.
  unfoldable pub run_action :
      CaseSetup → ℕ → t.State → t.Action → CaseTally → Session x h → Ended (Session x h) CaseTally
  unfolding attempt then_execute
  run_action c index model action tally s =
      then_execute c index model action tally (attempt x h t (t.describe action) s)

  -- What follows a part, or the end of the case by its panic with `seen` actions taken up.
  unfoldable pub go_on :
      {A : Type 0}
      → (Session x h → A → Ended (Session x h) CaseTally × ℕ)
      → ℕ
      → Ended (Session x h) A
      → Ended (Session x h) CaseTally × ℕ
  go_on next seen (done s val) = next s val
  go_on next seen (panicked j message) = (panicked j message, seen)

  -- The loop of `run_case`: how it ended, and how many actions it has taken up. The authorizations
  -- are set anew for every action, before the next model is asked for.
  unfoldable pub run_actions :
      CaseSetup
      → ℕ
      → t.State
      → List t.Action
      → ℕ
      → CaseTally
      → Session x h
      → Ended (Session x h) CaseTally × ℕ
  unfolding run_action go_on attempt apply_auth_policy
  run_actions c index model [] seen tally s = (done s tally, seen)
  run_actions c index model (action ∷ rest) seen tally s =
      let ready : Session x h = record s { env = apply_auth_policy x h t c.config.auth s.env } in
      go_on
        (λ s1 model'.
          go_on (λ s2 tally'. run_actions c (index + 1) model' rest (seen + 1) tally' s2) (seen + 1)
            (run_action c index model' action tally s1))
        (seen + 1) (attempt x h t (t.next_state model action) ready)

  -- What the target sets up before the journal is reset. `offered` is what its `invariants` yields.
  unfoldable pub prepare :
      CaseConfig → Attempt (List (Invariant x h t)) → h.Env → t.State → Attempt (h.Env × CaseSetup)
  prepare config offered env initial = do
    ready ← t.setup env initial
    invariants ← offered
    scoped ← t.tracked_contracts ready.1
    returns (
      ready.0,
      record { config = config; world = ready.1; scoped = scoped; invariants = invariants },
    )

  -- `run_case` in a fresh environment, with the counter of the third-party shrinker at `seen`.
  unfoldable pub run_case :
      CaseConfig
      → Attempt (List (Invariant x h t))
      → h.Env
      → Journal
      → t.State
      → List t.Action
      → ℕ
      → Ended (Session x h) CaseTally × ℕ
  unfolding run_actions check_invariants reset go_on attempt prepare
  run_case config offered env journal initial actions seen =
      go_on
        (λ s ready.
          let c = ready.1 in
          go_on (λ s' u. run_actions c 0 initial actions seen no_tally s') seen
            (check_invariants x h t c.invariants c.scoped
              (record { world = c.world; model = initial; action = none; step = 0 })
              (record { env = ready.0; journal = reset s.journal })))
        seen
        (attempt x h t (prepare config offered env initial)
          (record { env = env; journal = journal }))
