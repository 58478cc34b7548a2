-- ===== src/Fuzzer/Runner/Case/Checks.antt =====
-- soroban-fuzzer/src/runner.rs: `check_invariants`, with `fail_case` and `apply_auth_policy`.
use soroban_fuzzer.Prelude.{
  String, Bool, false, none, some, List, [], ◌∷◌, ◌&&◌, ◌||◌, not, if◌then◌else◌, ◌==◌,
}
use soroban_fuzzer.Prelude.Order.{Ord, pair_ord}
use soroban_fuzzer.Prelude.Text.{◌<>◌}
use soroban_fuzzer.Fuzzer.Storage.Xdr.{Xdr, ScVal}
use soroban_fuzzer.Fuzzer.Storage.Snapshot.{capture_scoped}
use soroban_fuzzer.Fuzzer.Storage.Diff.{StorageDelta, diff, delta_is_empty, is_empty, summary}
use soroban_fuzzer.Fuzzer.Journal.{Journal, fail}
use soroban_fuzzer.Fuzzer.Runtime.Call.{Host, Session}
use soroban_fuzzer.Fuzzer.Runner.Case.Parts.{
  AuthPolicy, strict, mock_all, Ended, done, panicked, Verdict, holds, broken, Target, CheckCtx,
  Invariant,
}

-- The message of `fail_case`.
unfoldable pub fail_message : Journal → String
fail_message j = elim j.failure [
  | some note ↦ "soroban-fuzzer/violation[" <> note.kind <> "]: " <> note.detail
  | none ↦ "soroban-fuzzer/violation: case failed"
]

module _ (x : Xdr) (h : Host x) (t : Target x h) where
  unfoldable pub apply_auth_policy : AuthPolicy → h.Env → h.Env
  apply_auth_policy strict env = h.clear_auths env
  apply_auth_policy mock_all env = h.mock_all_auths env

  -- `journal.fail(..); fail_case(journal)`
  unfoldable pub fail_case : {A : Type 0} → String → String → Session x h → Ended (Session x h) A
  unfolding fail fail_message
  fail_case kind detail s = let j = fail kind detail s.journal in panicked j (fail_message j)

  -- `action.is_none() && !invariant.check_initial()`
  unfoldable pub skips : CheckCtx x h t → Invariant x h t → Bool
  skips ctx i = elim ctx.action [ none ↦ not i.check_initial | some _ ↦ false ]

  unfoldable pub judge : String → Ended (Session x h) Verdict → Ended (Session x h) (Unit {0})
  unfolding fail_case
  judge name (done s holds) = done s tt
  judge name (done s (broken detail)) = fail_case "invariant" (name <> ": " <> detail) s
  judge name (panicked j message) = panicked j message

  -- The loop over the invariants.
  unfoldable pub check_each :
      List (Invariant x h t) → CheckCtx x h t → Session x h → Ended (Session x h) (Unit {0})
  unfolding judge skips
  check_each [] ctx s = done s tt
  check_each (i ∷ is) ctx s =
      if skips ctx i then check_each is ctx s else elim (judge i.name (i.check ctx s)) [
        | done s' _ ↦ check_each is ctx s'
        | panicked j message ↦ panicked j message
      ]

  -- `host_reclaimed`
  unfoldable pub host_reclaimed : StorageDelta → Bool
  unfolding is_empty
  host_reclaimed d =
      is_empty d.in_instance
      && is_empty d.in_persistent
      && (d.in_temporary.added == 0)
      && (d.in_temporary.updated == 0)

module _ (x : Xdr) (h : Host x) (t : Target x h) ⦃a : Ord x.Address⦄ ⦃v : Ord (ScVal x)⦄ where
  abbrev pub delta_between : List x.Address → h.Env → h.Env → StorageDelta
  delta_between scoped env env' =
      diff x (capture_scoped x (h.stored env) scoped) (capture_scoped x (h.stored env') scoped)

  -- What follows the loop over the invariants: they must not have written.
  unfoldable pub check_read_only : StorageDelta → Session x h → Ended (Session x h) (Unit {0})
  unfolding delta_is_empty host_reclaimed fail_case summary
  check_read_only delta s =
      if delta_is_empty delta || host_reclaimed x h t delta
      then done s tt
      else fail_case x h t "invariant"
          ("checking invariants modified contract state ("
            <> summary delta
            <> "); invariants must be read-only, so this makes results non-reproducible")
          s

  -- `before` is the environment as the checks found it.
  unfoldable pub then_read_only :
      List x.Address → h.Env → Ended (Session x h) (Unit {0}) → Ended (Session x h) (Unit {0})
  unfolding check_read_only capture_scoped diff
  then_read_only scoped before (done s _) = check_read_only (delta_between scoped before s.env) s
  then_read_only scoped before (panicked j message) = panicked j message

  unfoldable pub check_invariants :
      List (Invariant x h t)
      → List x.Address
      → CheckCtx x h t
      → Session x h
      → Ended (Session x h) (Unit {0})
  unfolding check_each then_read_only
  check_invariants [] scoped ctx s = done s tt
  check_invariants (i ∷ is) scoped ctx s =
      then_read_only scoped s.env (check_each x h t (i ∷ is) ctx s)
