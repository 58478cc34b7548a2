-- ===== src/Fuzzer/Runner/Tally.antt =====
-- soroban-fuzzer/src/runner.rs: `Tally`, and the closure of `run` that runs one generated case. The
-- third-party test runner calls it once for each generated case, and again for every attempt to
-- shrink a case that failed.
use soroban_fuzzer.Prelude.{
  ℕ, ◌+◌, String, Bool, false, Option, none, some, List, [], ◌∷◌, not, ◌==◌, if◌then◌else◌,
}
use soroban_fuzzer.Prelude.Order.{Ord, string_ord, pair_ord}
use soroban_fuzzer.Prelude.BTree.{BTreeMap, bump}
use soroban_fuzzer.Fuzzer.Storage.Xdr.{Xdr, ScVal}
use soroban_fuzzer.Fuzzer.Resources.{saturating_add}
use soroban_fuzzer.Fuzzer.Journal.{Journal, ActionStats, no_stats}
use soroban_fuzzer.Fuzzer.Runtime.Call.{Host, Session}
use soroban_fuzzer.Fuzzer.Runner.Case.{
  Attempt, CaseConfig, Ended, done, panicked, CaseTally, Target, Invariant, run_case,
}

pub record Tally : Type 0 where
  pub stats : ActionStats
  pub unexpected_rejections_by_kind : BTreeMap String ℕ

abbrev pub new_tally : Tally
new_tally = record { stats = no_stats; unexpected_rejections_by_kind = [] }

-- `*by_kind.entry(kind.clone()).or_insert(0) += 1`, kind by kind
unfoldable pub count_kinds : BTreeMap String ℕ → List String → BTreeMap String ℕ
unfolding bump
count_kinds m [] = m
count_kinds m (kind ∷ kinds) = count_kinds (bump kind m) kinds

unfoldable pub absorb : CaseTally → Tally → Tally
unfolding count_kinds
absorb c t = record {
  stats = record {
    accepted = t.stats.accepted + c.stats.accepted;
    expected_rejections = t.stats.expected_rejections + c.stats.expected_rejections;
    unexpected_rejections = t.stats.unexpected_rejections + c.stats.unexpected_rejections;
  };
  unexpected_rejections_by_kind =
      count_kinds t.unexpected_rejections_by_kind c.unexpected_rejection_kinds;
}

-- What the closure changes: its counter, the tally and the journal.
pub record RunState : Type 0 where
  pub index : ℕ
  pub tally : Tally
  pub journal : Journal

-- `index != wanted`, where a case is wanted
unfoldable pub is_skipped : Option ℕ → ℕ → Bool
is_skipped none index = false
is_skipped (some wanted) index = not (index == wanted)

-- The first failure ends the run.
unfoldable pub stop_or :
    Option String → RunState → RunState × Option String → RunState × Option String
stop_or (some message) r rest = (r, some message)
stop_or none r rest = rest

module _ (x : Xdr) (h : Host x) (t : Target x h) ⦃a : Ord x.Address⦄ ⦃v : Ord (ScVal x)⦄ where
  -- A case that ended, with the message of its panic if it failed.
  unfoldable pub settle : RunState → Ended (Session x h) CaseTally → RunState × Option String
  unfolding absorb
  settle r (done s tally) = (record r { tally = absorb tally r.tally; journal = s.journal }, none)
  settle r (panicked j message) = (record r { journal = j }, some message)

  -- The closure, on a case in a fresh environment.
  unfoldable pub run_generated :
      CaseConfig
      → Option ℕ
      → Attempt (List (Invariant x h t))
      → h.Env
      → t.State × List t.Action
      → RunState
      → RunState × Option String
  unfolding settle is_skipped run_case saturating_add
  run_generated config replay invariants env (initial, actions) r =
      let next : RunState = record r { index = saturating_add r.index 1 } in
      if is_skipped replay r.index
      then (next, none)
      else settle next (run_case x h t config invariants env r.journal initial actions 0).0

  -- The generated cases in order, up to the first that fails.
  unfoldable pub run_cases :
      CaseConfig
      → Option ℕ
      → Attempt (List (Invariant x h t))
      → h.Env
      → List (t.State × List t.Action)
      → RunState
      → RunState × Option String
  unfolding run_generated stop_or
  run_cases config replay invariants env [] r = (r, none)
  run_cases config replay invariants env (g ∷ gs) r =
      let step = run_generated config replay invariants env g r in
      let rest = run_cases config replay invariants env gs step.0 in stop_or step.1 step.0 rest
