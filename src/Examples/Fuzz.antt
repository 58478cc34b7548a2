-- ===== src/Examples/Fuzz.antt =====
-- A toy network and a target on it: an environment whose ledger holds one balance, and actions that
-- add to it, that are refused, and that break what the model says.
use soroban_fuzzer.Prelude.{
  ℕ, ◌+◌, ◌*◌, ◌≤◌, ◌≡◌, ◌↔◌, refl, String, true, false, none, some, List, [], ◌∷◌, min, arith,
  length, In, ◌==◌, if◌then◌else◌, not,
}
use soroban_fuzzer.Prelude.Order.{nat_ord, pair_ord}
use soroban_fuzzer.Prelude.Float.{Float}
use soroban_fuzzer.Prelude.Int.{pos}
use soroban_fuzzer.Prelude.Text.{show_nat}
use soroban_fuzzer.Fuzzer.Storage.Xdr.{
  u64, symbol, persistent, contract_data, contract_entry, Stored,
}
use soroban_fuzzer.Fuzzer.Storage.Diff.{StorageDelta, diff, delta_writes}
use soroban_fuzzer.Fuzzer.Resources.{ResourceUsage, ResourceLimits, u32_max}
use soroban_fuzzer.Fuzzer.Resources.Limits.{Within}
use soroban_fuzzer.Fuzzer.Journal.{
  Journal, CallRecord, fail, new_journal, total_writes, total_actions, has_failure,
}
use soroban_fuzzer.Fuzzer.Journal.Totals.{AddsCall}
use soroban_fuzzer.Fuzzer.Runtime.Outcome.{
  CallResult, returned, failed, over_limit, StepOutcome, went_ok, rejected, violation, into_step,
  expect_ok, expect_rejected, expect_contract_error, is_violation, conversions_judge,
}
use soroban_fuzzer.Fuzzer.Runtime.Call.{
  Host, Session, Runtime, Invocation, value, enforce, usage_of, storage, measure,
  call_requiring_auth,
}
use soroban_fuzzer.Fuzzer.Runtime.Classified.{measure_classifies, call_requiring_auth_iff}
use soroban_fuzzer.Fuzzer.Runtime.Recorded.{measure_is_recorded}
use soroban_fuzzer.Fuzzer.Runtime.Ledger.{seconds_per_ledger, u64_max, advance, close_ledger}
use soroban_fuzzer.Fuzzer.Runtime.Clock.{HasClock, close_ledger_clock}
use soroban_fuzzer.Fuzzer.Runner.Case.{
  returns, panics, strict, CaseConfig, Ended, done, panicked, holds, broken, CaseTally, Target,
  Invariant, run_case, fail_message,
}
use soroban_fuzzer.Fuzzer.Runner.Ends.{Ends, Anything, Noted}
use soroban_fuzzer.Fuzzer.Runner.Accounts.{
  IsReturned, AlwaysReturns, run_case_accounts, run_case-Noted,
}
use soroban_fuzzer.Examples.Order.{numbers, val_ord, tree_cmp, to_tree}
use soroban_fuzzer.Fuzzer.Runner.ReadOnly.{AllHold, ReadOnly, check_invariants_iff}
use soroban_fuzzer.Fuzzer.Runner.Case.{CheckCtx, check_invariants}
use soroban_fuzzer.Fuzzer.Storage.Snapshot.{capture_scoped, total_entries}
use soroban_fuzzer.Fuzzer.Runner.Tally.{RunState, new_tally, run_cases}
use soroban_fuzzer.Fuzzer.Runner.Runs.{passed_run_accounts}
use soroban_fuzzer.Prelude.BTree.{total}
use soroban_fuzzer.Prelude.{Option}
use soroban_fuzzer.Fuzzer.Runner.Tally.{settle}
use soroban_fuzzer.Fuzzer.Runner.Replay.{replay_runs_one_case}

abbrev rounded : Float
rounded = record {
  F64 = ℕ;
  of_int = λ z. 0;
  of_nat = λ n. n;
  div = λ m n. m;
  mul = λ m n. m * n;
  infinity = 0;
  le = λ m n. true;
  show_rounded = show_nat;
}

record Env : Type 0 where
  balance : ℕ
  sequence : ℕ
  timestamp : ℕ
  demanded : List ℕ

abbrev ledger_of : ℕ → List (Stored numbers)
ledger_of n =
    (
      contract_data persistent,
      some (contract_entry (record { contract = 7; key = symbol 1; val = u64 n }), none),
    )
    ∷ []

abbrev used : ResourceUsage
used = record {
  instructions = pos 500;
  mem_bytes = pos 10;
  disk_read_entries = 1;
  memory_read_entries = 0;
  write_entries = 1;
  disk_read_bytes = 0;
  write_bytes = 8;
  contract_events_size_bytes = 0;
}

abbrev ample : ResourceLimits
ample = record {
  instructions = pos 600;
  mem_bytes = pos 10;
  disk_read_entries = 3;
  write_entries = 4;
  ledger_entries = 8;
  disk_read_bytes = 0;
  write_bytes = 64;
  contract_events_size_bytes = 0;
}

abbrev network : Host numbers
network = record {
  Env = Env;
  stored = λ e. some (ledger_of e.balance);
  metered = λ e. some used;
  auths = λ e. e.demanded;
  clear_auths = λ e. record e { demanded = [] };
  mock_all_auths = λ e. record e { demanded = [] };
  sequence = λ e. min e.sequence u32_max;
  timestamp = λ e. min e.timestamp u64_max;
  set_sequence_number = λ n e. record e { sequence = n };
  set_timestamp = λ n e. record e { timestamp = n };
}

abbrev start : Session numbers network
start = record {
  env = record { balance = 5; sequence = 10; timestamp = 100; demanded = [] };
  journal = new_journal;
}

abbrev runtime : Runtime numbers network
runtime = record { limits = ample; policy = enforce; step = 0; scoped = 7 ∷ [] }

-- A deposit that account 3 has to authorize.
abbrev deposit : ℕ → Invocation numbers network ℕ
deposit n e =
    (record e { balance = e.balance + n; demanded = 3 ∷ e.demanded }, value (e.balance + n))

measure_classifies_example :
    ((over_limit (measure numbers network rounded runtime "deposit" true (deposit 4) start).1
        ≡ false)
      ↔ ((true ≡ true) × (enforce ≡ enforce)
          → Within (usage_of numbers network rounded (deposit 4 start.env).0) ample))
    × ((w : ℕ)
        → ((measure numbers network rounded runtime "deposit" true (deposit 4) start).1
            ≡ returned w)
          ↔ ((over_limit
                  (measure numbers network rounded runtime "deposit" true (deposit 4) start).1
                ≡ false)
              × ((deposit 4 start.env).1 ≡ value w)))
measure_classifies_example =
    measure_classifies numbers network rounded runtime "deposit" true (deposit 4) start

abbrev deposited : Session numbers network
deposited = (measure numbers network rounded runtime "deposit" true (deposit 4) start).0

abbrev deposit_delta : StorageDelta
deposit_delta =
    diff numbers (storage numbers network rounded runtime start.env)
      (storage numbers network rounded runtime deposited.env)

measure_is_recorded_example :
    ((c : CallRecord) × AddsCall c new_journal deposited.journal
      × (c.label ≡ "deposit")
      × (c.delta ≡ deposit_delta)
      × (c.entries_after
          ≡ total_entries numbers (storage numbers network rounded runtime deposited.env)))
    × (total_writes deposited.journal ≡ total_writes new_journal + delta_writes deposit_delta)
measure_is_recorded_example =
    measure_is_recorded numbers network rounded runtime "deposit" true (deposit 4) start

call_requiring_auth_iff_example :
    ((call_requiring_auth numbers network rounded runtime "deposit" 3 (deposit 4) start).1
      ≡ went_ok)
    ↔ (((w : ℕ) × (value 9 ≡ value w))
        × (enforce ≡ enforce
            → Within (usage_of numbers network rounded (deposit 4 start.env).0) ample)
        × In {A = ℕ} 3 (3 ∷ []))
call_requiring_auth_iff_example =
    call_requiring_auth_iff numbers network rounded runtime "deposit" 3 (deposit 4) start

network-HasClock : HasClock numbers network
network-HasClock = record {
  sequence_set = λ n e q. omega arith;
  timestamp_set = λ n e q. omega arith;
  sequence_kept = λ n e. refl;
  timestamp_kept = λ n e. refl;
  sequence_le = λ e. omega arith;
  timestamp_le = λ e. omega arith;
}

close_ledger_clock_example :
    ((advance numbers network 100 start).env ≡ (close_ledger numbers network 100 start).env)
    × (network.sequence (close_ledger numbers network 100 start).env
        ≡ min (network.sequence start.env + 100) u32_max)
    × (network.timestamp (close_ledger numbers network 100 start).env
        ≡ min (network.timestamp start.env + 100 * seconds_per_ledger) u64_max)
    × (network.sequence start.env ≤ network.sequence (close_ledger numbers network 100 start).env)
    × (network.timestamp start.env ≤ network.timestamp (close_ledger numbers network 100 start).env)
close_ledger_clock_example = close_ledger_clock numbers network network-HasClock 100 start

abbrev trapped : CallResult ℕ
trapped = failed "out of gas"

conversions_judge_example :
    (is_violation (into_step trapped) ≡ over_limit trapped)
    × (over_limit trapped ≡ false
        → is_violation (expect_ok trapped) ≡ not (is_violation (expect_rejected trapped)))
    × (over_limit trapped ≡ true
        → (is_violation (expect_ok trapped) ≡ true)
          × (is_violation (expect_rejected trapped) ≡ true))
    × (is_violation (expect_rejected trapped) ≡ true
        → is_violation (expect_contract_error trapped) ≡ true)
conversions_judge_example = conversions_judge trapped

data Action : Type 0 where
  pay refuse break_it : Action

abbrev act : Action → Session numbers network → Ended (Session numbers network) StepOutcome
act pay s = done (record s { env = record (s.env) { balance = s.env.balance + 1 } }) went_ok
act refuse s = done s (rejected "no funds")
act break_it s = done s (violation "call trapped but must succeed: overflow")

abbrev target : Target numbers network
target = record {
  State = ℕ;
  World = ℕ;
  Action = Action;
  setup = λ e m. returns (record e { balance = m }, 7);
  next_state =
      λ m action. elim action [ pay ↦ returns (m + 1) | refuse ↦ returns m | break_it ↦ returns m ];
  execute = λ rt w action s. act action s;
  describe = λ action. elim action [
    | pay ↦ returns "pay"
    | refuse ↦ returns "refuse"
    | break_it ↦ returns "break"
  ];
  expects_rejection = λ action. returns false;
  action_kind = λ action. returns "kind";
  tracked_contracts = λ w. returns (w ∷ []);
}

-- The balance is the model's.
abbrev agrees : Invariant numbers network target
agrees = record {
  name = "agrees";
  check_initial = true;
  check =
      λ ctx s. done s (if s.env.balance == ctx.model then holds else broken "the balance is off");
}

abbrev failed_before : Journal
failed_before = fail "invariant" "the balance is off" new_journal

abbrev config : CaseConfig
config = record { auth = strict; resources = enforce; limits = ample }

abbrev run : List Action → Ended (Session numbers network) CaseTally × ℕ
run actions =
    run_case numbers network target config (returns (agrees ∷ [])) start.env new_journal 5 actions 0

run_case_accounts_example :
    ((s : Session numbers network) (k : CaseTally)
      → (run (pay ∷ refuse ∷ [])).0 ≡ done s k
      → (total_actions k.stats ≡ 2)
        × (length k.unexpected_rejection_kinds ≡ k.stats.unexpected_rejections)
        × ((run (pay ∷ refuse ∷ [])).1 ≡ 2))
    × ((run (pay ∷ refuse ∷ [])).1 ≤ 2)
run_case_accounts_example =
    run_case_accounts numbers network target config (returns (agrees ∷ [])) start.env new_journal 5
      (pay ∷ refuse ∷ []) 0

abbrev journal_of : Ended (Session numbers network) CaseTally → Journal
journal_of (done s k) = s.journal
journal_of (panicked j message) = j

abbrev message_of : Ended (Session numbers network) CaseTally → String
message_of (done s k) = "done"
message_of (panicked j message) = message

calm_actions :
    (rt : Runtime numbers network) (w : ℕ) (action : Action) (s : Session numbers network)
    → Ends Anything Noted (act action s)
calm_actions rt w pay s = tt
calm_actions rt w refuse s = tt
calm_actions rt w break_it s = tt

next_returns : (m : ℕ) (action : Action) → IsReturned (target.next_state m action)
next_returns m pay = tt
next_returns m refuse = tt
next_returns m break_it = tt

describe_always_returns : (action : Action) → IsReturned (target.describe action)
describe_always_returns pay = tt
describe_always_returns refuse = tt
describe_always_returns break_it = tt

target-AlwaysReturns : AlwaysReturns numbers network target
target-AlwaysReturns = record {
  setup_returns = λ e m. tt;
  tracked_contracts_returns = λ w. tt;
  next_state_returns = next_returns;
  describe_returns = describe_always_returns;
  expects_rejection_returns = λ action. tt;
  action_kind_returns = λ action. tt;
}

-- The setup of a case panics: the note of the case before stays in the journal.
abbrev unset : Target numbers network
unset = record target { setup = λ e m. panics "no wasm" }

unset_panics :
    (run_case numbers network unset config (returns []) start.env failed_before 5 (pay ∷ []) 0).0
    ≡ panicked failed_before "no wasm"
unfolding run_case
unset_panics = refl

two_actions_count : (run (pay ∷ refuse ∷ [])).1 ≡ 2
unfolding run_case tree_cmp to_tree
two_actions_count = refl

breaks :
    (run (pay ∷ break_it ∷ [])).0
    ≡ panicked
        (journal_of (run (pay ∷ break_it ∷ [])).0)
        "soroban-fuzzer/violation[unexpected-error]: call trapped but must succeed: overflow"
unfolding run_case tree_cmp to_tree
breaks = refl

run_case-Noted_example :
    (has_failure (journal_of (run (pay ∷ break_it ∷ [])).0) ≡ true)
    × ("soroban-fuzzer/violation[unexpected-error]: call trapped but must succeed: overflow"
        ≡ fail_message (journal_of (run (pay ∷ break_it ∷ [])).0))
run_case-Noted_example =
    run_case-Noted numbers network target config (agrees ∷ []) start.env new_journal 5
      (pay ∷ break_it ∷ []) 0 target-AlwaysReturns calm_actions ((λ ctx s. tt), tt)
      (journal_of (run (pay ∷ break_it ∷ [])).0)
      "soroban-fuzzer/violation[unexpected-error]: call trapped but must succeed: overflow" breaks

abbrev at_start : CheckCtx numbers network target
at_start = record { world = 7; model = 5; action = none; step = 0 }

check_invariants_iff_example :
    (check_invariants numbers network target (agrees ∷ []) (7 ∷ []) at_start start ≡ done start tt)
    ↔ (AllHold numbers network target at_start (agrees ∷ []) start start
        × ReadOnly numbers network target
            (capture_scoped numbers (network.stored start.env) (7 ∷ []))
            (capture_scoped numbers (network.stored start.env) (7 ∷ [])))
check_invariants_iff_example =
    check_invariants_iff numbers network target agrees [] (7 ∷ []) at_start start start

-- Two cases of a run: one with a refusal, and an empty one.
abbrev cases : List (ℕ × List Action)
cases = (5, pay ∷ refuse ∷ []) ∷ (0, []) ∷ []

abbrev fresh_run : RunState
fresh_run = record { index = 0; tally = new_tally; journal = new_journal }

abbrev ran : RunState × Option String
ran = run_cases numbers network target config none (returns (agrees ∷ [])) start.env cases fresh_run

passes : ran.1 ≡ none
unfolding run_cases tree_cmp to_tree
passes = refl

passed_run_accounts_example :
    (total_actions ran.0.tally.stats ≡ 2)
    × (total ran.0.tally.unexpected_rejections_by_kind ≡ ran.0.tally.stats.unexpected_rejections)
passed_run_accounts_example =
    passed_run_accounts numbers network target config (returns (agrees ∷ [])) start.env cases
      new_journal passes

-- The second case of the run, replayed.
replay_runs_one_case_example :
    ((run_cases numbers network target config
        (some 1)
        (returns (agrees ∷ []))
        start.env
        cases
        fresh_run).1
      ≡ (settle numbers network target fresh_run
          (run_case numbers network target config
            (returns (agrees ∷ []))
            start.env
            new_journal
            0
            []
            0).0).1)
    × ((run_cases numbers network target config
          (some 1)
          (returns (agrees ∷ []))
          start.env
          cases
          fresh_run).0.tally
        ≡ (settle numbers network target fresh_run
            (run_case numbers network target config
              (returns (agrees ∷ []))
              start.env
              new_journal
              0
              []
              0).0).0.tally)
    × ((run_cases numbers network target config
          (some 1)
          (returns (agrees ∷ []))
          start.env
          cases
          fresh_run).0.journal
        ≡ (settle numbers network target fresh_run
            (run_case numbers network target config
              (returns (agrees ∷ []))
              start.env
              new_journal
              0
              []
              0).0).0.journal)
replay_runs_one_case_example =
    replay_runs_one_case numbers network target config (returns (agrees ∷ [])) start.env 1 cases
      (0, []) fresh_run refl refl (omega arith)
