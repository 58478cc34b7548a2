-- ===== src/Fuzzer/Journal.antt =====
-- soroban-fuzzer/src/report.rs: the journal of a case, the tally of its actions, and the report of a
-- failure. The rendering of a report as text or JSON is not modelled.
pub mod Totals
use soroban_fuzzer.Prelude.{
  ℕ, ◌+◌, String, Bool, true, false, Option, none, some, List, [], ◌∷◌, ◌++◌, foldl, max, ◌||◌,
  if◌then◌else◌, find,
}
use soroban_fuzzer.Prelude.Order.{same, string_ord}
use soroban_fuzzer.Prelude.Int.{◌+ℤ◌, max_ℤ}
use text.Mathlib.Text.{starts_with}
use soroban_fuzzer.Fuzzer.Storage.Diff.{StorageDelta, delta_writes, no_change}
use soroban_fuzzer.Fuzzer.Resources.{ResourceUsage, no_usage, LimitBreach, saturating_add}

pub record CallRecord : Type 0 where
  pub label : String
  pub outcome : String
  pub usage : ResourceUsage
  pub delta : StorageDelta
  pub entries_after : ℕ
  pub breach : Option LimitBreach

abbrev pub no_delta : StorageDelta
no_delta = record { in_instance = no_change; in_persistent = no_change; in_temporary = no_change }

-- `CallRecord { label, outcome, ..CallRecord::default() }`
abbrev pub bare_call : String → String → CallRecord
bare_call label outcome = record {
  label = label;
  outcome = outcome;
  usage = no_usage;
  delta = no_delta;
  entries_after = 0;
  breach = none;
}

unfoldable pub call_writes : CallRecord → ℕ
unfolding delta_writes
call_writes c = delta_writes c.delta

pub record StepRecord : Type 0 where
  pub index : ℕ
  pub action : String
  pub outcome : String
  pub calls : List CallRecord

-- One round of the loop of `StepRecord::usage`.
unfoldable pub add_usage : ResourceUsage → CallRecord → ResourceUsage
unfolding saturating_add ◌+ℤ◌
add_usage t c = record {
  instructions = t.instructions +ℤ c.usage.instructions;
  mem_bytes = max_ℤ t.mem_bytes c.usage.mem_bytes;
  disk_read_entries = saturating_add t.disk_read_entries c.usage.disk_read_entries;
  memory_read_entries = saturating_add t.memory_read_entries c.usage.memory_read_entries;
  write_entries = saturating_add t.write_entries c.usage.write_entries;
  disk_read_bytes = saturating_add t.disk_read_bytes c.usage.disk_read_bytes;
  write_bytes = saturating_add t.write_bytes c.usage.write_bytes;
  contract_events_size_bytes =
      saturating_add t.contract_events_size_bytes c.usage.contract_events_size_bytes;
}

unfoldable pub step_usage : StepRecord → ResourceUsage
unfolding add_usage
step_usage s = foldl add_usage no_usage s.calls

abbrev pub sum_by {ℓ} : {A : Type ℓ} → (A → ℕ) → List A → ℕ
sum_by f [] = 0
sum_by f (x ∷ xs) = f x + sum_by f xs

unfoldable pub step_writes : StepRecord → ℕ
unfolding call_writes
step_writes s = sum_by call_writes s.calls

first_breach_of : List CallRecord → Option LimitBreach
first_breach_of [] = none
first_breach_of (c ∷ cs) =
    let rest = first_breach_of cs in elim c.breach [ none ↦ rest | some b ↦ some b ]

unfoldable pub step_breach : StepRecord → Option LimitBreach
unfolding first_breach_of
step_breach s = first_breach_of s.calls

pub record FailureNote : Type 0 where
  pub kind : String
  pub detail : String
  pub step : Option ℕ

pub record Journal : Type 0 where
  pub steps : List StepRecord
  pub failure : Option FailureNote

abbrev pub new_journal : Journal
new_journal = record { steps = []; failure = none }

unfoldable pub reset : Journal → Journal
reset j = record { steps = []; failure = none }

unfoldable pub begin_step : ℕ → String → Journal → Journal
begin_step index action j = record j {
  steps =
      j.steps ++ record { index = index; action = action; outcome = "pending"; calls = [] } ∷ [];
}

-- `if let Some(step) = self.steps.last_mut()`: the last step, changed.
unfoldable pub on_last : (StepRecord → StepRecord) → List StepRecord → List StepRecord
on_last f [] = []
on_last f (s ∷ []) = f s ∷ []
on_last f (s ∷ t ∷ rest) = s ∷ on_last f (t ∷ rest)

unfoldable pub finish_step : String → Journal → Journal
unfolding on_last
finish_step outcome j = record j { steps = on_last (λ s. record s { outcome = outcome }) j.steps }

-- A call outside of any action gets a step of its own.
unfoldable pub push_onto : CallRecord → List StepRecord → List StepRecord
unfolding on_last
push_onto c [] = record { index = 0; action = "<setup>"; outcome = "ok"; calls = c ∷ [] } ∷ []
push_onto c (s ∷ rest) = on_last (λ t. record t { calls = t.calls ++ c ∷ [] }) (s ∷ rest)

unfoldable pub push_call : CallRecord → Journal → Journal
unfolding push_onto
push_call c j = record j { steps = push_onto c j.steps }

abbrev pub last_index : List StepRecord → Option ℕ
last_index [] = none
last_index (s ∷ []) = some s.index
last_index (s ∷ t ∷ rest) = last_index (t ∷ rest)

unfoldable pub fail : String → String → Journal → Journal
fail kind detail j = record j {
  failure = some (record { kind = kind; detail = detail; step = last_index j.steps });
}

unfoldable pub has_failure : Journal → Bool
has_failure j = elim j.failure [ none ↦ false | some _ ↦ true ]

unfoldable pub total_writes : Journal → ℕ
unfolding step_writes
total_writes j = sum_by step_writes j.steps

unfoldable pub raise_peak : ResourceUsage → StepRecord → ResourceUsage
unfolding step_usage
raise_peak p s =
    let u = step_usage s in
    record {
      instructions = max_ℤ p.instructions u.instructions;
      mem_bytes = max_ℤ p.mem_bytes u.mem_bytes;
      disk_read_entries = max p.disk_read_entries u.disk_read_entries;
      memory_read_entries = max p.memory_read_entries u.memory_read_entries;
      write_entries = max p.write_entries u.write_entries;
      disk_read_bytes = max p.disk_read_bytes u.disk_read_bytes;
      write_bytes = max p.write_bytes u.write_bytes;
      contract_events_size_bytes = max p.contract_events_size_bytes u.contract_events_size_bytes;
    }

unfoldable pub peak_usage : Journal → ResourceUsage
unfolding raise_peak
peak_usage j = foldl raise_peak no_usage j.steps

pub record ActionStats : Type 0 where
  pub accepted : ℕ
  pub expected_rejections : ℕ
  pub unexpected_rejections : ℕ

abbrev pub no_stats : ActionStats
no_stats = record { accepted = 0; expected_rejections = 0; unexpected_rejections = 0 }

unfoldable pub total_actions : ActionStats → ℕ
total_actions s = s.accepted + s.expected_rejections + s.unexpected_rejections

-- `steps.iter_mut().find(|step| step.outcome == "pending")`, marked.
unfoldable pub mark_panicked : List StepRecord → List StepRecord
mark_panicked [] = []
mark_panicked (s ∷ rest) =
    let rest' = mark_panicked rest in
    if same s.outcome "pending" then record s { outcome = "<panicked>" } ∷ rest else s ∷ rest'

pub record FailureReport : Type 0 where
  pub kind : String
  pub detail : String
  pub reason : String
  pub seed : Option ℕ
  pub minimal_sequence : List String
  pub steps : List StepRecord
  pub stats : ActionStats

-- `FailureReport::new`; of the configuration it copies the seed and a summary, which is left out.
unfoldable pub new_report : String → List String → Journal → Option ℕ → ActionStats → FailureReport
unfolding mark_panicked
new_report reason minimal j seed stats =
    let steps = mark_panicked j.steps in
    let note : FailureNote = elim j.failure [
      | some n ↦ n
      | none ↦ record { kind = "panic"; detail = reason; step = last_index steps }
    ] in
    record {
      kind = note.kind;
      detail = note.detail;
      reason = reason;
      seed = seed;
      minimal_sequence = minimal;
      steps = steps;
      stats = stats;
    }

abbrev pub last : List StepRecord → Option StepRecord
last [] = none
last (s ∷ []) = some s
last (s ∷ t ∷ rest) = last (t ∷ rest)

-- `step.outcome.starts_with("violation") || step.breach().is_some()`
unfoldable pub blamed : StepRecord → Bool
unfolding step_breach
blamed s =
    starts_with s.outcome "violation" || elim (step_breach s) [ none ↦ false | some _ ↦ true ]

unfoldable pub failing_step : FailureReport → Option StepRecord
unfolding blamed
failing_step r = elim (find blamed r.steps) [ some s ↦ some s | none ↦ last r.steps ]
