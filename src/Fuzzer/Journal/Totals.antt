-- ===== src/Fuzzer/Journal/Totals.antt =====
-- `Journal::push_call` of soroban-fuzzer/src/report.rs and the totals of a journal.
use soroban_fuzzer.Prelude.{ℕ, ◌+◌, ◌≡◌, refl, ap, List, [], ◌∷◌, ◌++◌, arith}
use soroban_fuzzer.Fuzzer.Journal.{
  CallRecord, StepRecord, Journal, call_writes, step_writes, sum_by, on_last, push_onto, push_call,
  total_writes,
}

sum_by-append {ℓ} :
    {A : Type ℓ} (f : A → ℕ) (xs ys : List A) → sum_by f (xs ++ ys) ≡ sum_by f xs + sum_by f ys
sum_by-append f [] ys = omega arith
sum_by-append f (x ∷ xs) ys = omega (arith, sum_by-append f xs ys)

record_call : CallRecord → StepRecord → StepRecord
record_call c t = record t { calls = t.calls ++ c ∷ [] }

writes-record_call :
    (c : CallRecord) (t : StepRecord)
    → step_writes (record_call c t) ≡ step_writes t + call_writes c
unfolding step_writes record_call
writes-record_call c t = omega (arith, sum_by-append call_writes t.calls (c ∷ []))

writes-on_last :
    (c : CallRecord) (s : StepRecord) (rest : List StepRecord)
    → sum_by step_writes (on_last (record_call c) (s ∷ rest))
      ≡ sum_by step_writes (s ∷ rest) + call_writes c
unfolding on_last
writes-on_last c s [] = omega (arith, writes-record_call c s)
writes-on_last c s (t ∷ rest) = omega (arith, writes-on_last c t rest)

pub writes-push_call :
    (c : CallRecord) (j : Journal) → total_writes (push_call c j) ≡ total_writes j + call_writes c
unfolding push_call total_writes push_onto step_writes record_call
writes-push_call c j = of_steps c j.steps
  where
    of_steps :
        (c : CallRecord) (steps : List StepRecord)
        → sum_by step_writes (push_onto c steps) ≡ sum_by step_writes steps + call_writes c
    of_steps c [] = omega arith
    of_steps c (s ∷ rest) = writes-on_last c s rest

append-on_last :
    (g : StepRecord → StepRecord) (earlier : List StepRecord) (current : StepRecord)
    → on_last g (earlier ++ current ∷ []) ≡ earlier ++ g current ∷ []
unfolding on_last
append-on_last g [] current = refl
append-on_last g (s ∷ []) current = refl
append-on_last g (s ∷ t ∷ rest) current =
    ap (λ (ts : List StepRecord). s ∷ ts) (append-on_last g (t ∷ rest) current)

-- The step that a call gets where there is none.
abbrev pub setup_step : CallRecord → StepRecord
setup_step c = record { index = 0; action = "<setup>"; outcome = "ok"; calls = c ∷ [] }

-- The call `c` is the last one of the current step, and nothing else has changed: not the earlier
-- steps, not the other parts of the current one, not the note of a failure.
pub record AddsCall (c : CallRecord) (j j' : Journal) : Type 0 where
  pub without_steps : j.steps ≡ [] → j'.steps ≡ setup_step c ∷ []
  pub in_current :
      (earlier : List StepRecord) (current : StepRecord)
      → j.steps ≡ earlier ++ current ∷ []
      → j'.steps ≡ earlier ++ record current { calls = current.calls ++ c ∷ [] } ∷ []
  pub same_failure : j'.failure ≡ j.failure

pub push_call-AddsCall : (c : CallRecord) (j : Journal) → AddsCall c j (push_call c j)
unfolding push_call push_onto record_call
push_call-AddsCall c j = record {
  without_steps = λ e. rw e refl;
  in_current = λ earlier current e. rw e (of_steps earlier current);
  same_failure = refl;
}
  where
    of_steps :
        (earlier : List StepRecord) (current : StepRecord)
        → push_onto c (earlier ++ current ∷ []) ≡ earlier ++ record_call c current ∷ []
    of_steps [] current = refl
    of_steps (s ∷ rest) current = append-on_last (record_call c) (s ∷ rest) current
