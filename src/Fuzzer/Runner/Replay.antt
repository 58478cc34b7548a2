-- ===== src/Fuzzer/Runner/Replay.antt =====
-- The replay of one case by `run` of soroban-fuzzer/src/runner.rs.
use soroban_fuzzer.Prelude.{
  ℕ, zero, suc, ◌+◌, ◌≤◌, ◌<◌, ◌≡◌, refl, String, Option, none, some, List, [], ◌∷◌, arith, length,
  subst, get_elem?, ◌∙◌,
}
use soroban_fuzzer.Prelude.Order.{Ord, pair_ord}
use soroban_fuzzer.Fuzzer.Storage.Xdr.{Xdr, ScVal}
use soroban_fuzzer.Fuzzer.Resources.{saturating_add, u32_max}
use soroban_fuzzer.Fuzzer.Runtime.Call.{Host, Session}
use soroban_fuzzer.Fuzzer.Runner.Case.{
  Attempt, CaseConfig, Ended, done, panicked, CaseTally, Target, Invariant, run_case,
}
use soroban_fuzzer.Fuzzer.Runner.Tally.{
  RunState, is_skipped, settle, run_generated, run_cases, stop_or,
}
use soroban_fuzzer.Fuzzer.Runner.Runs.{Generated}

-- Two results of a run that differ in the counter of cases at most.
abbrev pub Same : RunState × Option String → RunState × Option String → Type 0
Same p q = (p.1 ≡ q.1) × (p.0.tally ≡ q.0.tally) × (p.0.journal ≡ q.0.journal)

stop_or-Same :
    (o : Option String) (r : RunState) (rest : RunState × Option String)
    → Same rest (r, none)
    → Same (stop_or o r rest) (r, o)
unfolding stop_or
stop_or-Same none r rest q = q
stop_or-Same (some message) r rest q = (refl, refl, refl)

module _ (x : Xdr) (h : Host x) (t : Target x h) ⦃a : Ord x.Address⦄ ⦃v : Ord (ScVal x)⦄
    (config : CaseConfig) (invariants : Attempt (List (Invariant x h t))) (env : h.Env) where
  skipped :
      (wanted : ℕ) (g : Generated x h t) (r : RunState)
      → (r.index ≡ wanted → ⊥)
      → run_generated x h t config (some wanted) invariants env g r
        ≡ (record r { index = saturating_add r.index 1 }, none)
  unfolding run_generated is_skipped
  skipped wanted (initial, actions) r e = ground arith

  -- The case on its own, from the tally and the journal of `r`.
  abbrev pub alone : Generated x h t → RunState → RunState × Option String
  alone g r = settle x h t r (run_case x h t config invariants env r.journal g.0 g.1 0).0

  wanted_runs :
      (wanted : ℕ) (g : Generated x h t) (r : RunState)
      → r.index ≡ wanted
      → run_generated x h t config (some wanted) invariants env g r
        ≡ alone g (record r { index = saturating_add r.index 1 })
  unfolding run_generated is_skipped
  wanted_runs wanted (initial, actions) r e = ground arith

  settle-Same :
      (r : RunState) (i : ℕ) (m : Ended (Session x h) CaseTally)
      → Same (settle x h t (record r { index = i }) m) (settle x h t r m)
  unfolding settle
  settle-Same r i (done s k) = (refl, refl, refl)
  settle-Same r i (panicked j message) = (refl, refl, refl)

  index-settle :
      (r : RunState) (m : Ended (Session x h) CaseTally) → (settle x h t r m).0.index ≡ r.index
  unfolding settle
  index-settle r (done s k) = refl
  index-settle r (panicked j message) = refl

  past_the_wanted :
      (wanted : ℕ) (gs : List (Generated x h t)) (r : RunState)
      → wanted < r.index
      → r.index + length gs ≤ u32_max
      → Same (run_cases x h t config (some wanted) invariants env gs r) (r, none)
  unfolding run_cases stop_or
  past_the_wanted wanted [] r past fits = (refl, refl, refl)
  past_the_wanted wanted (g ∷ gs) r past fits = rw (skipped wanted g r (λ e. omega arith)) (
      past_the_wanted wanted gs (record r { index = saturating_add r.index 1 })
        (unfold saturating_add in omega arith) (unfold saturating_add in omega arith))

  replay_from :
      (n : ℕ) (gs : List (Generated x h t)) (g : Generated x h t) (r : RunState)
      → get_elem? gs n ≡ some g
      → r.index + length gs ≤ u32_max
      → Same (run_cases x h t config (some (r.index + n)) invariants env gs r) (alone g r)
  unfolding run_cases
  replay_from n [] g r e fits = cc
  replay_from zero (g' ∷ gs) g r e fits =
      let next : RunState = record r { index = saturating_add r.index 1 } in
      let here = alone g' next in
      let count =
        index-settle next (run_case x h t config invariants env r.journal g'.0 g'.1 0).0 in
      let rest =
        past_the_wanted (r.index + 0) gs here.0 (unfold saturating_add in omega (arith, count))
          (unfold saturating_add in omega (arith, count)) in
      let a =
        stop_or-Same here.1 here.0
          (run_cases x h t config (some (r.index + 0)) invariants env gs here.0) rest in
      let b =
        settle-Same r next.index (run_case x h t config invariants env r.journal g'.0 g'.1 0).0 in
      let q : g' ≡ g = cc e in
      subst
        (λ (z : Generated x h t).
          Same (run_cases x h t config (some (r.index + 0)) invariants env (g' ∷ gs) r) (alone z r))
        q (rw (wanted_runs (r.index + 0) g' r (omega arith)) (a.0 ∙ b.0, a.1 ∙ b.1, a.2 ∙ b.2))
  replay_from (suc n) (g' ∷ gs) g r e fits =
      let next : RunState = record r { index = saturating_add r.index 1 } in
      let ih = replay_from n gs g next e (unfold saturating_add in omega arith) in
      let w : next.index + n ≡ r.index + suc n = unfold saturating_add in omega arith in
      let a =
        subst
          (λ (k : ℕ). Same (run_cases x h t config (some k) invariants env gs next) (alone g next))
          w ih in
      let b =
        settle-Same r next.index (run_case x h t config invariants env r.journal g.0 g.1 0).0 in
      rw (skipped (r.index + suc n) g' r (λ d. omega arith))
        (unfold stop_or in (a.0 ∙ b.0, a.1 ∙ b.1, a.2 ∙ b.2))

  -- Replaying a case of a run that its 32-bit counter can tell apart: whatever the other cases are,
  -- the result is that of the wanted case alone, its tally and its journal included.
  pub replay_runs_one_case :
      (wanted : ℕ) (gs : List (Generated x h t)) (g : Generated x h t) (r : RunState)
      → r.index ≡ 0
      → get_elem? gs wanted ≡ some g
      → length gs ≤ u32_max
      → let all = run_cases x h t config (some wanted) invariants env gs r in
        let one = settle x h t r (run_case x h t config invariants env r.journal g.0 g.1 0).0 in
        (all.1 ≡ one.1) × (all.0.tally ≡ one.0.tally) × (all.0.journal ≡ one.0.journal)
  replay_runs_one_case wanted gs g r z e fits =
      let w : r.index + wanted ≡ wanted = omega (arith, z) in
      subst (λ (k : ℕ). Same (run_cases x h t config (some k) invariants env gs r) (alone g r)) w
        (replay_from wanted gs g r e (omega (arith, z)))
