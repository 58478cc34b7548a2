-- ===== src/Analyzer/Report/Counts.antt =====
-- The counts of a report in soroban-analyzer/src/report.rs.
use soroban_fuzzer.Prelude.{
  ℕ, ◌+◌, ◌≡◌, refl, ap, ◌⊎◌, inl, inr, Bool, false, ◌||◌, List, [], ◌∷◌, keep, length, ltb, leb,
  if◌then◌else◌, Option, none, some, arith,
}
use soroban_fuzzer.Prelude.Order.{same}
use soroban_fuzzer.Analyzer.Severity.{
  Severity, info, low, medium, high, critical, severity_rank, severity_ord,
}
use soroban_fuzzer.Analyzer.Finding.{Finding}
use soroban_fuzzer.Analyzer.Rules.Defs.{RuleSet, severity_in}
use soroban_fuzzer.Analyzer.Report.Defs.{
  Report, worse, worst_of, worst, at_or_above, count_at_or_above, count_of, counts_by_severity,
  has_any, exit_code,
}

-- The worst finding, if there is one, is at least as bad as the threshold.
abbrev pub is_at_least : Severity → Option Severity → Bool
is_at_least t none = false
is_at_least t (some w) = leb (severity_rank t) (severity_rank w)

is_at_least-worse :
    (t s : Severity) (o : Option Severity)
    → is_at_least t (some (worse s o))
      ≡ (leb (severity_rank t) (severity_rank s) || is_at_least t o)
is_at_least-worse t s none = ground arith
is_at_least-worse t s (some u) = ground arith

some_kept :
    (rules : RuleSet) (t : Severity) (fs : List Finding)
    → ltb 0 (length (keep (at_or_above rules t) fs)) ≡ is_at_least t (worst_of rules fs)
unfolding worst_of
some_kept rules t [] = refl
some_kept rules t (f ∷ fs) =
    ground
      (arith, some_kept rules t fs, is_at_least-worse t (severity_in rules f) (worst_of rules fs))

-- The worst finding decides the exit status.
pub exit_code-worst :
    (t : Severity) (r : Report)
    → exit_code t r ≡ (if has_any r.problems || is_at_least t (worst r) then 1 else 0)
unfolding exit_code count_at_or_above worst
exit_code-worst t r =
    ap (λ (b : Bool). if has_any r.problems || b then 1 else 0) (some_kept r.rules t r.findings)

abbrev pub sum_of : List (Severity × ℕ) → ℕ
sum_of [] = 0
sum_of ((s, n) ∷ rest) = n + sum_of rest

Severity-cases :
    (s : Severity) → (s ≡ critical) ⊎ ((s ≡ high) ⊎ ((s ≡ medium) ⊎ ((s ≡ low) ⊎ (s ≡ info))))
Severity-cases critical = inl refl
Severity-cases high = inr (inl refl)
Severity-cases medium = inr (inr (inl refl))
Severity-cases low = inr (inr (inr (inl refl)))
Severity-cases info = inr (inr (inr (inr refl)))

abbrev graded : RuleSet → Severity → List Finding → ℕ
graded rules s fs = length (keep (λ f. same (severity_in rules f) s) fs)

graded_add_up :
    (rules : RuleSet) (fs : List Finding)
    → graded rules critical fs
        + graded rules high fs
        + graded rules medium fs
        + graded rules low fs
        + graded rules info fs
      ≡ length fs
graded_add_up rules [] = omega arith
graded_add_up rules (f ∷ fs) =
    ground (arith, graded_add_up rules fs, Severity-cases (severity_in rules f))

-- Every finding is counted at one severity.
pub counts_add_up : (r : Report) → sum_of (counts_by_severity r) ≡ length r.findings
unfolding counts_by_severity count_of
counts_add_up r = omega (arith, graded_add_up r.rules r.findings)
