-- ===== src/Analyzer/Report/Gate.antt =====
-- The division of the findings in soroban-analyzer/src/report.rs, and the exit status.
use soroban_fuzzer.Prelude.{
  ◌+◌, ◌<◌, ◌≡◌, ◌↔◌, refl, sym, ap, ◌∙◌, String, Bool, true, false, not, ◌&&◌, List, [], ◌∷◌, keep,
  length, All, arith,
}
use soroban_fuzzer.Analyzer.Severity.{Severity, severity_rank, severity_ord}
use soroban_fuzzer.Analyzer.Finding.{Finding}
use soroban_fuzzer.Analyzer.Rules.Defs.{RuleSet, severity_in}
use soroban_fuzzer.Analyzer.Baseline.Defs.{Baseline, matches}
use soroban_fuzzer.Analyzer.Report.Defs.{
  Report, report_of, partition, with_baseline, with_disabled_rules, is_named, at_or_above,
  count_at_or_above, has_any, exit_code,
}

module _ {ℓ} {A : Type ℓ} where
  partition_lem :
      (p : A → Bool) (xs : List A)
      → (partition p xs).0 ≡ keep p xs × ((partition p xs).1 ≡ keep (λ x. not (p x)) xs)
  partition_lem p [] = (refl, refl)
  partition_lem p (x ∷ xs) = ground (arith, partition_lem p xs)

  keep-keep : (p q : A → Bool) (xs : List A) → keep p (keep q xs) ≡ keep (λ x. q x && p x) xs
  keep-keep p q [] = refl
  keep-keep p q (x ∷ xs) = ground (arith, keep-keep p q xs)

  keep_all : (xs : List A) (p : A → Bool) → ((x : A) → p x ≡ true) → keep p xs ≡ xs
  keep_all [] p h = refl
  keep_all (x ∷ xs) p h = ground (arith, h x, keep_all xs p h)

-- The findings that neither a baseline nor the configuration excuses.
abbrev pub gates : Baseline → List String → Finding → Bool
gates b ids f = not (matches b f) && not (is_named ids f)

abbrev pub excused_by_rule : Baseline → List String → Finding → Bool
excused_by_rule b ids f = not (matches b f) && is_named ids f

-- The report that the program makes: the baseline first, then the configuration.
abbrev pub excused_report :
    Baseline → List String → List Finding → List Finding → List String → RuleSet → Report
excused_report b ids found suppressed problems rules =
    with_disabled_rules ids (with_baseline b (report_of found suppressed problems rules))

keep-false {ℓ} :
    {A : Type ℓ} (p : A → Bool) (xs : List A) → ((x : A) → p x ≡ false) → keep p xs ≡ []
keep-false p [] h = refl
keep-false p (x ∷ xs) h = ground (arith, h x, keep-false p xs h)

keep_same {ℓ} :
    {A : Type ℓ} (p q : A → Bool) (xs : List A) → ((x : A) → p x ≡ q x) → keep p xs ≡ keep q xs
keep_same p q [] h = refl
keep_same p q (x ∷ xs) h = ground (arith, h x, keep_same p q xs h)

and_true : (a : Bool) → (a && not false) ≡ a
and_true true = refl
and_true false = refl

and_false : (a : Bool) → (a && false) ≡ false
and_false true = refl
and_false false = refl

-- How many findings the three tests divide a list into.
length-split :
    (p q : Finding → Bool) (xs : List Finding)
    → length (keep (λ x. not (p x) && not (q x)) xs)
        + length (keep p xs)
        + length (keep (λ x. not (p x) && q x) xs)
      ≡ length xs
length-split p q [] = omega arith
length-split p q (x ∷ xs) = ground (arith, length-split p q xs)

module _ (b : Baseline) (found suppressed : List Finding) (problems : List String)
    (rules : RuleSet) where
  gating_lem :
      (ids : List String)
      → (excused_report b ids found suppressed problems rules).findings ≡ keep (gates b ids) found
  unfolding with_disabled_rules with_baseline report_of
  gating_lem [] =
      (partition_lem (matches b) found).1
      ∙ keep_same (λ f. not (matches b f)) (gates b []) found
          (λ f. sym (and_true (not (matches b f))))
  gating_lem (id ∷ ids) =
      (partition_lem (is_named (id ∷ ids)) (partition (matches b) found).1).1
      ∙ ap (keep (λ f. not (is_named (id ∷ ids) f))) (partition_lem (matches b) found).1
      ∙ keep-keep (λ f. not (is_named (id ∷ ids) f)) (λ f. not (matches b f)) found

  baselined_lem :
      (ids : List String)
      → (excused_report b ids found suppressed problems rules).baselined ≡ keep (matches b) found
  unfolding with_disabled_rules with_baseline report_of
  baselined_lem [] = (partition_lem (matches b) found).0
  baselined_lem (id ∷ ids) = (partition_lem (matches b) found).0

  disabled_lem :
      (ids : List String)
      → (excused_report b ids found suppressed problems rules).disabled
        ≡ keep (excused_by_rule b ids) found
  unfolding with_disabled_rules with_baseline report_of
  disabled_lem [] =
      sym (keep-false (excused_by_rule b []) found (λ f. and_false (not (matches b f))))
  disabled_lem (id ∷ ids) =
      (partition_lem (is_named (id ∷ ids)) (partition (matches b) found).1).0
      ∙ ap (keep (is_named (id ∷ ids))) (partition_lem (matches b) found).1
      ∙ keep-keep (is_named (id ∷ ids)) (λ f. not (matches b f)) found

  -- Baseline and configuration divide the findings, each part in their order: those that the
  -- baseline matches are baselined, the others of a disabled rule are disabled, and the rest gate;
  -- none is lost or counted twice.
  pub excused_report_lem :
      (ids : List String)
      → ((excused_report b ids found suppressed problems rules).findings ≡ keep (gates b ids) found)
        × ((excused_report b ids found suppressed problems rules).baselined
            ≡ keep (matches b) found)
        × ((excused_report b ids found suppressed problems rules).disabled
            ≡ keep (excused_by_rule b ids) found)
        × (length (excused_report b ids found suppressed problems rules).findings
              + length (excused_report b ids found suppressed problems rules).baselined
              + length (excused_report b ids found suppressed problems rules).disabled
            ≡ length found)
  excused_report_lem ids = (
    gating_lem ids,
    baselined_lem ids,
    disabled_lem ids,
    omega (
      arith,
      ap length (gating_lem ids),
      ap length (baselined_lem ids),
      ap length (disabled_lem ids),
      length-split (matches b) (is_named ids) found,
    ),
  )

-- Every finding is below the threshold.
abbrev pub AllBelow : RuleSet → Severity → List Finding → Type 0
AllBelow rules threshold fs =
    All (λ f. severity_rank (severity_in rules f) < severity_rank threshold) fs

none_kept_iff :
    (rules : RuleSet) (t : Severity) (fs : List Finding)
    → (length (keep (at_or_above rules t) fs) ≡ 0) ↔ AllBelow rules t fs
none_kept_iff rules t [] = (λ h. tt, λ h. refl)
none_kept_iff rules t (f ∷ fs) =
    let rest = none_kept_iff rules t fs in
    (λ h. (ground arith, rest.0 (ground arith)), λ h. ground (arith, rest.1 h.1, h.0))

no_problems : (ps : List String) → has_any ps ≡ false → ps ≡ []
no_problems [] h = refl
no_problems (p ∷ ps) h = absurd (cc)

-- The exit status of a report is 0 exactly when it has no problem and every finding that gates has
-- a severity below the threshold.
pub exit_code_iff :
    (t : Severity) (r : Report)
    → (exit_code t r ≡ 0) ↔ ((r.problems ≡ []) × AllBelow r.rules t r.findings)
unfolding exit_code count_at_or_above
exit_code_iff t r =
    let none_kept = none_kept_iff r.rules t r.findings in
    (
      λ h. (no_problems r.problems (ground arith), none_kept.0 (ground arith)),
      λ h. ground (arith, none_kept.1 h.1, ap has_any h.0),
    )
