-- ===== src/Analyzer/Command/Adopt.antt =====
-- The exit statuses of soroban-analyzer/src/main.rs when a baseline is adopted.
use soroban_fuzzer.Prelude.{
  ℕ, ◌≡◌, ◌↔◌, refl, sym, ◌∙◌, subst, String, Bool, true, List, [], ◌∷◌, keep, All, All-imp, Option,
  some, arith,
}
use soroban_fuzzer.Prelude.Order.{same_iff, string_ord}
use soroban_fuzzer.Prelude.Fallible.{Fallible}
use soroban_fuzzer.Analyzer.Severity.{Severity}
use soroban_fuzzer.Analyzer.Finding.{Finding}
use soroban_fuzzer.Analyzer.Rules.Defs.{RuleSet}
use soroban_fuzzer.Analyzer.Baseline.Defs.{
  BaselineFile, Baseline, finding_identity, from_findings, matches, to_json,
}
use soroban_fuzzer.Analyzer.Baseline.Matching.{recorded, matches-recorded}
use soroban_fuzzer.Analyzer.Report.Defs.{
  Report, exit_code, report_of, with_baseline, with_disabled_rules,
}
use soroban_fuzzer.Analyzer.Report.Gate.{
  gates, excused_report, excused_report_lem, AllBelow, exit_code_iff,
}
use soroban_fuzzer.Analyzer.Walk.Tree.{FilePath}
use soroban_fuzzer.Analyzer.Config.File.{Files}
use soroban_fuzzer.Analyzer.Paths.Analysis.{Results}
use soroban_fuzzer.Analyzer.Command.Run.{Settings, make_report, RunEnd, conclude}

-- A finding is recorded in every list that it stands in.
recorded_by :
    (all fs : List Finding)
    → ((i : String) → recorded i fs ≡ true → recorded i all ≡ true)
    → All (λ f. recorded (finding_identity f) all ≡ true) fs
recorded_by all [] h = tt
recorded_by all (f ∷ fs) h = (
  h (finding_identity f)
      (ground (arith, (same_iff (finding_identity f) (finding_identity f)).1 refl)),
  recorded_by all fs (λ i r. h i (ground arith)),
)

none_gate :
    (b : Baseline) (ids : List String) (fs : List Finding)
    → All (λ f. matches b f ≡ true) fs
    → keep (gates b ids) fs ≡ []
none_gate b ids [] h = refl
none_gate b ids (f ∷ fs) h = ground (arith, h.0, none_gate b ids fs h.1)

kept_whole :
    (b : Baseline) (fs : List Finding) → All (λ f. matches b f ≡ true) fs → keep (matches b) fs ≡ fs
kept_whole b [] h = refl
kept_whole b (f ∷ fs) h = ground (arith, h.0, kept_whole b fs h.1)

-- A baseline matches the findings that it was written from.
own_findings : (fs : List Finding) → All (λ f. matches (from_findings fs) f ≡ true) fs
own_findings fs = All-imp (λ f r. matches-recorded fs f ∙ r) fs (recorded_by fs fs (λ i r. r))

-- The report of a run that writes its baseline.
abbrev pub adopted : List String → Results → RuleSet → Report
adopted disabled r rules =
    excused_report (from_findings r.findings) disabled r.findings r.suppressed r.problems rules

adopted-baselined :
    (disabled : List String) (r : Results) (rules : RuleSet)
    → ((adopted disabled r rules).findings ≡ [])
      × ((adopted disabled r rules).baselined ≡ r.findings)
adopted-baselined disabled r rules =
    let b = from_findings r.findings in
    let parts = excused_report_lem b r.findings r.suppressed r.problems rules disabled in
    (
      parts.0 ∙ none_gate b disabled r.findings (own_findings r.findings),
      parts.1 ∙ kept_whole b r.findings (own_findings r.findings),
    )

problems_kept :
    (b : Baseline) (ids : List String) (found suppressed : List Finding) (problems : List String)
    (rules : RuleSet)
    → (excused_report b ids found suppressed problems rules).problems ≡ problems
unfolding with_disabled_rules with_baseline report_of
problems_kept b [] found suppressed problems rules = refl
problems_kept b (id ∷ ids) found suppressed problems rules = refl

adopted_passes :
    (t : Severity) (disabled : List String) (r : Results) (rules : RuleSet)
    → (exit_code t (adopted disabled r rules) ≡ 0) ↔ (r.problems ≡ [])
adopted_passes t disabled r rules =
    let gate = exit_code_iff t (adopted disabled r rules) in
    let same_problems =
      problems_kept (from_findings r.findings) disabled r.findings r.suppressed r.problems rules in
    (
      λ e. sym same_problems ∙ (gate.0 e).0,
      λ e. gate.1 (
        same_problems ∙ e,
        subst (AllBelow (adopted disabled r rules).rules t)
            (sym (adopted-baselined disabled r rules).0) tt,
      ),
    )

module _ (fs : Files) (read_baseline_file : String → Fallible BaselineFile String)
    (probe_baseline : String → Option ℕ) (write_json : BaselineFile → Option String)
    (can_write : FilePath → Bool) (version : String) where
  abbrev pub concluded :
      Option FilePath → Bool → Settings → List String → Results → RuleSet → RunEnd
  concluded path write s disabled r rules =
      conclude fs read_baseline_file probe_baseline write_json can_write version path write s
        disabled r rules

  -- A run that can write its baseline ends with status 0, whatever it found and whatever the
  -- threshold, exactly when it has no problem, and it has written the baseline of all its
  -- findings.
  pub conclude_adopts :
      (path : FilePath) (s : Settings) (disabled : List String) (r : Results) (rules : RuleSet)
      → can_write path ≡ true
      → ((RunEnd.status (concluded (some path) true s disabled r rules) ≡ 0) ↔ (r.problems ≡ []))
        × (RunEnd.written (concluded (some path) true s disabled r rules)
            ≡ some (path, to_json write_json version (from_findings r.findings)))
  unfolding conclude make_report
  conclude_adopts path s disabled r rules w =
      rw w (adopted_passes s.severity disabled r rules, refl)
