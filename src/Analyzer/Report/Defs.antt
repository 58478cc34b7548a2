-- ===== src/Analyzer/Report/Defs.antt =====
-- soroban-analyzer/src/report.rs: a report's four lists of findings, its counts, its exit status
-- and the orders it is read in. The rendering is not modelled.
use Prim.Native.Nat.{Ordering}
use soroban_fuzzer.Prelude.{
  ℕ, String, Bool, true, false, ◌||◌, List, [], ◌∷◌, map, any, keep, length, ltb, leb,
  if◌then◌else◌, Option, none, some,
}
use soroban_fuzzer.Prelude.Order.{same, nat_ord, string_ord}
use soroban_fuzzer.Prelude.BTree.{BTreeSet, set_insert}
use soroban_fuzzer.Prelude.Sort.{sort_by}
use soroban_fuzzer.Prelude.Text.{◌<>◌}
use soroban_fuzzer.Prelude.Chars.{trim, to_ascii_lowercase}
use soroban_fuzzer.Prelude.Fallible.{Fallible, ok, err}
use soroban_fuzzer.Analyzer.Severity.{
  Severity, info, low, medium, high, critical, severity_rank, severity_ord,
}
use soroban_fuzzer.Analyzer.Finding.{Finding}
use soroban_fuzzer.Analyzer.Rules.Defs.{RuleSet, severity_in}
use soroban_fuzzer.Analyzer.Baseline.Defs.{Baseline, matches, then_with}

pub data Format : Type 0 where
  text json sarif : Format

abbrev pub format_named : String → Fallible Format String
format_named name =
    if same name "text" || same name "human"
    then ok text
    else if same name "json"
    then ok json
    else if same name "sarif"
    then ok sarif
    else err ("unknown format `" <> name <> "`; expected one of: text, json, sarif")

unfoldable pub format_from_str : String → Fallible Format String
format_from_str s = format_named (to_ascii_lowercase (trim s))

unfoldable pub format_text : Format → String
format_text text = "text"
format_text json = "json"
format_text sarif = "sarif"

pub record Report : Type 0 where
  pub findings : List Finding
  pub suppressed : List Finding
  pub baselined : List Finding
  pub disabled : List Finding
  pub problems : List String
  pub rules : RuleSet

unfoldable pub report_of : List Finding → List Finding → List String → RuleSet → Report
report_of findings suppressed problems rules = record {
  findings = findings;
  suppressed = suppressed;
  baselined = [];
  disabled = [];
  problems = problems;
  rules = rules;
}

-- `partition`: what passes the test, and what does not, in the order of the list.
abbrev pub partition {ℓ} : {A : Type ℓ} → (A → Bool) → List A → List A × List A
partition p [] = ([], [])
partition p (x ∷ xs) =
    let rest = partition p xs in if p x then (x ∷ rest.0, rest.1) else (rest.0, x ∷ rest.1)

unfoldable pub with_baseline : Baseline → Report → Report
with_baseline b r =
    let parts = partition (matches b) r.findings in
    record {
      findings = parts.1;
      suppressed = r.suppressed;
      baselined = parts.0;
      disabled = r.disabled;
      problems = r.problems;
      rules = r.rules;
    }

abbrev pub is_named : List String → Finding → Bool
is_named ids f = any (λ id. same id f.rule) ids

unfoldable pub with_disabled_rules : List String → Report → Report
with_disabled_rules [] r = r
with_disabled_rules (id ∷ ids) r =
    let parts = partition (is_named (id ∷ ids)) r.findings in
    record {
      findings = parts.1;
      suppressed = r.suppressed;
      baselined = r.baselined;
      disabled = parts.0;
      problems = r.problems;
      rules = r.rules;
    }

-- `Iterator::max`, the last of equal elements.
abbrev pub worse : Severity → Option Severity → Severity
worse s none = s
worse s (some t) = if ltb (severity_rank t) (severity_rank s) then s else t

unfoldable pub worst_of : RuleSet → List Finding → Option Severity
worst_of rules [] = none
worst_of rules (f ∷ fs) = some (worse (severity_in rules f) (worst_of rules fs))

unfoldable pub worst : Report → Option Severity
unfolding worst_of
worst r = worst_of r.rules r.findings

abbrev pub at_or_above : RuleSet → Severity → Finding → Bool
at_or_above rules threshold f = leb (severity_rank threshold) (severity_rank (severity_in rules f))

unfoldable pub count_at_or_above : Severity → Report → ℕ
count_at_or_above threshold r = length (keep (at_or_above r.rules threshold) r.findings)

unfoldable pub count_of : Report → Severity → ℕ
count_of r severity = length (keep (λ f. same (severity_in r.rules f) severity) r.findings)

abbrev pub worst_first : List Severity
worst_first = critical ∷ high ∷ medium ∷ low ∷ info ∷ []

unfoldable pub counts_by_severity : Report → List (Severity × ℕ)
unfolding count_of
counts_by_severity r = map (λ severity. (severity, count_of r severity)) worst_first

abbrev pub has_any {ℓ} : {A : Type ℓ} → List A → Bool
has_any [] = false
has_any (x ∷ xs) = true

unfoldable pub exit_code : Severity → Report → ℕ
unfolding count_at_or_above
exit_code threshold r = if has_any r.problems || ltb 0 (count_at_or_above threshold r) then 1 else 0

-- `collect::<BTreeSet<_>>()` of the excused rules, read in order
abbrev pub rule_set_of : List Finding → BTreeSet String
rule_set_of [] = []
rule_set_of (f ∷ fs) = set_insert f.rule (rule_set_of fs)

unfoldable pub disabled_rule_ids : Report → List String
disabled_rule_ids r = map (λ e. e.0) (rule_set_of r.disabled)

unfoldable pub position_cmp : Finding → Finding → Ordering
position_cmp l r = then_with (string_ord.cmp l.file r.file) (
    then_with (nat_ord.cmp l.location.start.line r.location.start.line) (
      then_with (nat_ord.cmp l.location.start.column r.location.start.column)
        (string_ord.cmp l.rule r.rule)))

unfoldable pub by_position : List Finding → List Finding
unfolding position_cmp sort_by
by_position fs = sort_by position_cmp fs

-- Worst first, then by position.
unfoldable pub reading_cmp : RuleSet → Finding → Finding → Ordering
unfolding position_cmp
reading_cmp rules l r =
    then_with (severity_ord.cmp (severity_in rules r) (severity_in rules l)) (position_cmp l r)

unfoldable pub ordered : Report → List Finding
unfolding reading_cmp sort_by
ordered r = sort_by (reading_cmp r.rules) r.findings
