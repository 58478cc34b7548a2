-- ===== src/Analyzer/Engine/Defs.antt =====
-- soroban-analyzer/src/detector.rs: the sink that files findings, the check of one file by every
-- detector, and the check that detectors and rules belong together. A detector is a parameter: its
-- id, and the calls of the sink that it makes for a file and its rule.
use soroban_fuzzer.Prelude.{
  ℕ, String, Bool, List, [], ◌∷◌, ◌++◌, any, Option, none, some, if◌then◌else◌, foldl,
}
use soroban_fuzzer.Prelude.Order.{same, string_ord}
use soroban_fuzzer.Prelude.Sort.{sort, sort_by, dedup}
use soroban_fuzzer.Prelude.Text.{◌<>◌}
use soroban_fuzzer.Prelude.Chars.{trim}
use soroban_fuzzer.Prelude.Fallible.{Fallible, ok, err}
use soroban_fuzzer.Analyzer.Finding.{Finding, Location}
use soroban_fuzzer.Analyzer.Rules.Defs.{
  RuleError, Rule, RuleSet, find_rule, rules_in_order, new_finding,
}
use soroban_fuzzer.Analyzer.Source.Lines.{SourceFile, display_path, line_text, location_of_span}
use soroban_fuzzer.Analyzer.Suppress.{is_suppressed}

-- A call of the sink: `report` with a span, or `report_at` with a location.
pub data Call : Type 0 where
  report : ℕ × ℕ → String → Call
  report_at : Location → String → Call

pub record Detector (Ast : Type 0) : Type 0 where
  pub id : String
  pub check : SourceFile Ast → Rule → List Call

pub record FileFindings : Type 0 where
  pub findings : List Finding
  pub suppressed : List Finding

abbrev pub call_message : Call → String
call_message (report span message) = message
call_message (report_at l message) = message

module _ {Ast : Type 0} where
  unfoldable pub trimmed_line : SourceFile Ast → Location → String
  unfolding line_text trim
  trimmed_line file l = trim (line_text file l.start.line)

  abbrev pub place : SourceFile Ast → Call → Location
  place file (report span message) = location_of_span file span
  place file (report_at l message) = l

  unfoldable pub finding_of : Rule → SourceFile Ast → Call → Finding
  unfolding new_finding display_path trimmed_line
  finding_of rule file call =
      let l = place file call in
      new_finding rule (display_path file) (trimmed_line file l) l (call_message call)

abbrev pub empty_sink : FileFindings
empty_sink = record { findings = []; suppressed = [] }

module _ {Ast : Type 0} (item_ranges : Ast → List (ℕ × ℕ)) where
  -- One call of the sink: an `allow` marker files the finding with the suppressed ones.
  unfoldable pub take_call : Rule → SourceFile Ast → FileFindings → Call → FileFindings
  unfolding finding_of is_suppressed
  take_call rule file sink call =
      if is_suppressed item_ranges file rule.id (place file call).start.offset
      then record {
        findings = sink.findings;
        suppressed = sink.suppressed ++ finding_of rule file call ∷ [];
      }
      else record {
        findings = sink.findings ++ finding_of rule file call ∷ [];
        suppressed = sink.suppressed;
      }

  unfoldable pub run_detector : Rule → SourceFile Ast → List Call → FileFindings
  unfolding take_call
  run_detector rule file calls = foldl (take_call rule file) empty_sink calls

  -- A detector without a rule is skipped.
  unfoldable pub add_detector :
      Detector Ast → SourceFile Ast → Option Rule → FileFindings → FileFindings
  unfolding run_detector
  add_detector d file none result = result
  add_detector d file (some rule) result =
      let sink = run_detector rule file (d.check file rule) in
      record {
        findings = result.findings ++ sink.findings;
        suppressed = result.suppressed ++ sink.suppressed;
      }

  unfoldable pub check_with :
      List (Detector Ast) → RuleSet → SourceFile Ast → FileFindings → FileFindings
  unfolding add_detector find_rule
  check_with [] rules file result = result
  check_with (d ∷ ds) rules file result =
      check_with ds rules file (add_detector d file (find_rule d.id rules) result)

  unfoldable pub check_file : List (Detector Ast) → RuleSet → SourceFile Ast → FileFindings
  unfolding check_with
  check_file detectors rules file = check_with detectors rules file empty_sink

module _ {Ast : Type 0} where
  abbrev pub lacks_rule : Detector Ast → Option Rule → List String
  lacks_rule d (some rule) = []
  lacks_rule d none =
      ("detector `" <> d.id <> "` has no rule metadata; add rules/" <> d.id <> ".json") ∷ []

  unfoldable pub without_rule : List (Detector Ast) → RuleSet → List String
  unfolding find_rule
  without_rule [] rules = []
  without_rule (d ∷ ds) rules = lacks_rule d (find_rule d.id rules) ++ without_rule ds rules

  abbrev pub implements : List (Detector Ast) → Rule → Bool
  implements ds rule = any (λ d. same d.id rule.id) ds

  unfoldable pub without_detector : List (Detector Ast) → List Rule → List String
  without_detector ds [] = []
  without_detector ds (rule ∷ rest) =
      let others = without_detector ds rest in
      if implements ds rule
      then others
      else ("rule `" <> rule.id <> "` (in " <> rule.file
          <> ") has no detector; a rule nothing implements is not enforced")
        ∷ others

  unfoldable pub validate : List (Detector Ast) → RuleSet → List String
  unfolding without_rule without_detector rules_in_order sort_by dedup
  validate ds rules =
      dedup (sort (without_rule ds rules ++ without_detector ds (rules_in_order rules)))

-- What `RuleSet::embedded` returned, as a result.
unfoldable pub all_or_errors : RuleSet × List RuleError → Fallible RuleSet (List RuleError)
all_or_errors (rules, []) = ok rules
all_or_errors (rules, e ∷ es) = err (e ∷ es)
