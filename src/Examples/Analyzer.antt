-- ===== src/Examples/Analyzer.antt =====
-- A tree of two files, one of which cannot be read, and a rule with its detector.
use soroban_fuzzer.Prelude.{
  ℕ, ◌+◌, ◌-◌, ◌*◌, ◌≤◌, ◌≡◌, ◌↔◌, refl, String, true, false, List, [], ◌∷◌, keep, any, length,
  some, All, arith, if◌then◌else◌,
}
use soroban_fuzzer.Prelude.Order.{same, string_ord}
use soroban_fuzzer.Prelude.ListOrder.{list_ord}
use soroban_fuzzer.Prelude.Ascending.{IsStrict}
use soroban_fuzzer.Prelude.Sort.{sort_by, insert_by, dedup, dedup_after}
use soroban_fuzzer.Prelude.Chars.{
  trim, trim_start, trim_end, is_whitespace, to_ascii_lowercase, lower_char, shift_upper,
}
use soroban_fuzzer.Prelude.Fallible.{Fallible, ok, err}
use soroban_fuzzer.Analyzer.Severity.{
  medium, high, severity_text, severity_from_str, severity_from_str_iff,
}
use soroban_fuzzer.Analyzer.Finding.{Finding, Location}
use soroban_fuzzer.Analyzer.Rules.Defs.{
  Rule, RuleFile, RuleSet, from_sources, find_rule, rules_in_order,
}
use soroban_fuzzer.Analyzer.Rules.Loaded.{IsKept, first_with_id, from_sources_lem}
use soroban_fuzzer.Analyzer.Source.Lines.{SourceFile, Reader}
use soroban_fuzzer.Analyzer.Engine.Defs.{report_at, Detector, check_file, validate}
use soroban_fuzzer.Analyzer.Engine.Valid.{AllRuled, AllEnforced, validate_iff}
use soroban_fuzzer.Analyzer.Engine.Checked.{AllFiled, filed, calls_made, check_file_lem}
use soroban_fuzzer.Analyzer.Baseline.Defs.{
  Baseline, from_findings, matches, parse_baseline, document, to_json,
}
use soroban_fuzzer.Analyzer.Baseline.Matching.{Occurs, matches_iff}
use soroban_fuzzer.Analyzer.Baseline.Roundtrip.{baseline-roundtrip}
use soroban_fuzzer.Analyzer.Report.Defs.{Report, json, format_from_str, exit_code}
use soroban_fuzzer.Analyzer.Report.Gate.{
  gates, excused_by_rule, excused_report, excused_report_lem, AllBelow, exit_code_iff,
}
use soroban_fuzzer.Analyzer.Walk.Tree.{
  FilePath, Node, regular, symlink, directory, no_more, entry, collect,
}
use soroban_fuzzer.Analyzer.Walk.Found.{is_asked_for}
use soroban_fuzzer.Analyzer.Paths.Pool.{
  Pool, ready, holding, worker_count, start_pool, Reaches, here, moved, AllStopped, tick,
  advance_thread, advance_worker, put_back, in_front, pool_of,
}
use soroban_fuzzer.Analyzer.Paths.Complete.{run_length, can_finish}
use soroban_fuzzer.Analyzer.Paths.Analysis.{
  Analyzer, Results, collect_all, canonical, many_threads, AnalyzePaths,
}
use soroban_fuzzer.Analyzer.Paths.Refined.{file_by_file, canonical_files, AnalyzePaths_lem}
use soroban_fuzzer.Analyzer.Config.File.{
  PathText, ConfigFile, Config, Files, parse_config, check_config, config_of, resolve,
  unknown_rules,
}
use soroban_fuzzer.Analyzer.Config.Accepted.{IsResolved, parse_config-IsResolved}
use soroban_fuzzer.Analyzer.Command.Run.{Settings, RunEnd}
use soroban_fuzzer.Analyzer.Command.Adopt.{concluded, conclude_adopts}
use soroban_fuzzer.Prelude.{none}
use soroban_fuzzer.Prelude.BTree.{get}
use soroban_fuzzer.Analyzer.Severity.{low}
use soroban_fuzzer.Analyzer.Source.Newlines.{cursor}
use soroban_fuzzer.Analyzer.Source.Cursor.{locate-cursor}
use soroban_fuzzer.Analyzer.Source.Lines.{locate, line_index}
use soroban_fuzzer.Prelude.Text.{◌<>◌}

abbrev a_rule : Rule
a_rule = record {
  id = "r";
  title = "A rule";
  severity = medium;
  rationale = "Why it is a bug.";
  remediation = "Fix it.";
  references = [];
  triggers = "fn a() {}";
  clean = "fn b() {}";
  heuristic = false;
  file = "r.json";
}

abbrev some_rules : RuleSet
some_rules = ("r", a_rule) ∷ []

abbrev a_place : Location
a_place = record { start = record { offset = 0; line = 1; column = 1 }; end_offset = 2 }

abbrev a_detector : Detector ℕ
a_detector = record { id = "r"; check = λ file rule. report_at a_place "found" ∷ [] }

abbrev no_ranges : ℕ → List (ℕ × ℕ)
no_ranges ast = []

abbrev a_reader : Reader ℕ
a_reader = record {
  parse_text = λ text. ok 0;
  read_to_string = λ path. if same path "src/b.rs" then err "denied" else ok "fn f() {}";
}

abbrev an_analyzer : Analyzer ℕ
an_analyzer = record { detectors = a_detector ∷ []; rules = some_rules }

abbrev a_tree : FilePath → Node
a_tree path = directory (entry "b.rs" regular (entry "link" symlink (entry "a.rs" regular no_more)))

abbrev named_paths : List FilePath
named_paths = ("src" ∷ []) ∷ []

abbrev two_files : List FilePath
two_files = ("src" ∷ "a.rs" ∷ []) ∷ ("src" ∷ "b.rs" ∷ []) ∷ []

canonical_files_example :
    IsStrict (canonical (collect_all a_tree named_paths).0)
    × ((p : FilePath)
        → any (λ q. same q p) (canonical (collect_all a_tree named_paths).0)
          ≡ any (λ named. is_asked_for p named (a_tree named)) named_paths)
canonical_files_example = canonical_files a_tree named_paths

-- The second of two threads has claimed the first of two files.
abbrev one_move : Pool ℕ
one_move = record { next = 1; workers = ready ∷ holding 0 ∷ []; outcomes = [] }

one_move_made : Reaches 2 (λ (i : ℕ). i) (start_pool 2) 1 one_move
unfolding start_pool tick advance_thread advance_worker put_back in_front pool_of
one_move_made = moved 1 here refl

run_length_example : (1 ≤ 2 * 2 + 2) × (AllStopped (Pool.workers one_move) ↔ (1 ≡ 2 * 2 + 2))
run_length_example = run_length 2 (λ i. i) 2 1 one_move (omega arith) one_move_made

can_finish_example :
    (r : Pool ℕ) × Reaches 2 (λ (i : ℕ). i) one_move (2 * 2 + 2 - 1) r × AllStopped r.workers
can_finish_example = can_finish 2 (λ i. i) 2 1 one_move (omega arith) one_move_made

abbrev run_files : List FilePath
run_files = canonical (collect_all a_tree named_paths).0

two_found : run_files ≡ two_files
unfolding canonical collect_all collect sort_by insert_by dedup dedup_after
two_found = refl

-- Thread 1 claims the first file and thread 0 the second, which is handed in first.
crossed_run : (r : Results) × AnalyzePaths no_ranges a_reader an_analyzer a_tree named_paths 2 r
unfolding canonical collect_all collect sort_by insert_by dedup dedup_after start_pool tick
    advance_thread advance_worker put_back in_front pool_of worker_count
crossed_run = (
  _,
  many_threads (omega arith)
      (moved 1 (moved 0 (moved 1 (moved 0 (moved 0 (moved 1 here refl) refl) refl) refl) refl) refl)
      tt refl,
)

AnalyzePaths_lem_example :
    crossed_run.0
    ≡ file_by_file no_ranges a_reader an_analyzer
        (record { findings = []; suppressed = []; problems = (collect_all a_tree named_paths).1 })
        (canonical (collect_all a_tree named_paths).0)
AnalyzePaths_lem_example =
    AnalyzePaths_lem no_ranges a_reader an_analyzer a_tree named_paths 2 crossed_run.0 crossed_run.1

abbrev long_text : String
long_text = "A rationale that is longer than forty bytes."

abbrev a_rule_file : RuleFile
a_rule_file = record {
  schema_version = 1;
  id = "r";
  title = "A rule";
  severity = medium;
  rationale = long_text;
  remediation = "Fix it.";
  references = [];
  heuristic = false;
  examples = record { triggers = "fn a() {}"; clean = "fn b() {}" };
}

abbrev read_rule : String → Fallible RuleFile String
read_rule text = if same text "broken" then err "no object" else ok a_rule_file

from_sources_lem_example :
    All (IsKept read_rule) (from_sources read_rule ("r.json" ∷ []) ("{}" ∷ "broken" ∷ "{}" ∷ [])).0
    × (length (from_sources read_rule ("r.json" ∷ []) ("{}" ∷ "broken" ∷ "{}" ∷ [])).0
          + length (from_sources read_rule ("r.json" ∷ []) ("{}" ∷ "broken" ∷ "{}" ∷ [])).1
        ≡ 3)
    × (find_rule "r" (from_sources read_rule ("r.json" ∷ []) ("{}" ∷ "broken" ∷ "{}" ∷ [])).0
        ≡ first_with_id read_rule ("r.json" ∷ []) 0 ("{}" ∷ "broken" ∷ "{}" ∷ []) "r")
from_sources_lem_example =
    from_sources_lem read_rule ("r.json" ∷ []) ("{}" ∷ "broken" ∷ "{}" ∷ []) "r"

validate_iff_example : (validate (a_detector ∷ []) some_rules ≡ []) ↔ (
    AllRuled some_rules (a_detector ∷ [])
    × AllEnforced (a_detector ∷ []) (rules_in_order some_rules))
validate_iff_example = validate_iff (a_detector ∷ []) some_rules

abbrev a_source : SourceFile ℕ
a_source = record { path = "./src/a.rs"; text = "fn f() {}"; ast = 0; lines = 0 ∷ [] }

check_file_lem_example :
    AllFiled no_ranges some_rules a_source
      (check_file no_ranges (a_detector ∷ []) some_rules a_source)
    × (filed no_ranges (check_file no_ranges (a_detector ∷ []) some_rules a_source)
        ≡ calls_made no_ranges (a_detector ∷ []) some_rules a_source)
check_file_lem_example = check_file_lem no_ranges (a_detector ∷ []) some_rules a_source (refl, tt)

abbrev finding_at : ℕ → String → Finding
finding_at line message = record {
  rule = "r";
  message = message;
  remediation = "Fix it.";
  file = "a";
  location = record { start = record { offset = 0; line = line; column = 1 }; end_offset = 2 };
  source_line = "fn f() {}";
}

-- The same occurrence on another line.
matches_iff_example :
    (matches
        (from_findings (finding_at 3 "found" ∷ finding_at 9 "other" ∷ []))
        (finding_at 5 "found")
      ≡ true)
    ↔ Occurs (finding_at 5 "found") (finding_at 3 "found" ∷ finding_at 9 "other" ∷ [])
matches_iff_example =
    matches_iff (finding_at 3 "found" ∷ finding_at 9 "other" ∷ []) (finding_at 5 "found")
      (omega arith) (omega arith)

abbrev recorded_findings : Baseline
recorded_findings = from_findings (finding_at 3 "found" ∷ [])

baseline-roundtrip_example :
    parse_baseline
      (λ text. ok (document "0.1.0" recorded_findings))
      (λ text. some 1)
      (to_json (λ file. some "{}") "0.1.0" recorded_findings)
    ≡ ok recorded_findings
baseline-roundtrip_example =
    baseline-roundtrip (λ file. some "{}") (λ text. ok (document "0.1.0" recorded_findings))
      (λ text. some 1) "0.1.0" recorded_findings "{}" refl refl

abbrev three_findings : List Finding
three_findings = finding_at 3 "found" ∷ finding_at 5 "new" ∷ finding_at 9 "other" ∷ []

abbrev a_report : Report
a_report = excused_report recorded_findings ("q" ∷ []) three_findings [] [] some_rules

excused_report_lem_example :
    (a_report.findings ≡ keep (gates recorded_findings ("q" ∷ [])) three_findings)
    × (a_report.baselined ≡ keep (matches recorded_findings) three_findings)
    × (a_report.disabled ≡ keep (excused_by_rule recorded_findings ("q" ∷ [])) three_findings)
    × (length a_report.findings + length a_report.baselined + length a_report.disabled ≡ 3)
excused_report_lem_example =
    excused_report_lem recorded_findings three_findings [] [] some_rules ("q" ∷ [])

exit_code_iff_example :
    (exit_code high a_report ≡ 0)
    ↔ ((a_report.problems ≡ []) × AllBelow a_report.rules high a_report.findings)
exit_code_iff_example = exit_code_iff high a_report

severity_from_str_iff_example :
    (severity_from_str " MEDIUM " ≡ ok medium)
    ↔ (to_ascii_lowercase (trim " MEDIUM ") ≡ severity_text medium)
severity_from_str_iff_example = severity_from_str_iff " MEDIUM " medium

abbrev any_path : PathText
any_path = record {
  path_of = λ text. text ∷ [];
  is_absolute = λ path. false;
  parent = λ path. none;
}

abbrev a_config_file : ConfigFile
a_config_file = record {
  schema_version = 1;
  paths = some ("src" ∷ []);
  format = some "json";
  severity = none;
  baseline = none;
  disabled_rules = " r" ∷ [];
}

abbrev a_config : Config
a_config = record {
  paths = some (("." ∷ "src" ∷ []) ∷ []);
  format = some json;
  severity = none;
  baseline = none;
  disabled_rules = "r" ∷ [];
  source = none;
}

abbrev accept_text : String → Fallible ConfigFile String
accept_text text = ok a_config_file

config_accepted :
    parse_config any_path (λ text. ok a_config_file) (λ text. none) "{}" ("." ∷ []) some_rules
    ≡ ok a_config
unfolding parse_config check_config config_of resolve unknown_rules find_rule get trim trim_start
    trim_end is_whitespace format_from_str to_ascii_lowercase lower_char shift_upper
config_accepted = refl

parse_config-IsResolved_example :
    (file : ConfigFile) × (accept_text "{}" ≡ ok file)
    × IsResolved any_path file ("." ∷ []) some_rules a_config
parse_config-IsResolved_example =
    parse_config-IsResolved any_path accept_text (λ text. none) "{}" ("." ∷ []) some_rules a_config
      config_accepted

abbrev no_files : Files
no_files = record {
  is_file = λ path. false;
  read_to_string = λ path. err "missing";
  current_dir = none;
}

abbrev some_settings : Settings
some_settings = record { format = json; severity = low; paths = []; baseline_path = none }

abbrev some_results : Results
some_results = record { findings = three_findings; suppressed = []; problems = "b.rs: denied" ∷ [] }

abbrev adopting : RunEnd
adopting =
    concluded no_files (λ text. err "missing") (λ text. none) (λ file. some "{}") (λ path. true)
      "0.1.0" (some ("b.json" ∷ [])) true some_settings [] some_results some_rules

conclude_adopts_example :
    ((adopting.status ≡ 0) ↔ (some_results.problems ≡ []))
    × (adopting.written
        ≡ some ("b.json" ∷ [], to_json (λ file. some "{}") "0.1.0" (from_findings three_findings)))
conclude_adopts_example =
    conclude_adopts no_files (λ text. err "missing") (λ text. none) (λ file. some "{}")
      (λ path. true) "0.1.0" ("b.json" ∷ []) some_settings [] some_results some_rules refl

-- The first part ends after a two-byte character on the second line.
locate-cursor_example :
    locate (line_index ("a\nü" <> "x")) ("a\nü" <> "x") 4
    ≡ record { offset = 4; line = (cursor 1 1 "a\nü").0; column = (cursor 1 1 "a\nü").1 }
locate-cursor_example = locate-cursor "a\nü" "x"

cursor_column : cursor 1 1 "a\nü" ≡ (2, 2)
unfolding cursor
cursor_column = refl
