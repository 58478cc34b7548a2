-- ===== src/Analyzer/Rules/Defs.antt =====
-- soroban-analyzer/src/rules.rs: rule files read, checked and kept by their ids, and what a finding
-- takes from its rule. The parser of the files is a parameter.
use Prim.Native.String.{len}
use soroban_fuzzer.Prelude.{
  ℕ, String, Bool, ◌||◌, Option, none, some, List, [], ◌∷◌, ◌++◌, map, ltb, ◌==◌, not,
  if◌then◌else◌, get_elem?, ◌+◌,
}
use soroban_fuzzer.Prelude.Order.{string_ord}
use soroban_fuzzer.Prelude.BTree.{BTreeMap, get, insert, contains_key}
use soroban_fuzzer.Prelude.Text.{◌<>◌, show_nat}
use soroban_fuzzer.Prelude.Chars.{trim, is_blank}
use soroban_fuzzer.Prelude.Fallible.{Fallible, ok, err, and_then, map_err}
use soroban_fuzzer.Analyzer.Severity.{Severity, info, severity_ord}
use soroban_fuzzer.Analyzer.Finding.{Finding, Location}

abbrev pub rule_schema_version : ℕ
rule_schema_version = 1

pub record RuleError : Type 0 where
  pub file : String
  pub problem : String

pub record Rule : Type 0 where
  pub id : String
  pub title : String
  pub severity : Severity
  pub rationale : String
  pub remediation : String
  pub references : List String
  pub triggers : String
  pub clean : String
  pub heuristic : Bool
  pub file : String

pub record RuleExamples : Type 0 where
  pub triggers : String
  pub clean : String

pub record RuleFile : Type 0 where
  pub schema_version : ℕ
  pub id : String
  pub title : String
  pub severity : Severity
  pub rationale : String
  pub remediation : String
  pub references : List String
  pub heuristic : Bool
  pub examples : RuleExamples

abbrev pub RuleSet : Type 0
RuleSet = BTreeMap String Rule

unfoldable pub rule_of : String → RuleFile → Rule
rule_of file raw = record {
  id = raw.id;
  title = raw.title;
  severity = raw.severity;
  rationale = trim raw.rationale;
  remediation = trim raw.remediation;
  references = raw.references;
  triggers = raw.examples.triggers;
  clean = raw.examples.clean;
  heuristic = raw.heuristic;
  file = file;
}

abbrev pub rule_fail : String → String → Fallible Rule RuleError
rule_fail file problem = err (record { file = file; problem = problem })

-- The checks, in the order they are made.
unfoldable pub check_rule : String → RuleFile → Fallible Rule RuleError
unfolding rule_of
check_rule file raw =
    if not (raw.schema_version == rule_schema_version)
    then rule_fail file (
        "rule schema version "
        <> show_nat raw.schema_version
        <> " is not supported by this build, which understands "
        <> show_nat rule_schema_version
        <> ". A rule written for another schema must be migrated rather than reinterpreted.")
    else if is_blank (trim raw.id)
    then rule_fail file "has an empty id"
    else if is_blank (trim raw.title)
    then rule_fail file ("rule `" <> raw.id <> "` has an empty title")
    else if ltb (len (trim raw.rationale)) 40
    then rule_fail file (
        "rule `"
        <> raw.id
        <> "` has a rationale of "
        <> show_nat (len (trim raw.rationale))
        <> " characters: it has to explain why the pattern is a bug and why general Rust tooling misses it")
    else if is_blank (trim raw.remediation)
    then rule_fail file (
        "rule `" <> raw.id
        <> "` has no remediation; a finding that does not say what to do instead is not actionable")
    else if is_blank (trim raw.examples.triggers) || is_blank (trim raw.examples.clean)
    then rule_fail file (
        "rule `" <> raw.id
        <> "` needs both examples: one that must trigger it and one that must not")
    else ok (rule_of file raw)

unfoldable pub find_rule : String → RuleSet → Option Rule
unfolding get
find_rule id rules = get id rules

-- Every rule, in id order.
unfoldable pub rules_in_order : RuleSet → List Rule
rules_in_order rules = map (λ e. e.1) rules

unfoldable pub rule_ids : RuleSet → List String
rule_ids rules = map (λ e. e.0) rules

abbrev pub name_at : List String → ℕ → String
name_at names index = elim (get_elem? names index) [ none ↦ "<embedded>" | some name ↦ name ]

abbrev pub duplicate_rule : String → String → RuleError
duplicate_rule name id = record {
  file = name;
  problem =
      "duplicate rule id `" <> id
      <> "`: ids must be unique, because a finding names its rule by id";
}

module _ (read : String → Fallible RuleFile String) where
  unfoldable pub parse_rule : String → String → Fallible Rule RuleError
  unfolding check_rule
  parse_rule file source =
      and_then
        (map_err
          (λ e. record { file = file; problem = "could not be parsed as a rule file: " <> e })
          (read source))
        (λ raw. check_rule file raw)

  -- One source: a new rule goes in, and a second one of the same id does not.
  unfoldable pub load_rule :
      String → Fallible Rule RuleError → RuleSet × List RuleError → RuleSet × List RuleError
  unfolding insert
  load_rule name (err error) (rules, errors) = (rules, errors ++ error ∷ [])
  load_rule name (ok rule) (rules, errors) =
      if contains_key rule.id rules
      then (rules, errors ++ duplicate_rule name rule.id ∷ [])
      else (insert rule.id rule rules, errors)

  unfoldable pub load_from :
      List String → ℕ → List String → RuleSet × List RuleError → RuleSet × List RuleError
  unfolding parse_rule load_rule
  load_from names index [] loaded = loaded
  load_from names index (source ∷ rest) loaded =
      let name = name_at names index in
      load_from names (index + 1) rest (load_rule name (parse_rule name source) loaded)

  unfoldable pub from_sources : List String → List String → RuleSet × List RuleError
  unfolding load_from
  from_sources names sources = load_from names 0 sources ([], [])

-- `Finding::new`
unfoldable pub new_finding : Rule → String → String → Location → String → Finding
new_finding rule file source_line location message = record {
  rule = rule.id;
  message = message;
  remediation = rule.remediation;
  file = file;
  location = location;
  source_line = source_line;
}

-- `map(...).unwrap_or(Severity::Info)`
abbrev pub severity_or_info : Option Rule → Severity
severity_or_info none = info
severity_or_info (some rule) = rule.severity

unfoldable pub severity_in : RuleSet → Finding → Severity
unfolding find_rule
severity_in rules finding = severity_or_info (find_rule finding.rule rules)
