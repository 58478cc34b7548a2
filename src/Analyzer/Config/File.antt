-- ===== src/Analyzer/Config/File.antt =====
-- soroban-analyzer/src/config.rs: a configuration file, checked against the rules that exist. The
-- reader of JSON and the file system are parameters.
use soroban_fuzzer.Prelude.{
  ℕ, String, Bool, true, false, not, List, [], ◌∷◌, ◌++◌, Option, none, some, map, keep, length,
  ◌==◌, if◌then◌else◌,
}
use soroban_fuzzer.Prelude.Order.{string_ord}
use soroban_fuzzer.Prelude.Text.{◌<>◌, show_nat, join}
use soroban_fuzzer.Prelude.Chars.{trim}
use soroban_fuzzer.Prelude.Fallible.{Fallible, ok, err, and_then, if_given, map_err}
use soroban_fuzzer.Analyzer.Severity.{Severity, severity_from_str}
use soroban_fuzzer.Analyzer.Rules.Defs.{Rule, RuleSet, find_rule}
use soroban_fuzzer.Analyzer.Baseline.Defs.{tool_name}
use soroban_fuzzer.Analyzer.Report.Defs.{Format, format_from_str}
use soroban_fuzzer.Analyzer.Walk.Tree.{FilePath, display}

abbrev pub config_file_name : String
config_file_name = ".soroban-analyzer.json"

abbrev pub config_schema_version : ℕ
config_schema_version = 1

pub record ConfigFile : Type 0 where
  pub schema_version : ℕ
  pub paths : Option (List String)
  pub format : Option String
  pub severity : Option String
  pub baseline : Option String
  pub disabled_rules : List String

pub record Config : Type 0 where
  pub paths : Option (List FilePath)
  pub format : Option Format
  pub severity : Option Severity
  pub baseline : Option FilePath
  pub disabled_rules : List String
  -- where it came from, or none for a default
  pub source : Option FilePath

abbrev pub default_config : Config
default_config = record {
  paths = none;
  format = none;
  severity = none;
  baseline = none;
  disabled_rules = [];
  source = none;
}

abbrev pub version_error : ℕ → String
version_error version =
    "this configuration is schema_version "
    <> show_nat version
    <> ", and this build reads version "
    <> show_nat config_schema_version

unfoldable pub unreadable_config : Option ℕ → String → String
unreadable_config none error = "not a readable configuration: " <> error
unreadable_config (some v) error =
    if v == config_schema_version
    then "not a readable configuration: " <> error
    else version_error v

abbrev pub is_unknown : Option Rule → Bool
is_unknown none = true
is_unknown (some rule) = false

unfoldable pub unknown_rules : RuleSet → List String → List String
unfolding find_rule trim
unknown_rules rules ids = keep (λ id. is_unknown (find_rule (trim id) rules)) ids

abbrev pub unknown_error : List String → String
unknown_error ids =
    "`disabled_rules` names "
    <> (if length ids == 1 then "a rule" else "rules")
    <> " this build does not have: "
    <> join ", " ids
    <> "; run `"
    <> tool_name
    <> " --list` for the rules that exist"

-- What the standard library says of a path's text, as far as it is used here.
pub record PathText : Type 0 where
  pub path_of : String → FilePath
  pub is_absolute : FilePath → Bool
  pub parent : FilePath → Option FilePath

-- What the file system answers.
pub record Files : Type 0 where
  pub is_file : FilePath → Bool
  pub read_to_string : FilePath → Fallible String String
  pub current_dir : Option FilePath

module _ (t : PathText) where
  unfoldable pub resolve : FilePath → String → FilePath
  resolve dir text =
      if t.is_absolute (t.path_of text) then t.path_of text else dir ++ t.path_of text

  abbrev pub optional_map {ℓ κ} : {A : Type ℓ} {B : Type κ} → (A → B) → Option A → Option B
  optional_map f none = none
  optional_map f (some a) = some (f a)

  unfoldable pub config_of : ConfigFile → FilePath → Option Format → Option Severity → Config
  unfolding resolve trim
  config_of file dir format severity = record {
    paths = optional_map (map (resolve dir)) file.paths;
    format = format;
    severity = severity;
    baseline = optional_map (resolve dir) file.baseline;
    disabled_rules = map trim file.disabled_rules;
    source = none;
  }

  abbrev pub known_rules_only : List String → Config → Fallible Config String
  known_rules_only [] config = ok config
  known_rules_only (id ∷ ids) config = err (unknown_error (id ∷ ids))

  -- The checks, in the order they are made.
  unfoldable pub check_config : ConfigFile → FilePath → RuleSet → Fallible Config String
  unfolding format_from_str severity_from_str unknown_rules config_of
  check_config file dir rules =
      if not (file.schema_version == config_schema_version)
      then err (version_error file.schema_version)
      else and_then (if_given format_from_str file.format) (λ format.
        and_then (if_given severity_from_str file.severity) (λ severity.
          known_rules_only (unknown_rules rules file.disabled_rules)
            (config_of file dir format severity)))

  module _ (read : String → Fallible ConfigFile String) (probe : String → Option ℕ) where
    abbrev pub judge_config :
        String → FilePath → RuleSet → Fallible ConfigFile String → Fallible Config String
    judge_config text dir rules (err error) = err (unreadable_config (probe text) error)
    judge_config text dir rules (ok file) = check_config file dir rules

    unfoldable pub parse_config : String → FilePath → RuleSet → Fallible Config String
    unfolding unreadable_config check_config
    parse_config text dir rules = judge_config text dir rules (read text)

    -- `path.parent().unwrap_or_else(..)`
    abbrev pub directory_of : FilePath → FilePath
    directory_of path = elim (t.parent path) [ none ↦ t.path_of "." | some dir ↦ dir ]

    abbrev pub from_here : FilePath → Config → Config
    from_here path c = record c { source = some path }

    abbrev pub parse_here : FilePath → RuleSet → Fallible String String → Fallible Config String
    parse_here path rules (err error) = err (display path <> ": " <> error)
    parse_here path rules (ok text) =
        and_then
          (map_err (λ e. display path <> ": " <> e) (parse_config text (directory_of path) rules))
          (λ c. ok (from_here path c))

    unfoldable pub read_config : Files → FilePath → RuleSet → Fallible Config String
    unfolding parse_config
    read_config fs path rules = parse_here path rules (fs.read_to_string path)

    abbrev pub as_found : Fallible Config String → Fallible (Option Config) String
    as_found (ok c) = ok (some c)
    as_found (err e) = err e

    unfoldable pub discover : Files → FilePath → RuleSet → Fallible (Option Config) String
    unfolding read_config
    discover fs dir rules =
        let path = dir ++ config_file_name ∷ [] in
        if fs.is_file path then as_found (read_config fs path rules) else ok none
