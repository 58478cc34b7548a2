-- ===== src/Analyzer/Command/Run.antt =====
-- soroban-analyzer/src/main.rs: `analyze`, from the options to the exit status. What is printed is
-- not modelled; what is written to the baseline file is.
use soroban_fuzzer.Prelude.{
  ℕ, String, Bool, true, false, List, [], ◌∷◌, Option, none, some, if◌then◌else◌,
}
use soroban_fuzzer.Prelude.Fallible.{Fallible, ok, err}
use soroban_fuzzer.Analyzer.Severity.{Severity, high}
use soroban_fuzzer.Analyzer.Rules.Defs.{RuleSet, RuleError}
use soroban_fuzzer.Analyzer.Engine.Defs.{Detector, validate, all_or_errors}
use soroban_fuzzer.Analyzer.Baseline.Defs.{
  BaselineFile, Baseline, from_findings, parse_baseline, to_json,
}
use soroban_fuzzer.Analyzer.Report.Defs.{
  Format, text, Report, report_of, with_baseline, with_disabled_rules, exit_code,
}
use soroban_fuzzer.Analyzer.Walk.Tree.{FilePath}
use soroban_fuzzer.Analyzer.Config.File.{
  Config, default_config, ConfigFile, PathText, Files, read_config, discover,
}
use soroban_fuzzer.Analyzer.Paths.Analysis.{Results}
use soroban_fuzzer.Analyzer.Command.Options.{Options}

-- `Option::or`
abbrev pub or_else {ℓ} : {A : Type ℓ} → Option A → Option A → Option A
or_else none other = other
or_else (some a) other = some a

abbrev pub unwrap_or {ℓ} : {A : Type ℓ} → A → Option A → A
unwrap_or a none = a
unwrap_or a (some b) = b

-- What a run is to do, the command line before the configuration before the defaults.
pub record Settings : Type 0 where
  pub format : Format
  pub severity : Severity
  pub paths : List FilePath
  pub baseline_path : Option FilePath

abbrev pub chosen_paths : List FilePath → Option (List FilePath) → FilePath → List FilePath
chosen_paths (p ∷ ps) configured here = p ∷ ps
chosen_paths [] (some configured) here = configured
chosen_paths [] none here = here ∷ []

unfoldable pub settings : FilePath → Options → Config → Settings
settings here o c = record {
  format = unwrap_or text (or_else o.format c.format);
  severity = unwrap_or high (or_else o.severity c.severity);
  paths = chosen_paths o.paths c.paths here;
  baseline_path = or_else o.baseline c.baseline;
}

-- The report of a run, the baseline applied first if there is one.
unfoldable pub make_report : Option Baseline → List String → Results → RuleSet → Report
unfolding report_of with_baseline with_disabled_rules
make_report none disabled r rules =
    with_disabled_rules disabled (report_of r.findings r.suppressed r.problems rules)
make_report (some b) disabled r rules =
    with_disabled_rules disabled
      (with_baseline b (report_of r.findings r.suppressed r.problems rules))

-- The end of a run: the status, and the baseline that was written.
pub record RunEnd : Type 0 where
  pub status : ℕ
  pub report : Option Report
  pub written : Option (FilePath × String)

abbrev pub cannot_run : RunEnd
cannot_run = record { status = 2; report = none; written = none }

-- `Config::read` or `Config::discover`.
module _ (t : PathText) (fs : Files) (read_config_file : String → Fallible ConfigFile String)
    (probe_config : String → Option ℕ) where
  abbrev pub or_default : Fallible (Option Config) String → Fallible Config String
  or_default (ok none) = ok default_config
  or_default (ok (some c)) = ok c
  or_default (err e) = err e

  abbrev pub config_at : Option FilePath → RuleSet → Fallible Config String
  config_at (some path) rules = read_config t read_config_file probe_config fs path rules
  config_at none rules =
      or_default (
        discover t read_config_file probe_config fs (unwrap_or (t.path_of ".") fs.current_dir)
          rules)

  unfoldable pub resolve_config : Options → RuleSet → Fallible Config String
  unfolding read_config discover
  resolve_config o rules = config_at o.config rules

-- The end of a run once its findings are there.
module _ (fs : Files) (read_baseline_file : String → Fallible BaselineFile String)
    (probe_baseline : String → Option ℕ) (write_json : BaselineFile → Option String)
    (can_write : FilePath → Bool) (version : String) where
  abbrev pub finished : Severity → Report → Option (FilePath × String) → RunEnd
  finished severity report written = record {
    status = exit_code severity report;
    report = some report;
    written = written;
  }

  abbrev pub parse_old : Fallible String String → Fallible Baseline String
  parse_old (err e) = err e
  parse_old (ok content) = parse_baseline read_baseline_file probe_baseline content

  abbrev pub with_old :
      Fallible Baseline String → Settings → List String → Results → RuleSet → RunEnd
  with_old (err e) s disabled r rules = cannot_run
  with_old (ok b) s disabled r rules =
      finished s.severity (make_report (some b) disabled r rules) none

  -- With a baseline's path and whether to write it.
  unfoldable pub conclude :
      Option FilePath → Bool → Settings → List String → Results → RuleSet → RunEnd
  unfolding parse_baseline from_findings to_json make_report exit_code
  conclude none write s disabled r rules =
      finished s.severity (make_report none disabled r rules) none
  conclude (some path) true s disabled r rules =
      let b = from_findings r.findings in
      if can_write path
      then finished s.severity (make_report (some b) disabled r rules)
          (some (path, to_json write_json version b))
      else cannot_run
  conclude (some path) false s disabled r rules =
      with_old (parse_old (fs.read_to_string path)) s disabled r rules

abbrev pub lacks_file : Bool → Option FilePath → Bool
lacks_file true none = true
lacks_file true (some path) = false
lacks_file false path = false

-- The results of the analysis are asked for with the paths and the jobs.
module _ (t : PathText) (fs : Files) (read_config_file : String → Fallible ConfigFile String)
    (probe_config : String → Option ℕ) (read_baseline_file : String → Fallible BaselineFile String)
    (probe_baseline : String → Option ℕ) (write_json : BaselineFile → Option String)
    (can_write : FilePath → Bool) (version : String)
    (analysis : List FilePath → Option ℕ → Results) where
  abbrev pub run_with : Options → RuleSet → Fallible Config String → RunEnd
  run_with o rules (err e) = cannot_run
  run_with o rules (ok c) =
      let s = settings (t.path_of ".") o c in
      if lacks_file o.write_baseline s.baseline_path
      then cannot_run
      else conclude fs read_baseline_file probe_baseline write_json can_write version
          s.baseline_path o.write_baseline s c.disabled_rules (analysis s.paths o.jobs) rules

  abbrev pub run_valid : Options → RuleSet → List String → RunEnd
  run_valid o rules [] =
      run_with o rules (resolve_config t fs read_config_file probe_config o rules)
  run_valid o rules (p ∷ ps) = cannot_run

  abbrev pub run_loaded :
      {Ast : Type 0} → List (Detector Ast) → Options → Fallible RuleSet (List RuleError) → RunEnd
  run_loaded ds o (err es) = cannot_run
  run_loaded ds o (ok rules) = run_valid o rules (validate ds rules)

  unfoldable pub run_analyze :
      {Ast : Type 0} → List (Detector Ast) → RuleSet × List RuleError → Options → RunEnd
  unfolding settings resolve_config conclude validate all_or_errors
  run_analyze ds loaded o = run_loaded ds o (all_or_errors loaded)
