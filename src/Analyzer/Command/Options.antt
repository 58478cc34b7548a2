-- ===== src/Analyzer/Command/Options.antt =====
-- soroban-analyzer/src/main.rs: `parse` of the arguments, as a step for each argument: a flag that
-- still wants its value takes the next argument whatever it is.
use Prim.Native.Char.{code}
use package.text.Mathlib.Text.{starts_with}
use soroban_fuzzer.Prelude.{
  ℕ, String, Bool, true, false, ◌||◌, List, [], ◌∷◌, ◌++◌, Option, none, some, ◌==◌, if◌then◌else◌,
}
use soroban_fuzzer.Prelude.Order.{same, string_ord}
use soroban_fuzzer.Prelude.Text.{◌<>◌}
use soroban_fuzzer.Prelude.Chars.{trim}
use soroban_fuzzer.Prelude.Fallible.{Fallible, ok, err, and_then}
use soroban_fuzzer.Analyzer.Severity.{Severity, severity_from_str}
use soroban_fuzzer.Analyzer.Report.Defs.{Format, format_from_str}
use soroban_fuzzer.Analyzer.Walk.Tree.{FilePath}

pub data Action : Type 0 where
  analyze help version list_rules : Action
  explain : String → Action

pub record Options : Type 0 where
  pub paths : List FilePath
  pub format : Option Format
  pub severity : Option Severity
  pub jobs : Option ℕ
  pub config : Option FilePath
  pub baseline : Option FilePath
  pub write_baseline : Bool
  pub action : Action

abbrev pub no_options : Options
no_options = record {
  paths = [];
  format = none;
  severity = none;
  jobs = none;
  config = none;
  baseline = none;
  write_baseline = false;
  action = analyze;
}

-- The flags that take a value.
pub data ValueFlag : Type 0 where
  explain_flag format_flag severity_flag jobs_flag config_flag baseline_flag : ValueFlag

abbrev pub flag_name : ValueFlag → String
flag_name explain_flag = "--explain"
flag_name format_flag = "--format"
flag_name severity_flag = "--severity"
flag_name jobs_flag = "--jobs"
flag_name config_flag = "--config"
flag_name baseline_flag = "--baseline"

-- `split_once('=')`
unfoldable pub split_equals : String → String × Option String
split_equals String.[] = (String.[], none)
split_equals (String.◌∷◌ c s) =
    let rest = split_equals s in
    if code c == 61 then (String.[], some s) else (String.◌∷◌ c rest.0, rest.1)

abbrev pub at_least_one : ℕ → Fallible ℕ String
at_least_one jobs =
    if jobs == 0 then err "`--jobs` must be at least 1; a run cannot use no threads" else ok jobs

-- What a flag means.
pub data Meaning : Type 0 where
  sets : (Options → Options) → Meaning
  wants : ValueFlag → Meaning
  unknown : Meaning
  a_path : Meaning

unfoldable pub meaning : String → Meaning
meaning flag =
    if same flag "-h" || same flag "--help"
    then sets (λ o. record o { action = help })
    else if same flag "-V" || same flag "--version"
    then sets (λ o. record o { action = version })
    else if same flag "-l" || same flag "--list"
    then sets (λ o. record o { action = list_rules })
    else if same flag "--explain"
    then wants explain_flag
    else if same flag "-f" || same flag "--format"
    then wants format_flag
    else if same flag "-s" || same flag "--severity"
    then wants severity_flag
    else if same flag "-j" || same flag "--jobs"
    then wants jobs_flag
    else if same flag "--config"
    then wants config_flag
    else if same flag "--baseline"
    then wants baseline_flag
    else if same flag "--write-baseline"
    then sets (λ o. record o { write_baseline = true })
    else if starts_with flag "-"
    then unknown
    else a_path

-- The loop's state: the options so far, whether `--` was seen, and a flag that wants its value.
pub record Parsing : Type 0 where
  pub options : Options
  pub only_paths : Bool
  pub pending : Option ValueFlag

module _ (path_of : String → FilePath) (parse_number : String → Option ℕ) where
  abbrev pub number_or : String → Option ℕ → Fallible ℕ String
  number_or value none = err ("`--jobs` needs a number of threads, got `" <> value <> "`")
  number_or value (some jobs) = at_least_one jobs

  unfoldable pub parse_jobs : String → Fallible ℕ String
  unfolding trim
  parse_jobs value = number_or value (parse_number (trim value))

  unfoldable pub set_value : ValueFlag → String → Options → Fallible Options String
  unfolding format_from_str severity_from_str parse_jobs
  set_value explain_flag v o = ok (record o { action = explain v })
  set_value format_flag v o = and_then (format_from_str v) (λ f. ok (record o { format = some f }))
  set_value severity_flag v o =
      and_then (severity_from_str v) (λ s. ok (record o { severity = some s }))
  set_value jobs_flag v o = and_then (parse_jobs v) (λ j. ok (record o { jobs = some j }))
  set_value config_flag v o = ok (record o { config = some (path_of v) })
  set_value baseline_flag v o = ok (record o { baseline = some (path_of v) })

  abbrev pub add_path : String → Options → Options
  add_path argument o = record o { paths = o.paths ++ path_of argument ∷ [] }

  abbrev pub idle : Bool → Options → Parsing
  idle only o = record { options = o; only_paths = only; pending = none }

  abbrev pub apply : String → String → Option String → Meaning → Options → Fallible Parsing String
  apply argument flag inline (sets f) o = ok (idle false (f o))
  apply argument flag none (wants v) o =
      ok (record { options = o; only_paths = false; pending = some v })
  apply argument flag (some value) (wants v) o =
      and_then (set_value v value o) (λ p. ok (idle false p))
  apply argument flag inline unknown o = err ("unrecognised option `" <> flag <> "`")
  apply argument flag inline a_path o = ok (idle false (add_path argument o))

  -- One argument.
  unfoldable pub take_argument :
      String → Bool → Option ValueFlag → Options → Fallible Parsing String
  unfolding set_value meaning split_equals
  take_argument argument only (some v) o = and_then (set_value v argument o) (λ p. ok (idle only p))
  take_argument argument true none o = ok (idle true (add_path argument o))
  take_argument argument false none o =
      if same argument "--"
      then ok (idle true o)
      else apply argument (split_equals argument).0 (split_equals argument).1
          (meaning (split_equals argument).0) o

  abbrev pub finish_parsing : Options → Option ValueFlag → Fallible Options String
  finish_parsing o none = ok o
  finish_parsing o (some v) = err (flag_name v <> " needs a value")

  unfoldable pub parse_from : List String → Parsing → Fallible Options String
  unfolding take_argument
  parse_from [] p = finish_parsing p.options p.pending
  parse_from (argument ∷ rest) p =
      and_then (take_argument argument p.only_paths p.pending p.options) (λ q. parse_from rest q)

  unfoldable pub parse_arguments : List String → Fallible Options String
  unfolding parse_from
  parse_arguments arguments = parse_from arguments (idle false no_options)
