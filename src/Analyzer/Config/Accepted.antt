-- ===== src/Analyzer/Config/Accepted.antt =====
-- The configurations that soroban-analyzer/src/config.rs accepts.
use soroban_fuzzer.Prelude.{
  ℕ, ◌≡◌, ◌↔◌, refl, subst, inl, inr, String, Bool, true, false, not, List, [], ◌∷◌, Option, some,
  map, All, ◌==◌, if◌then◌else◌, arith, Option-cases, ==_iff,
}
use soroban_fuzzer.Prelude.Chars.{trim}
use soroban_fuzzer.Prelude.Fallible.{Fallible, ok, err, and_then, if_given}
use soroban_fuzzer.Analyzer.Severity.{Severity, severity_from_str}
use soroban_fuzzer.Analyzer.Rules.Defs.{Rule, RuleSet, find_rule}
use soroban_fuzzer.Analyzer.Report.Defs.{Format, format_from_str}
use soroban_fuzzer.Analyzer.Walk.Tree.{FilePath}
use soroban_fuzzer.Analyzer.Config.File.{
  ConfigFile, Config, config_schema_version, version_error, unknown_rules, PathText, config_of,
  known_rules_only, check_config, judge_config, parse_config, optional_map, resolve,
}

-- Every id is that of a rule.
abbrev pub AllKnown : RuleSet → List String → Type 0
AllKnown rules ids = All (λ id. (rule : Rule) × (find_rule id rules ≡ some rule)) ids

unknown_rules_iff :
    (rules : RuleSet) (ids : List String)
    → (unknown_rules rules ids ≡ []) ↔ AllKnown rules (map trim ids)
unfolding unknown_rules
unknown_rules_iff rules [] = (λ h. tt, λ h. refl)
unknown_rules_iff rules (id ∷ ids) =
    let rest = unknown_rules_iff rules ids in
    elim (Option-cases (find_rule (trim id) rules)) [
      | inl e ↦ (λ h. absurd (ground arith), λ h. absurd (ground (arith, h.0.1)))
      | inr (rule, e) ↦ (λ h. ((rule, e), rest.0 (ground arith)), λ h. ground (arith, rest.1 h.1))
    ]

module _ (t : PathText) where
  -- What an accepted file and its configuration have to do with each other.
  pub record IsResolved (file : ConfigFile) (dir : FilePath) (rules : RuleSet) (c : Config)
      : Type 0 where
    pub of_this_version : file.schema_version ≡ config_schema_version
    pub with_format : if_given format_from_str file.format ≡ ok c.format
    pub with_severity : if_given severity_from_str file.severity ≡ ok c.severity
    pub with_paths : c.paths ≡ optional_map t (map (resolve t dir)) file.paths
    pub with_baseline : c.baseline ≡ optional_map t (resolve t dir) file.baseline
    pub with_rules : c.disabled_rules ≡ map trim file.disabled_rules
    pub all_known : AllKnown rules c.disabled_rules

  and_then-ok {ℓ κ μ} :
      {V : Type ℓ} {W : Type κ} {E : Type μ} (f : Fallible V E) (next : V → Fallible W E) (w : W)
      → and_then f next ≡ ok w
      → (v : V) × (f ≡ ok v) × (next v ≡ ok w)
  and_then-ok (ok v) next w h = (v, refl, h)
  and_then-ok (err e) next w h = absurd (cc)

  known_rules_only-ok :
      (unknown : List String) (c d : Config)
      → known_rules_only t unknown c ≡ ok d
      → (unknown ≡ []) × (c ≡ d)
  known_rules_only-ok [] c d h = (refl, ground arith)
  known_rules_only-ok (id ∷ ids) c d h = absurd (cc)

  config_of-IsResolved :
      (file : ConfigFile) (dir : FilePath) (rules : RuleSet) (format : Option Format)
      → (severity : Option Severity) → file.schema_version ≡ config_schema_version
      → if_given format_from_str file.format ≡ ok format
      → if_given severity_from_str file.severity ≡ ok severity
      → unknown_rules rules file.disabled_rules ≡ []
      → IsResolved file dir rules (config_of t file dir format severity)
  unfolding config_of
  config_of-IsResolved file dir rules format severity v f s u = record {
    of_this_version = v;
    with_format = f;
    with_severity = s;
    with_paths = refl;
    with_baseline = refl;
    with_rules = refl;
    all_known = (unknown_rules_iff rules file.disabled_rules).0 u;
  }

  guarded {ℓ κ} :
      {V : Type ℓ} {E : Type κ} (b : Bool) (e : E) (rest : Fallible V E) (v : V)
      → (if not b then err e else rest) ≡ ok v
      → (b ≡ true) × (rest ≡ ok v)
  guarded true e rest v h = (refl, h)
  guarded false e rest v h = absurd (cc)

  check_config-IsResolved :
      (file : ConfigFile) (dir : FilePath) (rules : RuleSet) (c : Config)
      → check_config t file dir rules ≡ ok c
      → IsResolved file dir rules c
  unfolding check_config
  check_config-IsResolved file dir rules c h =
      let this_version =
        guarded (file.schema_version == config_schema_version) (version_error file.schema_version) _
          c h in
      let format = and_then-ok (if_given format_from_str file.format) _ c this_version.1 in
      let severity = and_then-ok (if_given severity_from_str file.severity) _ c format.2 in
      let known =
        known_rules_only-ok (unknown_rules rules file.disabled_rules)
          (config_of t file dir format.0 severity.0) c severity.2 in
      subst (IsResolved file dir rules) known.1 (
        config_of-IsResolved file dir rules format.0 severity.0
          ((==_iff file.schema_version config_schema_version).0 this_version.0) format.1 severity.1
          known.0)

  module _ (read : String → Fallible ConfigFile String) (probe : String → Option ℕ) where
    judged :
        (text : String) (dir : FilePath) (rules : RuleSet) (answer : Fallible ConfigFile String)
        (c : Config)
        → judge_config t read probe text dir rules answer ≡ ok c
        → (file : ConfigFile) × (answer ≡ ok file) × IsResolved file dir rules c
    judged text dir rules (err e) c h = absurd (cc)
    judged text dir rules (ok file) c h = (file, refl, check_config-IsResolved file dir rules c h)

    -- A configuration is accepted only of a file that the reader accepts and that is of this
    -- version; it has the format and the severity that the file's texts parse to, the file's paths
    -- and baseline resolved against its directory and the file's disabled rules trimmed, each of
    -- which is a rule that exists.
    pub parse_config-IsResolved :
        (text : String) (dir : FilePath) (rules : RuleSet) (c : Config)
        → parse_config t read probe text dir rules ≡ ok c
        → (file : ConfigFile) × (read text ≡ ok file) × IsResolved file dir rules c
    unfolding parse_config
    parse_config-IsResolved text dir rules c h = judged text dir rules (read text) c h
