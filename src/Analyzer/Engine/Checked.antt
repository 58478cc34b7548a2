-- ===== src/Analyzer/Engine/Checked.antt =====
-- The check of one file in soroban-analyzer/src/detector.rs.
use soroban_fuzzer.Prelude.{
  ℕ, ◌+◌, ◌≡◌, refl, sym, subst, String, Bool, true, false, List, [], ◌∷◌, Option, none, some,
  foldl, foldl_inv, All, All-append, inl, inr, Bool-cases, length, length-append, arith,
}
use soroban_fuzzer.Prelude.Order.{string_ord}
use soroban_fuzzer.Prelude.BTree.{get}
use soroban_fuzzer.Analyzer.Finding.{Finding}
use soroban_fuzzer.Analyzer.Rules.Defs.{Rule, RuleSet, find_rule, new_finding}
use soroban_fuzzer.Analyzer.Source.Lines.{SourceFile, display_path}
use soroban_fuzzer.Analyzer.Suppress.{is_suppressed}
use soroban_fuzzer.Analyzer.Engine.Defs.{
  Call, place, Detector, FileFindings, finding_of, take_call, empty_sink, run_detector,
  add_detector, check_with, check_file,
}

-- Every rule stands under its own id, as the loader leaves it.
abbrev pub IsById : RuleSet → Type 0
IsById rules = All (λ e. e.0 ≡ Rule.id e.1) rules

find_rule-id :
    (id : String) (rules : RuleSet) (rule : Rule)
    → IsById rules
    → find_rule id rules ≡ some rule
    → rule.id ≡ id
unfolding find_rule get
find_rule-id id [] rule h e = absurd (cc)
find_rule-id id ((k, r) ∷ rules) rule h e =
    ground (arith, (string_ord.cmp_iff id k).0, find_rule-id id rules rule h.1)

module _ {Ast : Type 0} (item_ranges : Ast → List (ℕ × ℕ)) where
  -- A finding of this file by a rule that is known, on the side of the sink that the markers say.
  abbrev pub IsFiled : RuleSet → SourceFile Ast → Bool → Finding → Type 0
  IsFiled rules file sup f =
      ((rule : Rule) × (find_rule f.rule rules ≡ some rule) × (f.remediation ≡ rule.remediation))
      × (f.file ≡ display_path file)
      × (is_suppressed item_ranges file f.rule f.location.start.offset ≡ sup)

  abbrev pub AllFiled : RuleSet → SourceFile Ast → FileFindings → Type 0
  AllFiled rules file r =
      All (IsFiled rules file false) r.findings × All (IsFiled rules file true) r.suppressed

  finding_of-IsFiled :
      (rules : RuleSet) (file : SourceFile Ast) (rule : Rule) (call : Call) (sup : Bool)
      → find_rule rule.id rules ≡ some rule
      → is_suppressed item_ranges file rule.id (place file call).start.offset ≡ sup
      → IsFiled rules file sup (finding_of rule file call)
  unfolding finding_of new_finding
  finding_of-IsFiled rules file rule call sup e s = ((rule, e, refl), refl, s)

  take_call-AllFiled :
      (rules : RuleSet) (file : SourceFile Ast) (rule : Rule) (sink : FileFindings) (call : Call)
      → find_rule rule.id rules ≡ some rule
      → AllFiled rules file sink
      → AllFiled rules file (take_call item_ranges rule file sink call)
  unfolding take_call
  take_call-AllFiled rules file rule sink call e (a, b) =
      elim (Bool-cases (is_suppressed item_ranges file rule.id (place file call).start.offset)) [
        | inl s ↦ rw s (
          a,
          All-append (IsFiled rules file true) sink.suppressed (finding_of rule file call ∷ []) b
              (finding_of-IsFiled rules file rule call true e s, tt),
        )
        | inr s ↦ rw s (
          All-append (IsFiled rules file false) sink.findings (finding_of rule file call ∷ []) a
              (finding_of-IsFiled rules file rule call false e s, tt),
          b,
        )
      ]

  run_detector-AllFiled :
      (rules : RuleSet) (file : SourceFile Ast) (rule : Rule) (calls : List Call)
      → find_rule rule.id rules ≡ some rule
      → AllFiled rules file (run_detector item_ranges rule file calls)
  unfolding run_detector
  run_detector-AllFiled rules file rule calls e =
      foldl_inv (AllFiled rules file) (take_call item_ranges rule file)
        (λ sink call a. take_call-AllFiled rules file rule sink call e a) calls empty_sink (tt, tt)

  -- How many findings are in a sink.
  abbrev pub filed : FileFindings → ℕ
  filed r = length r.findings + length r.suppressed

  take_call-filed :
      (file : SourceFile Ast) (rule : Rule) (sink : FileFindings) (call : Call)
      → filed (take_call item_ranges rule file sink call) ≡ filed sink + 1
  unfolding take_call
  take_call-filed file rule sink call = ground (
    arith,
    length-append sink.findings (finding_of rule file call ∷ []),
    length-append sink.suppressed (finding_of rule file call ∷ []),
  )

  calls_filed :
      (file : SourceFile Ast) (rule : Rule) (calls : List Call) (sink : FileFindings)
      → filed (foldl (take_call item_ranges rule file) sink calls) ≡ filed sink + length calls
  calls_filed file rule [] sink = omega arith
  calls_filed file rule (c ∷ calls) sink = omega (
    arith,
    take_call-filed file rule sink c,
    calls_filed file rule calls (take_call item_ranges rule file sink c),
  )

  run_detector-filed :
      (file : SourceFile Ast) (rule : Rule) (calls : List Call)
      → filed (run_detector item_ranges rule file calls) ≡ length calls
  unfolding run_detector
  run_detector-filed file rule calls = omega (arith, calls_filed file rule calls empty_sink)

  -- The calls that the detectors with a rule make.
  abbrev pub calls_made_by : Detector Ast → SourceFile Ast → Option Rule → ℕ
  calls_made_by d file none = 0
  calls_made_by d file (some rule) = length (d.check file rule)

  abbrev pub calls_made : List (Detector Ast) → RuleSet → SourceFile Ast → ℕ
  calls_made [] rules file = 0
  calls_made (d ∷ ds) rules file =
      calls_made_by d file (find_rule (Detector.id d) rules) + calls_made ds rules file

  add_detector-AllFiled :
      (rules : RuleSet) (file : SourceFile Ast) (d : Detector Ast) (o : Option Rule)
      (result : FileFindings)
      → ((rule : Rule) → o ≡ some rule → find_rule rule.id rules ≡ some rule)
      → AllFiled rules file result
      → AllFiled rules file (add_detector item_ranges d file o result)
        × (filed (add_detector item_ranges d file o result) ≡ filed result + calls_made_by d file o)
  unfolding add_detector
  add_detector-AllFiled rules file d none result h a = (a, omega arith)
  add_detector-AllFiled rules file d (some rule) result h a =
      let sink = run_detector item_ranges rule file (d.check file rule) in
      let b = run_detector-AllFiled rules file rule (d.check file rule) (h rule refl) in
      (
        (
          All-append (IsFiled rules file false) result.findings sink.findings a.0 b.0,
          All-append (IsFiled rules file true) result.suppressed sink.suppressed a.1 b.1,
        ),
        omega (
          arith,
          length-append result.findings sink.findings,
          length-append result.suppressed sink.suppressed,
          run_detector-filed file rule (d.check file rule),
        ),
      )

  check_with_lem :
      (ds : List (Detector Ast)) (rules : RuleSet) (file : SourceFile Ast) (result : FileFindings)
      → IsById rules
      → AllFiled rules file result
      → AllFiled rules file (check_with item_ranges ds rules file result)
        × (filed (check_with item_ranges ds rules file result)
            ≡ filed result + calls_made ds rules file)
  unfolding check_with
  check_with_lem [] rules file result h a = (a, omega arith)
  check_with_lem (d ∷ ds) rules file result h a =
      let o = find_rule d.id rules in
      let known = λ (rule : Rule) (e : o ≡ some rule).
        subst (λ id. find_rule id rules ≡ some rule) (sym (find_rule-id d.id rules rule h e)) e in
      let one = add_detector-AllFiled rules file d o result known a in
      let rest = check_with_lem ds rules file (add_detector item_ranges d file o result) h one.0 in
      (rest.0, omega (arith, one.1, rest.1))

  -- Where every rule stands under its own id: each finding of a file carries the id and the
  -- remediation of a rule that is known and the shown path of the file; it is among the suppressed
  -- ones if the markers excuse its rule at its place, and among the others if they do not; and the
  -- two lists are together as long as the reports of the detectors that have a rule.
  pub check_file_lem :
      (ds : List (Detector Ast)) (rules : RuleSet) (file : SourceFile Ast)
      → IsById rules
      → AllFiled rules file (check_file item_ranges ds rules file)
        × (filed (check_file item_ranges ds rules file) ≡ calls_made ds rules file)
  unfolding check_file
  check_file_lem ds rules file h =
      let all = check_with_lem ds rules file empty_sink h (tt, tt) in (all.0, omega (arith, all.1))
