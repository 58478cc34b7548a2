-- ===== src/Analyzer/Engine/Valid.antt =====
-- `validate` of soroban-analyzer/src/detector.rs: the detectors and the rules.
use soroban_fuzzer.Prelude.{
  ◌≡◌, ◌↔◌, refl, ap, ◌∙◌, String, true, List, [], ◌∷◌, ◌++◌, some, All, inl, inr, Option-cases,
  arith,
}
use soroban_fuzzer.Prelude.Order.{string_ord}
use soroban_fuzzer.Prelude.Sort.{sort, sort_by, insert_by, dedup}
use soroban_fuzzer.Analyzer.Rules.Defs.{Rule, RuleSet, find_rule, rules_in_order}
use soroban_fuzzer.Analyzer.Engine.Defs.{
  Detector, implements, without_rule, without_detector, validate,
}

insert_by-nonempty :
    (c : String → String → Prim.Native.Nat.Ordering) (x : String) (l : List String)
    → insert_by c x l ≡ []
    → ⊥
unfolding insert_by
insert_by-nonempty c x [] h = cc
insert_by-nonempty c x (y ∷ ys) h = ground arith

dedup-nil : (l : List String) → dedup l ≡ [] → l ≡ []
unfolding dedup
dedup-nil [] h = refl
dedup-nil (x ∷ xs) h = absurd (cc)

-- Sorting and deduplicating leaves nothing only of nothing.
dedup-sort-nil : (l : List String) → dedup (sort l) ≡ [] → l ≡ []
unfolding sort_by
dedup-sort-nil [] h = refl
dedup-sort-nil (x ∷ xs) h =
    absurd (insert_by-nonempty string_ord.cmp x (sort xs) (dedup-nil (sort (x ∷ xs)) h))

append-nil_parts : (a b : List String) → a ++ b ≡ [] → (a ≡ []) × (b ≡ [])
append-nil_parts [] b h = (refl, h)
append-nil_parts (x ∷ a) b h = absurd (cc)

module _ {Ast : Type 0} where
  -- Every detector has a rule.
  abbrev pub AllRuled : RuleSet → List (Detector Ast) → Type 0
  AllRuled rules ds = All (λ d. (rule : Rule) × (find_rule (Detector.id d) rules ≡ some rule)) ds

  -- Every rule has a detector.
  abbrev pub AllEnforced : List (Detector Ast) → List Rule → Type 0
  AllEnforced ds rs = All (λ rule. implements ds rule ≡ true) rs

  without_rule_iff :
      (rules : RuleSet) (ds : List (Detector Ast))
      → (without_rule ds rules ≡ []) ↔ AllRuled rules ds
  unfolding without_rule
  without_rule_iff rules [] = (λ h. tt, λ h. refl)
  without_rule_iff rules (d ∷ ds) =
      let rest = without_rule_iff rules ds in
      elim (Option-cases (find_rule d.id rules)) [
        | inl e ↦ (λ h. absurd (ground arith), λ h. absurd (ground arith))
        | inr (rule, e) ↦ (λ h. ((rule, e), rest.0 (ground arith)), λ h. ground (arith, rest.1 h.1))
      ]

  without_detector_iff :
      (ds : List (Detector Ast)) (rs : List Rule)
      → (without_detector ds rs ≡ []) ↔ AllEnforced ds rs
  unfolding without_detector
  without_detector_iff ds [] = (λ h. tt, λ h. refl)
  without_detector_iff ds (rule ∷ rest) =
      let others = without_detector_iff ds rest in
      (λ h. (ground arith, others.0 (ground arith)), λ h. ground (arith, others.1 h.1))

  -- `validate` reports nothing exactly when every detector has a rule and every rule has a
  -- detector.
  pub validate_iff :
      (ds : List (Detector Ast)) (rules : RuleSet)
      → (validate ds rules ≡ []) ↔ (AllRuled rules ds × AllEnforced ds (rules_in_order rules))
  unfolding validate dedup sort_by
  validate_iff ds rules =
      let ruled = without_rule_iff rules ds in
      let enforced = without_detector_iff ds (rules_in_order rules) in
      (
        λ h.
            let parts =
              append-nil_parts (without_rule ds rules) (without_detector ds (rules_in_order rules))
                (dedup-sort-nil _ h) in
            (ruled.0 parts.0, enforced.0 parts.1),
        λ h.
            ap (λ l. dedup (sort l))
              (ap (λ l. l ++ without_detector ds (rules_in_order rules)) (ruled.1 h.0)
                ∙ enforced.1 h.1),
      )
