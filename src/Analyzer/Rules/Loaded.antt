-- ===== src/Analyzer/Rules/Loaded.antt =====
-- `RuleSet::from_sources` of soroban-analyzer/src/rules.rs.
use Prim.Native.String.{len}
use soroban_fuzzer.Prelude.{
  ℕ, ◌+◌, ◌≤◌, ◌≡◌, refl, ap, ◌∙◌, inl, inr, String, false, Option, none, some, List, [], ◌∷◌,
  if◌then◌else◌, length, length-append, All, arith, Option-cases, suc,
}
use soroban_fuzzer.Prelude.Order.{same, string_ord, same_iff}
use soroban_fuzzer.Prelude.BTree.{BTreeMap, get, insert, get-insert}
use soroban_fuzzer.Prelude.Chars.{trim, is_blank}
use soroban_fuzzer.Prelude.Fallible.{Fallible, ok, err}
use soroban_fuzzer.Analyzer.Rules.Defs.{
  RuleError, duplicate_rule, Rule, RuleFile, RuleSet, rule_of, check_rule, find_rule, name_at,
  parse_rule, load_rule, load_from, from_sources,
}

length-insert_new {ℓ} :
    {V : Type ℓ} (k : String) (v : V) (m : BTreeMap String V)
    → get k m ≡ none
    → length (insert k v m) ≡ suc (length m)
unfolding get insert
length-insert_new k v [] h = refl
length-insert_new k v ((j, w) ∷ m) h = ground (arith, length-insert_new k v m)

All-insert {ℓ κ} :
    {V : Type ℓ} (P : String × V → Type κ) (k : String) (v : V) (m : BTreeMap String V)
    → P (k, v)
    → All P m
    → All P (insert k v m)
unfolding insert
All-insert P k v [] h a = (h, tt)
All-insert P k v ((j, w) ∷ m) h a = ground (arith, All-insert P k v m)

-- What a reader of a finding is promised of its rule.
pub record IsUsable (r : Rule) : Type 0 where
  pub has_id : is_blank (trim r.id) ≡ false
  pub has_title : is_blank (trim r.title) ≡ false
  pub has_rationale : 40 ≤ len r.rationale
  pub has_remediation : is_blank r.remediation ≡ false
  pub has_triggers : is_blank (trim r.triggers) ≡ false
  pub has_clean : is_blank (trim r.clean) ≡ false

check_rule-IsUsable :
    (file : String) (raw : RuleFile) (r : Rule) → check_rule file raw ≡ ok r → IsUsable r
unfolding check_rule rule_of
check_rule-IsUsable file raw r h = record {
  has_id = ground arith;
  has_title = ground arith;
  has_rationale = ground arith;
  has_remediation = ground arith;
  has_triggers = ground arith;
  has_clean = ground arith;
}

module _ (read : String → Fallible RuleFile String) where
  parse_rule-IsUsable :
      (file source : String) (r : Rule) → parse_rule read file source ≡ ok r → IsUsable r
  unfolding parse_rule
  parse_rule-IsUsable file source r h = grind (arith, check_rule-IsUsable)

  -- Stored under its own id, and usable.
  abbrev pub IsKept : String × Rule → Type 0
  IsKept e = (e.0 ≡ e.1.id) × IsUsable e.1

  -- What the loading of one source does: one more rule, or one more error.
  load_rule-IsKept :
      (name : String) (parsed : Fallible Rule RuleError) (loaded : RuleSet × List RuleError)
      → ((r : Rule) → parsed ≡ ok r → IsUsable r)
      → All IsKept loaded.0
      → All IsKept (load_rule read name parsed loaded).0
  unfolding load_rule
  load_rule-IsKept name (err e) (rules, errors) u a = a
  load_rule-IsKept name (ok r) (rules, errors) u a =
      let stored = All-insert IsKept r.id r rules (refl, u r refl) a in ground arith

  load_rule-length :
      (name : String) (parsed : Fallible Rule RuleError) (loaded : RuleSet × List RuleError)
      → length (load_rule read name parsed loaded).0 + length (load_rule read name parsed loaded).1
        ≡ suc (length loaded.0 + length loaded.1)
  unfolding load_rule
  load_rule-length name (err e) (rules, errors) = omega (arith, length-append errors (e ∷ []))
  load_rule-length name (ok r) (rules, errors) = elim (Option-cases (get r.id rules)) [
    | inl e ↦ ground (arith, e, length-insert_new r.id r rules e)
    | inr (v, e) ↦ ground (arith, e, length-append errors (duplicate_rule name r.id ∷ []))
  ]

  load_from-IsKept :
      (names : List String) (index : ℕ) (sources : List String) (loaded : RuleSet × List RuleError)
      → All IsKept loaded.0
      → All IsKept (load_from read names index sources loaded).0
  unfolding load_from
  load_from-IsKept names index [] loaded a = a
  load_from-IsKept names index (s ∷ rest) loaded a =
      let name = name_at names index in
      load_from-IsKept names (index + 1) rest (load_rule read name (parse_rule read name s) loaded)
        (load_rule-IsKept name (parse_rule read name s) loaded (parse_rule-IsUsable name s) a)

  load_from-length :
      (names : List String) (index : ℕ) (sources : List String) (loaded : RuleSet × List RuleError)
      → length (load_from read names index sources loaded).0
          + length (load_from read names index sources loaded).1
        ≡ length sources + (length loaded.0 + length loaded.1)
  unfolding load_from
  load_from-length names index [] loaded = omega arith
  load_from-length names index (s ∷ rest) loaded =
      let name = name_at names index in
      omega (
        arith,
        load_rule-length name (parse_rule read name s) loaded,
        load_from-length names (index + 1) rest
            (load_rule read name (parse_rule read name s) loaded),
      )

  -- Independent of the loader: the first source with that id that passes the checks.
  abbrev pub or_first : Option Rule → Option Rule → Option Rule
  or_first none other = other
  or_first (some r) other = some r

  abbrev pub with_id : String → Fallible Rule RuleError → Option Rule
  with_id id (err e) = none
  with_id id (ok r) = if same id r.id then some r else none

  abbrev pub first_with_id : List String → ℕ → List String → String → Option Rule
  first_with_id names index [] id = none
  first_with_id names index (s ∷ rest) id =
      or_first (with_id id (parse_rule read (name_at names index) s))
        (first_with_id names (index + 1) rest id)

  find-load_rule :
      (name id : String) (parsed : Fallible Rule RuleError) (loaded : RuleSet × List RuleError)
      → get id (load_rule read name parsed loaded).0
        ≡ or_first (get id loaded.0) (with_id id parsed)
  unfolding load_rule
  find-load_rule name id (err e) (rules, errors) = ground arith
  find-load_rule name id (ok r) (rules, errors) =
      ground (arith, get-insert r.id id r rules, same_iff id r.id)

  or_first_assoc : (a b c : Option Rule) → or_first (or_first a b) c ≡ or_first a (or_first b c)
  or_first_assoc none b c = refl
  or_first_assoc (some r) b c = refl

  find-load_from :
      (names : List String) (index : ℕ) (sources : List String) (loaded : RuleSet × List RuleError)
      (id : String)
      → get id (load_from read names index sources loaded).0
        ≡ or_first (get id loaded.0) (first_with_id names index sources id)
  unfolding load_from
  find-load_from names index [] loaded id = ground arith
  find-load_from names index (s ∷ rest) loaded id =
      let name = name_at names index in
      find-load_from names (index + 1) rest (load_rule read name (parse_rule read name s) loaded) id
      ∙ ap (λ (o : Option Rule). or_first o (first_with_id names (index + 1) rest id))
          (find-load_rule name id (parse_rule read name s) loaded)
      ∙ or_first_assoc (get id loaded.0) (with_id id (parse_rule read name s))
          (first_with_id names (index + 1) rest id)

  -- Of any rule files: every rule that is loaded stands under its own id and has an id, a title, a
  -- rationale of at least 40 bytes, a remediation and both examples that are not blank; the rules
  -- and the errors are together as many as the files; and the rule of an id is that of the first
  -- file with this id that passes the checks.
  pub from_sources_lem :
      (names sources : List String) (id : String)
      → All IsKept (from_sources read names sources).0
        × (length (from_sources read names sources).0 + length (from_sources read names sources).1
            ≡ length sources)
        × (find_rule id (from_sources read names sources).0 ≡ first_with_id names 0 sources id)
  unfolding from_sources find_rule get
  from_sources_lem names sources id = (
    load_from-IsKept names 0 sources ([], []) tt,
    omega (arith, load_from-length names 0 sources ([], [])),
    find-load_from names 0 sources ([], []) id,
  )
