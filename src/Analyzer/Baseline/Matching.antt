-- ===== src/Analyzer/Baseline/Matching.antt =====
-- `Baseline::matches` of soroban-analyzer/src/baseline.rs and the identity of a finding.
use Prim.Native.Char.{code, nul}
use Prim.Native.String.{◌++◌ as ◌+++◌}
use package.text.Mathlib.TextLemmas.{
  nil-append, cons-append, head-eq_of_cons-eq, tail-eq_of_cons-eq,
}
use soroban_fuzzer.Prelude.{
  ◌≡◌, ◌≢◌, ◌↔◌, refl, sym, ap, ◌∙◌, inl, inr, String, Bool, true, false, ◌||◌, ◌⊎◌, All-imp, not,
  List, [], ◌∷◌, any, keep, length, All, arith, Bool-cases,
}
use soroban_fuzzer.Prelude.Order.{same, same_iff, string_ord}
use soroban_fuzzer.Prelude.BTree.{BTreeSet, get, get-insert, set_insert, set_contains}
use soroban_fuzzer.Prelude.Sort.{sort_by, any-sort_by, All-sort_by}
use soroban_fuzzer.Analyzer.Finding.{Finding}
use soroban_fuzzer.Analyzer.Baseline.Defs.{
  BaselineEntry, identity, entry_identity, finding_identity, entry_of, entry_cmp, unseen,
  from_findings, matches, identities, stale,
}

-- Some finding of the list has this identity.
abbrev pub recorded : String → List Finding → Bool
recorded i fs = any (λ g. same (finding_identity g) i) fs

abbrev has_identity : String → BaselineEntry → Bool
has_identity i e = same (entry_identity e) i

contains-set_insert :
    (i k : String) (s : BTreeSet String)
    → set_contains i (set_insert k s) ≡ (same k i || set_contains i s)
unfolding set_insert set_contains
contains-set_insert i k s = ground (arith, get-insert k i tt s, same_iff i k, same_iff k i)

identity-entry_of : (f : Finding) → entry_identity (entry_of f) ≡ finding_identity f
unfolding entry_of entry_identity
identity-entry_of f = refl

any-unseen :
    (i : String) (seen : BTreeSet String) (fs : List Finding)
    → (any (has_identity i) (unseen seen fs) || set_contains i seen)
      ≡ (recorded i fs || set_contains i seen)
unfolding unseen
any-unseen i seen [] = refl
any-unseen i seen (f ∷ fs) = ground (
  arith,
  identity-entry_of f,
  any-unseen i seen fs,
  any-unseen i (set_insert (entry_identity (entry_of f)) seen) fs,
  contains-set_insert i (entry_identity (entry_of f)) seen,
  same_iff (entry_identity (entry_of f)) i,
)

contains-empty : (i : String) → set_contains i [] ≡ false
unfolding set_contains get
contains-empty i = refl

pub matches-recorded :
    (fs : List Finding) (f : Finding)
    → matches (from_findings fs) f ≡ recorded (finding_identity f) fs
unfolding matches from_findings
matches-recorded fs f =
    let i = finding_identity f in
    any-sort_by (has_identity i) entry_cmp (unseen [] fs)
    ∙ ground (arith, any-unseen i [] fs, contains-empty i)

contains-identities :
    (i : String) (fs : List Finding) → set_contains i (identities fs) ≡ recorded i fs
contains-identities i [] = contains-empty i
contains-identities i (f ∷ fs) =
    contains-set_insert i (finding_identity f) (identities fs)
    ∙ ap (λ (b : Bool). same (finding_identity f) i || b) (contains-identities i fs)

-- Every entry comes of a finding.
unseen-recorded :
    (all : List Finding) (seen : BTreeSet String) (fs : List Finding)
    → ((i : String) → recorded i fs ≡ true → recorded i all ≡ true)
    → All (λ e. recorded (entry_identity e) all ≡ true) (unseen seen fs)
unfolding unseen
unseen-recorded all seen [] h = tt
unseen-recorded all seen (f ∷ fs) h =
    let rest =
      unseen-recorded all (set_insert (entry_identity (entry_of f)) seen) fs
        (λ i r. h i (ground arith)) in
    let first = h (entry_identity (entry_of f)) (
      ground (
        arith,
        (same_iff (finding_identity f) (entry_identity (entry_of f))).1 (sym (identity-entry_of f)),
      )) in
    elim (Bool-cases (set_contains (entry_identity (entry_of f)) seen)) [
      | inl b ↦ rw b rest
      | inr b ↦ rw b (first, rest)
    ]

keep_none :
    (p : BaselineEntry → Bool) (l : List BaselineEntry)
    → All (λ e. p e ≡ false) l
    → length (keep p l) ≡ 0
keep_none p [] h = refl
keep_none p (x ∷ xs) h = ground (arith, keep_none p xs h.1)

abbrev pub NoNul : String → Type 0
NoNul String.[] = Unit
NoNul (String.◌∷◌ c s) = (code c ≢ 0) × NoNul s

behind : (x : String) → String.[] +++ ("\0" +++ x) ≡ String.◌∷◌ nul x
behind x =
    nil-append ("\0" +++ x) ∙ cons-append nul String.[] x ∙ ap (String.◌∷◌ nul) (nil-append x)

nul_splits :
    (a b x y : String)
    → NoNul a
    → NoNul b
    → a +++ ("\0" +++ x) ≡ b +++ ("\0" +++ y)
    → (a ≡ b) × (x ≡ y)
nul_splits String.[] String.[] x y h k e =
    (refl, tail-eq_of_cons-eq (sym (behind x) ∙ e ∙ behind y))
nul_splits String.[] (String.◌∷◌ d b) x y h k e =
    let clash = head-eq_of_cons-eq (sym (behind x) ∙ e ∙ cons-append d b ("\0" +++ y)) in
    absurd (k.0 (sym (ap code clash)))
nul_splits (String.◌∷◌ c a) String.[] x y h k e =
    let clash = head-eq_of_cons-eq (sym (cons-append c a ("\0" +++ x)) ∙ e ∙ behind y) in
    absurd (h.0 (ap code clash))
nul_splits (String.◌∷◌ c a) (String.◌∷◌ d b) x y h k e =
    let both = sym (cons-append c a ("\0" +++ x)) ∙ e ∙ cons-append d b ("\0" +++ y) in
    let rest = nul_splits a b x y h.1 k.1 (tail-eq_of_cons-eq both) in
    ((λ i. String.◌∷◌ (head-eq_of_cons-eq both i) (rest.0 i)), rest.1)

-- The text of the program, bracketed to the left.
identity_right : (r f m : String) → identity r f m ≡ r +++ ("\0" +++ (f +++ ("\0" +++ m)))
unfolding identity
identity_right r f m = refl

-- The three parts of an identity can be told from it.
identity_inj :
    (r f m s g n : String)
    → NoNul r
    → NoNul s
    → NoNul f
    → NoNul g
    → identity r f m ≡ identity s g n
    → (r ≡ s) × (f ≡ g) × (m ≡ n)
identity_inj r f m s g n hr hs hf hg e =
    let outer =
      nul_splits r s (f +++ ("\0" +++ m)) (g +++ ("\0" +++ n)) hr hs
        (sym (identity_right r f m) ∙ e ∙ identity_right s g n) in
    let inner = nul_splits f g m n hf hg outer.1 in (outer.0, inner.0, inner.1)

-- A finding whose rule and file can be told apart in an identity.
abbrev pub IsSeparable : Finding → Type 0
IsSeparable f = NoNul f.rule × NoNul f.file

abbrev pub SameOccurrence : Finding → Finding → Type 0
SameOccurrence f g = (f.rule ≡ g.rule) × (f.file ≡ g.file) × (f.message ≡ g.message)

SameOccurrence-iff :
    (f g : Finding)
    → IsSeparable f
    → IsSeparable g
    → (same (finding_identity g) (finding_identity f) ≡ true) ↔ SameOccurrence f g
SameOccurrence-iff f g hf hg = (
  λ h.
      identity_inj f.rule f.file f.message g.rule g.file g.message hf.0 hg.0 hf.1 hg.1
        (sym ((same_iff (finding_identity g) (finding_identity f)).0 h)),
  λ o.
      (same_iff (finding_identity g) (finding_identity f)).1
        (λ i. identity (sym o.0 i) (sym o.1 i) (sym o.2 i)),
)

-- Some finding of the list is the same occurrence.
abbrev pub Occurs : Finding → List Finding → Type 0
Occurs f [] = ⊥
Occurs f (g ∷ fs) = SameOccurrence f g ⊎ Occurs f fs

recorded_iff :
    (f : Finding) (fs : List Finding)
    → IsSeparable f
    → All IsSeparable fs
    → (recorded (finding_identity f) fs ≡ true) ↔ Occurs f fs
recorded_iff f [] hf h = (λ e. absurd (cc), λ o. absurd o)
recorded_iff f (g ∷ fs) hf h =
    let here = SameOccurrence-iff f g hf h.0 in
    let there = recorded_iff f fs hf h.1 in
    (
      λ e. elim (Bool-cases (same (finding_identity g) (finding_identity f))) [
        | inl b ↦ inl (here.0 b)
        | inr b ↦ inr (there.0 (ground arith))
      ],
      λ o. elim o [ inl p ↦ ground (arith, here.1 p) | inr p ↦ ground (arith, there.1 p) ],
    )

-- Where rule ids and file names contain no NUL, a baseline written from findings excuses a finding
-- exactly when one of them has the same rule, file and message; the line does not matter.
pub matches_iff :
    (fs : List Finding) (f : Finding)
    → IsSeparable f
    → All IsSeparable fs
    → (matches (from_findings fs) f ≡ true) ↔ Occurs f fs
matches_iff fs f hf h =
    let same_test = matches-recorded fs f in
    let occurs = recorded_iff f fs hf h in
    (λ e. occurs.0 (sym same_test ∙ e), λ o. same_test ∙ occurs.1 o)

-- A baseline has no stale entry for the findings that it was written from.
pub stale-from_findings : (fs : List Finding) → stale (from_findings fs) fs ≡ 0
unfolding stale from_findings
stale-from_findings fs =
    keep_none (λ e. not (set_contains (entry_identity e) (identities fs)))
      (sort_by entry_cmp (unseen [] fs))
      (All-imp (λ e r. ground (arith, r, contains-identities (entry_identity e) fs))
        (sort_by entry_cmp (unseen [] fs))
        (All-sort_by (λ e. recorded (entry_identity e) fs ≡ true) entry_cmp (unseen [] fs)
          (unseen-recorded fs [] fs (λ i r. r))))
