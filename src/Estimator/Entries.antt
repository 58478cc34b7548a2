-- ===== src/Estimator/Entries.antt =====
-- soroban-budget/src/estimate.rs: `estimate` over all exports, and the queries of `Budget`.
use soroban_fuzzer.Prelude.{
  ℕ, ◌+◌, ◌≡◌, refl, String, true, Option, none, some, List, [], ◌∷◌, not, arith, ltb,
  if◌then◌else◌, length, keep, find, In, Bool-cases, inl, inr, ◌⊎◌,
}
use soroban_fuzzer.Prelude.Order.{nat_ord, same, same_iff, string_ord}
use soroban_fuzzer.Prelude.BTree.{BTreeSet, insert, get, set_insert, set_contains, contains-insert}
use soroban_fuzzer.Estimator.Module.Facts.{Module}
use soroban_fuzzer.Estimator.Estimate.{
  EntryEstimate, Budget, is_exact, estimate_entry, estimate_exports, estimate,
}
use soroban_fuzzer.Prelude.{subst, sym}
use soroban_fuzzer.Prelude.{ap}

-- `Budget::entry`
unfoldable pub entry : Budget → String → Option EntryEstimate
entry b name = find (λ e. same e.name name) b.entries

unfoldable pub unbounded_entries : Budget → ℕ
unbounded_entries b = length (keep (λ e. not (is_exact e)) b.entries)

-- `max_by_key`: of equal keys the last.
unfoldable pub max_by_key : (EntryEstimate → ℕ) → List EntryEstimate → Option EntryEstimate
max_by_key key [] = none
max_by_key key (e ∷ es) = elim (max_by_key key es) [
  | none ↦ some e
  | some best ↦ if ltb (key best) (key e) then some e else some best
]

-- `min_by_key`: of equal keys the first.
unfoldable pub min_by_key : (EntryEstimate → ℕ) → List EntryEstimate → Option EntryEstimate
min_by_key key [] = none
min_by_key key (e ∷ es) = elim (min_by_key key es) [
  | none ↦ some e
  | some best ↦ if ltb (key best) (key e) then some best else some e
]

unfoldable pub largest_exact : Budget → Option EntryEstimate
unfolding max_by_key
largest_exact b = max_by_key (λ e. e.instructions) (keep is_exact b.entries)

unfoldable pub smallest : Budget → Option EntryEstimate
unfolding min_by_key
smallest b = min_by_key (λ e. e.instructions) b.entries

-- The set of the exported indices.
abbrev pub index_set : BTreeSet ℕ → List (String × ℕ) → BTreeSet ℕ
index_set s [] = s
index_set s ((name, index) ∷ es) = index_set (set_insert index s) es

length-insert :
    (k : ℕ) (s : BTreeSet ℕ)
    → length (set_insert k s) ≡ (if set_contains k s then length s else length s + 1)
unfolding set_insert set_contains insert get
length-insert k [] = refl
length-insert k ((j, u) ∷ s) = ground (arith, length-insert k s)

exports_count :
    (m : Module) (s : BTreeSet ℕ) (es : List (String × ℕ))
    → length (estimate_exports m s es) + length s ≡ length (index_set s es)
unfolding estimate_exports
exports_count m s [] = omega arith
exports_count m s ((name, index) ∷ es) =
    ground (arith, exports_count m (set_insert index s) es, length-insert index s)

-- An export of an index is estimated under some exported name of that index.
abbrev pub Estimated : Module → List EntryEstimate → List (String × ℕ) → ℕ → Type 0
Estimated m out es index =
    (name : String) × In (name, index) es × In (estimate_entry m name index) out

later :
    (m : Module) (name : String) (index i : ℕ) (out : List EntryEstimate) (es : List (String × ℕ))
    → Estimated m out es i
    → Estimated m out ((name, index) ∷ es) i
later m name index i out es (n, a, b) = (n, inr a, b)

also :
    (m : Module) (e : EntryEstimate) (i : ℕ) (out : List EntryEstimate) (es : List (String × ℕ))
    → Estimated m out es i
    → Estimated m (e ∷ out) es i
also m e i out es (n, a, b) = (n, a, inr b)

-- The export that is estimated now covers its own index.
covers_self :
    (m : Module) (name : String) (index i : ℕ) (out : List EntryEstimate) (es : List (String × ℕ))
    → i ≡ index
    → Estimated m (estimate_entry m name index ∷ out) ((name, index) ∷ es) i
covers_self m name index i out es e =
    subst (λ j. Estimated m (estimate_entry m name index ∷ out) ((name, index) ∷ es) j) (sym e)
      (name, inl refl, inl refl)

contains-insert-cases :
    (index i : ℕ) (s : BTreeSet ℕ)
    → set_contains i (set_insert index s) ≡ true
    → (i ≡ index) ⊎ (set_contains i s ≡ true)
contains-insert-cases index i s h = elim (Bool-cases (same i index)) [
  | inl e ↦ inl ((same_iff i index).0 e)
  | inr e ↦ inr (ground (arith, contains-insert index i s))
]

abbrev Export : Type 0
Export = String × ℕ

same_index : (a b : Export) → a ≡ b → a.1 ≡ b.1
same_index a b e = ap (λ (p : Export). p.1) e

-- The index is in the set, or is estimated in `out`.
abbrev Covered : Module → BTreeSet ℕ → List EntryEstimate → List Export → ℕ → Type 0
Covered m s out es i = (set_contains i s ≡ true) ⊎ Estimated m out es i

skip_known :
    (m : Module) (s : BTreeSet ℕ) (n : String) (index i : ℕ) (out : List EntryEstimate)
    (es : List Export)
    → set_contains index s ≡ true
    → Covered m (set_insert index s) out es i
    → Covered m s out ((n, index) ∷ es) i
skip_known m s n index i out es old (inl c) = elim (contains-insert-cases index i s c) [
  | inl e ↦ inl (rw e old)
  | inr d ↦ inl d
]
skip_known m s n index i out es old (inr d) = inr (later m n index i out es d)

take_new :
    (m : Module) (s : BTreeSet ℕ) (n : String) (index i : ℕ) (out : List EntryEstimate)
    (es : List Export)
    → Covered m (set_insert index s) out es i
    → Covered m s (estimate_entry m n index ∷ out) ((n, index) ∷ es) i
take_new m s n index i out es (inl c) = elim (contains-insert-cases index i s c) [
  | inl e ↦ inr (covers_self m n index i out es e)
  | inr d ↦ inl d
]
take_new m s n index i out es (inr d) = inr (
    later m n index i (estimate_entry m n index ∷ out) es
      (also m (estimate_entry m n index) i out es d))

estimate_exports_lem :
    (m : Module) (s : BTreeSet ℕ) (es : List Export) (name : String) (i : ℕ)
    → In (name, i) es
    → Covered m s (estimate_exports m s es) es i
unfolding estimate_exports
estimate_exports_lem m s [] name i h = absurd h
estimate_exports_lem m s ((n, index) ∷ es) name i (inl e) =
    let rest = estimate_exports m (set_insert index s) es in
    let e' = same_index (name, i) (n, index) e in
    elim (Bool-cases (set_contains index s)) [
      | inl old ↦ inl (rw e' old)
      | inr new ↦ rw new (inr (covers_self m n index i rest es e'))
    ]
estimate_exports_lem m s ((n, index) ∷ es) name i (inr t) =
    let rest = estimate_exports m (set_insert index s) es in
    let ih = estimate_exports_lem m (set_insert index s) es name i t in
    elim (Bool-cases (set_contains index s)) [
      | inl old ↦ rw old (skip_known m s n index i rest es old ih)
      | inr new ↦ rw new (take_new m s n index i rest es ih)
    ]

-- Every exported function index has an estimate under one of its exported names, and there are
-- exactly as many estimates as distinct exported indices: a function exported under two names is
-- estimated once.
pub estimate_covers :
    (m : Module)
    → ((name : String) (i : ℕ)
        → In (name, i) m.exports
        → Estimated m (estimate m).entries m.exports i)
      × (length (estimate m).entries ≡ length (index_set [] m.exports))
unfolding estimate
estimate_covers m = (
  λ name i h. elim (estimate_exports_lem m [] m.exports name i h) [
    | inl c ↦ absurd (empty i c)
    | inr d ↦ d
  ],
  omega (arith, exports_count m [] m.exports),
)
  where
    empty : (i : ℕ) → set_contains i [] ≡ true → ⊥
    empty i c = unfold set_contains get in cc c
