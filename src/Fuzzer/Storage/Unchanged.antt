-- ===== src/Fuzzer/Storage/Unchanged.antt =====
-- `ChangeSet::is_empty` of soroban-fuzzer/src/storage.rs, on a change set of `diff_kind`.
use soroban_fuzzer.Prelude.{
  ℕ, ◌+◌, ◌≡◌, ◌↔◌, refl, Bool, true, false, Option, none, some, List, [], ◌∷◌, foldl, arith,
  if◌then◌else◌, ◌∙◌, sym, subst, inl, inr, All, Option-cases,
}
use soroban_fuzzer.Prelude.Order.{Ord, same, same_iff, pair_ord, cmp-cases, same_refl}
use soroban_fuzzer.Prelude.BTree.{BTreeMap, get, contains_key, get_below, get_head, get_above}
use soroban_fuzzer.Prelude.Sorted.{Above, IsSorted}
use soroban_fuzzer.Fuzzer.Storage.Xdr.{Xdr, ScVal}
use soroban_fuzzer.Fuzzer.Storage.Snapshot.{Entry, EntryKey, EntryMap}
use soroban_fuzzer.Fuzzer.Storage.Diff.{
  ChangeSet, no_change, writes, is_empty, note_after, note_before, diff_kind,
}
use soroban_fuzzer.Fuzzer.Storage.Accounting.{push_key-counts}
use mathlib.Core.Path.{subst₂}

some_injective {ℓ} : {A : Type ℓ} (a b : A) → some a ≡ some b → a ≡ b
some_injective a b e = cc

module _ {ℓ κ} {K : Type ℓ} {V : Type κ} ⦃o : Ord K⦄ where
  -- What holds of all entries holds of the one that is found.
  pub All-get :
      (P : K → V → Type 0) (k : K) (w : V) (m : BTreeMap K V)
      → All (λ p. P p.0 p.1) m
      → get k m ≡ some w
      → P k w
  All-get P k w [] h e = unfold get in let e' : none ≡ some w = e in cc
  All-get P k w ((j, u) ∷ m) h e = elim (cmp-cases k j) [
    | inl lt ↦ cc (get_below k j u m lt)
    | inr (inl q) ↦
        let hit : get j ((j, u) ∷ m) ≡ some w = subst (λ i. get i ((j, u) ∷ m) ≡ some w) q e in
        subst₂ P (sym q) (some_injective u w (sym (get_head j u m) ∙ hit)) h.0
    | inr (inr gt) ↦ All-get P k w m h.1 (sym (get_above k j u m gt) ∙ e)
  ]

  get_lift :
      (k : K) (w : V) (m n : BTreeMap K V)
      → Above k n
      → All (λ p. get p.0 m ≡ some p.1) n
      → All (λ p. get p.0 ((k, w) ∷ m) ≡ some p.1) n
  get_lift k w m [] a h = tt
  get_lift k w m ((j, u) ∷ n) a h = (get_above j k w m a.0 ∙ h.0, get_lift k w m n a.1 h.1)

  -- In a sorted map every entry is found.
  pub get_each : (m : BTreeMap K V) → IsSorted m → All (λ p. get p.0 m ≡ some p.1) m
  get_each [] s = tt
  get_each ((k, w) ∷ m) s = (get_head k w m, get_lift k w m m s.0 (get_each m s.1))

-- The number of entries that fail a test.
abbrev pub failing {ℓ} : {A : Type ℓ} → (A → Bool) → List A → ℕ
failing test [] = 0
failing test (p ∷ m) = (if test p then 0 else 1) + failing test m

pub failing_none {ℓ} :
    {A : Type ℓ} (test : A → Bool) (m : List A) → (failing test m ≡ 0) ↔ All (λ p. test p ≡ true) m
failing_none test [] = (λ h. tt, λ h. refl)
failing_none test (p ∷ m) = (
  λ h. (ground arith, (failing_none test m).0 (omega arith)),
  λ h. let (a, b) = h in ground (arith, (failing_none test m).1 b),
)

module _ (x : Xdr) ⦃a : Ord x.Address⦄ ⦃v : Ord (ScVal x)⦄ where
  -- What a map holds under a key.
  abbrev pub value_at : EntryKey x → EntryMap x → Option (ScVal x)
  value_at k m = elim (get k m) [ none ↦ none | some e ↦ some e.value ]

  -- The map holds this value under this key; the map has this key.
  abbrev pub holds : EntryMap x → EntryKey x × Entry x → Bool
  holds m (k, e) = elim (get k m) [ none ↦ false | some old ↦ same old.value e.value ]

  abbrev has : EntryMap x → EntryKey x × Entry x → Bool
  has m (k, e) = contains_key k m

  writes-note_after :
      (before : EntryMap x) (c : ChangeSet) (p : EntryKey x × Entry x)
      → writes (note_after x before c p) ≡ writes c + (if holds before p then 0 else 1)
  unfolding note_after writes
  writes-note_after before c (k, e) = ground (
    arith,
    push_key-counts (record c { added = c.added + 1 }) e.label,
    push_key-counts (record c { updated = c.updated + 1 }) e.label,
  )

  writes-note_before :
      (after : EntryMap x) (c : ChangeSet) (p : EntryKey x × Entry x)
      → writes (note_before x after c p) ≡ writes c + (if has after p then 0 else 1)
  unfolding note_before writes
  writes-note_before after c (k, e) =
      ground (arith, push_key-counts (record c { removed = c.removed + 1 }) e.label)

  writes-loop :
      (step : ChangeSet → EntryKey x × Entry x → ChangeSet) (test : EntryKey x × Entry x → Bool)
      → ((c : ChangeSet) (p : EntryKey x × Entry x)
          → writes (step c p) ≡ writes c + (if test p then 0 else 1))
      → (m : EntryMap x) (c : ChangeSet) → writes (foldl step c m) ≡ writes c + failing test m
  writes-loop step test one [] c = omega arith
  writes-loop step test one (p ∷ m) c =
      omega (arith, writes-loop step test one m (step c p), one c p)

  writes-no_change : writes no_change ≡ 0
  unfolding writes
  writes-no_change = refl

  -- A diff counts the entries after that are new or changed, and those before that are gone.
  writes-diff_kind :
      (before after : EntryMap x)
      → writes (diff_kind x before after)
        ≡ failing (holds before) after + failing (has after) before
  unfolding diff_kind
  writes-diff_kind before after =
      let seen = foldl (note_after x before) no_change after in
      let late =
        writes-loop (note_before x after) (has after) (writes-note_before after) before seen in
      let early =
        writes-loop (note_after x before) (holds before) (writes-note_after before) after
          no_change in
      omega (arith, late, early, writes-no_change)

  same_values :
      (before after : EntryMap x)
      → All (λ p. holds before p ≡ true) after
      → All (λ p. has after p ≡ true) before
      → (k : EntryKey x) → value_at k before ≡ value_at k after
  same_values before after h g k = elim (Option-cases (get k after)) [
    | inl none_after ↦ elim (Option-cases (get k before)) [
      | inl none_before ↦ ground arith
      | inr (e, some_before) ↦
          ground (arith, All-get (λ j f. has after (j, f) ≡ true) k e before g some_before)
    ]
    | inr (e, some_after) ↦ elim (Option-cases (get k before)) [
      | inl none_before ↦
          ground (arith, All-get (λ j f. holds before (j, f) ≡ true) k e after h some_after)
      | inr (old, some_before) ↦ ground (
        arith,
        All-get (λ j f. holds before (j, f) ≡ true) k e after h some_after,
        same_iff old.value e.value,
      )
    ]
  ]

  each_holds :
      (before after m : EntryMap x)
      → ((k : EntryKey x) → value_at k before ≡ value_at k after)
      → All (λ p. get p.0 after ≡ some p.1) m
      → All (λ p. holds before p ≡ true) m
  each_holds before after [] q h = tt
  each_holds before after ((k, e) ∷ m) q h =
      (ground (arith, q k, h.0, same_refl e.value), each_holds before after m q h.1)

  each_is_present :
      (before after m : EntryMap x)
      → ((k : EntryKey x) → value_at k before ≡ value_at k after)
      → All (λ p. get p.0 before ≡ some p.1) m
      → All (λ p. has after p ≡ true) m
  each_is_present before after [] q h = tt
  each_is_present before after ((k, e) ∷ m) q h =
      (ground (arith, q k, h.0), each_is_present before after m q h.1)

  -- Of two maps in key order the diff is empty exactly when they hold the same values under the same
  -- keys.
  pub is_empty-diff_kind :
      (before after : EntryMap x)
      → IsSorted before
      → IsSorted after
      → (is_empty (diff_kind x before after) ≡ true)
        ↔ ((k : EntryKey x) → value_at k before ≡ value_at k after)
  unfolding is_empty
  is_empty-diff_kind before after s t =
      let w = writes-diff_kind before after in
      (
        λ h.
            same_values before after ((failing_none (holds before) after).0 (ground arith))
              ((failing_none (has after) before).0 (ground arith)),
        λ q. ground (
          arith,
          w,
          (failing_none (holds before) after).1
              (each_holds before after after q (get_each after t)),
          (failing_none (has after) before).1
              (each_is_present before after before q (get_each before s)),
        ),
      )
