-- ===== src/Fuzzer/Storage/Fresh.antt =====
-- The additions and updates of `diff_kind` in soroban-fuzzer/src/storage.rs.
use soroban_fuzzer.Prelude.{
  ℕ, ◌+◌, ◌≡◌, ◌↔◌, refl, true, none, some, [], ◌∷◌, foldl, arith, if◌then◌else◌, inl, inr, ◌⊎◌,
  All, Option-cases,
}
use soroban_fuzzer.Prelude.Order.{Ord, same_iff, pair_ord, same_refl}
use soroban_fuzzer.Prelude.BTree.{get}
use soroban_fuzzer.Prelude.Sorted.{IsSorted}
use soroban_fuzzer.Fuzzer.Storage.Xdr.{Xdr, ScVal}
use soroban_fuzzer.Fuzzer.Storage.Snapshot.{Entry, EntryKey, EntryMap}
use soroban_fuzzer.Fuzzer.Storage.Diff.{ChangeSet, no_change, note_after, note_before, diff_kind}
use soroban_fuzzer.Fuzzer.Storage.Accounting.{push_key-counts}
use soroban_fuzzer.Fuzzer.Storage.Unchanged.{
  value_at, holds, failing, failing_none, All-get, get_each,
}

abbrev pub fresh : ChangeSet → ℕ
fresh c = c.added + c.updated

module _ (x : Xdr) ⦃a : Ord x.Address⦄ ⦃v : Ord (ScVal x)⦄ where
  fresh-note_after :
      (before : EntryMap x) (c : ChangeSet) (p : EntryKey x × Entry x)
      → fresh (note_after x before c p) ≡ fresh c + (if holds x before p then 0 else 1)
  unfolding note_after
  fresh-note_after before c (k, e) = ground (
    arith,
    push_key-counts (record c { added = c.added + 1 }) e.label,
    push_key-counts (record c { updated = c.updated + 1 }) e.label,
  )

  fresh-note_before :
      (after : EntryMap x) (c : ChangeSet) (p : EntryKey x × Entry x)
      → fresh (note_before x after c p) ≡ fresh c
  unfolding note_before
  fresh-note_before after c (k, e) =
      ground (arith, push_key-counts (record c { removed = c.removed + 1 }) e.label)

  early :
      (before m : EntryMap x) (c : ChangeSet)
      → fresh (foldl (note_after x before) c m) ≡ fresh c + failing (holds x before) m
  early before [] c = omega arith
  early before (p ∷ m) c =
      omega (arith, early before m (note_after x before c p), fresh-note_after before c p)

  late : (after m : EntryMap x) (c : ChangeSet) → fresh (foldl (note_before x after) c m) ≡ fresh c
  late after [] c = refl
  late after (p ∷ m) c =
      omega (arith, late after m (note_before x after c p), fresh-note_before after c p)

  fresh-diff_kind :
      (before after : EntryMap x)
      → fresh (diff_kind x before after) ≡ failing (holds x before) after
  unfolding diff_kind
  fresh-diff_kind before after = omega (
    arith,
    late after before (foldl (note_after x before) no_change after),
    early before after no_change,
  )

  -- Whatever is under a key was there before.
  abbrev pub AtMostGone : EntryMap x → EntryMap x → Type 0
  AtMostGone before after =
      (k : EntryKey x) → (value_at x k after ≡ none) ⊎ (value_at x k after ≡ value_at x k before)

  held_before :
      (before after : EntryMap x)
      → All (λ p. holds x before p ≡ true) after
      → AtMostGone before after
  held_before before after h k = elim (Option-cases (get k after)) [
    | inl gone ↦ inl (ground arith)
    | inr (e, some_after) ↦
        let q = All-get (λ j f. holds x before (j, f) ≡ true) k e after h some_after in
        elim (Option-cases (get k before)) [
          | inl none_before ↦ ground arith
          | inr (old, some_before) ↦ inr (ground (arith, q, same_iff old.value e.value))
        ]
  ]

  hold_before :
      (before after m : EntryMap x)
      → AtMostGone before after
      → All (λ p. get p.0 after ≡ some p.1) m
      → All (λ p. holds x before p ≡ true) m
  hold_before before after [] q h = tt
  hold_before before after ((k, e) ∷ m) q h = (
    elim (q k) [
      | inl gone ↦ ground (arith, h.0)
      | inr kept ↦ ground (arith, h.0, same_refl e.value)
    ],
    hold_before before after m q h.1,
  )

  pub fresh_iff :
      (before after : EntryMap x)
      → IsSorted after
      → ((diff_kind x before after).added ≡ 0) × ((diff_kind x before after).updated ≡ 0)
        ↔ AtMostGone before after
  fresh_iff before after sorted =
      let count = fresh-diff_kind before after in
      let none_fail = failing_none (holds x before) after in
      (
        λ h. held_before before after (none_fail.0 (omega (arith, count, h.0, h.1))),
        λ q.
            let z = none_fail.1 (hold_before before after after q (get_each after sorted)) in
            (omega (arith, count, z), omega (arith, count, z)),
      )
