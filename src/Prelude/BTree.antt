-- ===== src/Prelude/BTree.antt =====
-- `BTreeMap` and `BTreeSet` of the standard library: the entries in key order.
use Prim.Native.Nat.{ℕ, ◌+◌, Ordering}
use mathlib.Core.Path.{◌≡◌}
use mathlib.Core.Bool.{Bool, true, false}
use mathlib.Core.Option.{Option, none, some}
use mathlib.Core.List.{List, [], ◌∷◌}
use native.Mathlib.Omega.{arith}
use soroban_fuzzer.Prelude.Tests.{if◌then◌else◌}
use soroban_fuzzer.Prelude.Order.{Ord, same, cmp_refl}

abbrev pub BTreeMap {ℓ κ} : Type ℓ → Type κ → Type (ℓ ⊔ κ)
BTreeMap K V = List (K × V)

-- A set is a map to the unit type, as in the standard library.
abbrev pub BTreeSet {ℓ} : Type ℓ → Type ℓ
BTreeSet K = BTreeMap K (Unit {0})

module _ {ℓ κ} {K : Type ℓ} {V : Type κ} ⦃o : Ord K⦄ where
  -- The search stops at the first entry with a greater key.
  unfoldable pub get : K → BTreeMap K V → Option V
  get k [] = none
  get k ((j, v) ∷ m) = elim (o.cmp k j) [
    | Ordering.lt ↦ none
    | Ordering.eq ↦ some v
    | Ordering.gt ↦ get k m
  ]

  -- The write goes before the first entry with a greater key.
  unfoldable pub insert : K → V → BTreeMap K V → BTreeMap K V
  insert k v [] = (k, v) ∷ []
  insert k v ((j, w) ∷ m) =
      let rest = insert k v m in
      elim (o.cmp k j) [
        | Ordering.lt ↦ (k, v) ∷ (j, w) ∷ m
        | Ordering.eq ↦ (k, v) ∷ m
        | Ordering.gt ↦ (j, w) ∷ insert k v m
      ]

  abbrev pub contains_key : K → BTreeMap K V → Bool
  contains_key k m = elim (get k m) [ none ↦ false | some _ ↦ true ]

  -- One step of the search.
  pub get_below :
      (k j : K) (v : V) (m : BTreeMap K V) → o.cmp k j ≡ Ordering.lt → get k ((j, v) ∷ m) ≡ none
  unfolding get
  get_below k j v m h = ground arith

  pub get_head : (k : K) (v : V) (m : BTreeMap K V) → get k ((k, v) ∷ m) ≡ some v
  unfolding get
  get_head k v m = ground (arith, cmp_refl k)

  pub get_above :
      (k j : K) (v : V) (m : BTreeMap K V) → o.cmp j k ≡ Ordering.lt → get k ((j, v) ∷ m) ≡ get k m
  unfolding get
  get_above k j v m h = ground (arith, o.flip_lt j k h)

  pub get-insert :
      (k j : K) (v : V) (m : BTreeMap K V)
      → get j (insert k v m) ≡ (if same j k then some v else get j m)
  unfolding get insert
  get-insert k j v [] = ground arith
  get-insert k j v ((i, w) ∷ m) = ground (
    arith,
    o.cmp_iff k i,
    o.cmp_iff j i,
    o.cmp_iff j k,
    o.flip_gt j k,
    o.flip_gt j i,
    o.lt_trans j k i,
    o.lt_trans i j k,
    o.flip_gt k i,
    o.flip_lt k i,
    get-insert k j v m,
  )

module _ {ℓ} {K : Type ℓ} ⦃o : Ord K⦄ where
  unfoldable pub set_insert : K → BTreeSet K → BTreeSet K
  unfolding insert
  set_insert k s = insert k tt s

  unfoldable pub set_contains : K → BTreeSet K → Bool
  unfolding get
  set_contains k s = contains_key k s

  -- An inserted key is in the set, and every other key is as it was.
  pub contains-insert :
      (k j : K) (s : BTreeSet K)
      → set_contains j (set_insert k s) ≡ (if same j k then true else set_contains j s)
  unfolding set_insert set_contains
  contains-insert k j s = ground (arith, get-insert k j tt s)

-- `*map.entry(key).or_insert(0) += 1`
unfoldable pub bump {ℓ} : {K : Type ℓ} ⦃o : Ord K⦄ → K → BTreeMap K ℕ → BTreeMap K ℕ
unfolding insert get
bump k m = insert k (elim (get k m) [ none ↦ 0 | some n ↦ n ] + 1) m

-- The sum of all counts.
abbrev pub total {ℓ} : {K : Type ℓ} → BTreeMap K ℕ → ℕ
total [] = 0
total ((k, n) ∷ m) = n + total m

-- Each increment adds one to the sum of the counts.
pub total-bump {ℓ} :
    {K : Type ℓ} ⦃o : Ord K⦄ (k : K) (m : BTreeMap K ℕ) → total (bump k m) ≡ total m + 1
unfolding bump get insert
total-bump k [] = omega arith
total-bump ⦃o⦄ k ((j, n) ∷ m) = ground (arith, total-bump k m, o.cmp_iff k j)
