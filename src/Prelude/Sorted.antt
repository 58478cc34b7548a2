-- ===== src/Prelude/Sorted.antt =====
-- The order of a map's entries: an insertion keeps it, and a set of numbers in a range is no longer
-- than the range.
use Prim.Native.Nat.{ℕ, ◌+◌, ◌≤◌, ◌<◌, Ordering}
use mathlib.Core.Path.{◌≡◌}
use mathlib.Core.List.{[], ◌∷◌}
use native.Mathlib.Omega.{arith}
use soroban_fuzzer.Prelude.Lists.{length}
use soroban_fuzzer.Prelude.Order.{Ord, nat_ord}
use soroban_fuzzer.Prelude.BTree.{BTreeMap, insert}

module _ {ℓ κ} {K : Type ℓ} {V : Type κ} ⦃o : Ord K⦄ where
  -- Every key of the map is greater.
  abbrev pub Above : K → BTreeMap K V → Type 0
  Above k [] = Unit
  Above k ((j, w) ∷ m) = (o.cmp k j ≡ Ordering.lt) × Above k m

  abbrev pub IsSorted : BTreeMap K V → Type 0
  IsSorted [] = Unit
  IsSorted ((j, w) ∷ m) = Above j m × IsSorted m

  pub Above-trans : (i j : K) (m : BTreeMap K V) → o.cmp i j ≡ Ordering.lt → Above j m → Above i m
  Above-trans i j [] h a = tt
  Above-trans i j ((k, w) ∷ m) h a = (o.lt_trans i j k h a.0, Above-trans i j m h a.1)

  pub insert-Above :
      (i k : K) (v : V) (m : BTreeMap K V)
      → o.cmp i k ≡ Ordering.lt
      → Above i m
      → Above i (insert k v m)
  unfolding insert
  insert-Above i k v [] h a = (h, tt)
  insert-Above i k v ((j, w) ∷ m) h a = ground (arith, insert-Above i k v m)

  pub insert-IsSorted : (k : K) (v : V) (m : BTreeMap K V) → IsSorted m → IsSorted (insert k v m)
  unfolding insert
  insert-IsSorted k v [] h = (tt, tt)
  insert-IsSorted k v ((j, w) ∷ m) h = ground (
    arith,
    insert-IsSorted k v m,
    o.cmp_iff k j,
    o.flip_gt k j,
    insert-Above j k v m,
    Above-trans k j m,
  )

-- Every key lies in the range.
abbrev pub InRange {κ} : {V : Type κ} → ℕ → ℕ → BTreeMap ℕ V → Type 0
InRange lo hi [] = Unit
InRange lo hi ((k, v) ∷ m) = (lo ≤ k) × (k < hi) × InRange lo hi m

module _ {κ} {V : Type κ} where
  pub insert-InRange :
      (lo hi k : ℕ) (v : V) (m : BTreeMap ℕ V)
      → lo ≤ k
      → k < hi
      → InRange lo hi m
      → InRange lo hi (insert k v m)
  unfolding insert
  insert-InRange lo hi k v [] a b h = (a, b, tt)
  insert-InRange lo hi k v ((j, w) ∷ m) a b h = ground (arith, insert-InRange lo hi k v m)

  raise_range :
      (lo hi k : ℕ) (m : BTreeMap ℕ V) → Above k m → InRange lo hi m → InRange (k + 1) hi m
  raise_range lo hi k [] a h = tt
  raise_range lo hi k ((j, w) ∷ m) a h = (ground arith, ground arith, raise_range lo hi k m a.1 h.2)

  pub length-le-range :
      (lo hi : ℕ) (m : BTreeMap ℕ V) → lo ≤ hi → IsSorted m → InRange lo hi m → length m + lo ≤ hi
  length-le-range lo hi [] le s h = omega arith
  length-le-range lo hi ((k, w) ∷ m) le s h =
      omega (arith, length-le-range (k + 1) hi m (omega arith) s.1 (raise_range lo hi k m s.0 h.2))
