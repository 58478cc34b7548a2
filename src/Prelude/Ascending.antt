-- ===== src/Prelude/Ascending.antt =====
-- A sorted list ascends, and a sorted and deduplicated one has each of its elements once.
use Prim.Native.Nat.{Ordering}
use mathlib.Core.Path.{◌≡◌, refl, sym, ap, ◌∙◌, subst}
use mathlib.Core.Logic.{◌⊎◌, inl, inr}
use mathlib.Core.Bool.{Bool, false, ◌||◌}
use mathlib.Core.List.{List, [], ◌∷◌}
use native.Mathlib.Omega.{arith}
use soroban_fuzzer.Prelude.Tests.{Bool-cases}
use soroban_fuzzer.Prelude.Lists.{any, All, All-imp}
use soroban_fuzzer.Prelude.Order.{Ord, same, same_iff, cmp-cases}
use soroban_fuzzer.Prelude.Sort.{
  insert_by, sort_by, sort, dedup_after, dedup, All-insert_by, any-sort_by,
}

module _ {ℓ} {K : Type ℓ} ⦃o : Ord K⦄ where
  -- `a ≤ b`
  abbrev pub NotAbove : K → K → Type ℓ
  NotAbove a b = (o.cmp a b ≡ Ordering.lt) ⊎ (a ≡ b)

  abbrev pub IsAscending : List K → Type ℓ
  IsAscending [] = Unit
  IsAscending (x ∷ xs) = All (NotAbove x) xs × IsAscending xs

  abbrev pub IsStrict : List K → Type 0
  IsStrict [] = Unit
  IsStrict (x ∷ xs) = All (λ y. o.cmp x y ≡ Ordering.lt) xs × IsStrict xs

  NotAbove-trans : (a b c : K) → NotAbove a b → NotAbove b c → NotAbove a c
  NotAbove-trans a b c (inl h) (inl k) = inl (o.lt_trans a b c h k)
  NotAbove-trans a b c (inl h) (inr k) = inl (subst (λ d. o.cmp a d ≡ Ordering.lt) k h)
  NotAbove-trans a b c (inr h) k = subst (λ d. NotAbove d c) (sym h) k

  insert_below :
      (x y : K) (ys : List K) → o.cmp x y ≡ Ordering.lt → insert_by o.cmp x (y ∷ ys) ≡ x ∷ y ∷ ys
  unfolding insert_by
  insert_below x y ys h = ground arith

  insert_equal : (x y : K) (ys : List K) → x ≡ y → insert_by o.cmp x (y ∷ ys) ≡ x ∷ y ∷ ys
  unfolding insert_by
  insert_equal x y ys h = ground (arith, (o.cmp_iff x y).1 h)

  insert_above :
      (x y : K) (ys : List K)
      → o.cmp y x ≡ Ordering.lt
      → insert_by o.cmp x (y ∷ ys) ≡ y ∷ insert_by o.cmp x ys
  unfolding insert_by
  insert_above x y ys h = ground (arith, o.flip_lt y x h)

  below-same : (a x : K) → o.cmp a x ≡ Ordering.lt → same a x ≡ false
  below-same a x h = ground arith

  insert-IsAscending : (x : K) (xs : List K) → IsAscending xs → IsAscending (insert_by o.cmp x xs)
  unfolding insert_by
  insert-IsAscending x [] h = (tt, tt)
  insert-IsAscending x (y ∷ ys) h = elim (cmp-cases x y) [
    | inl lt ↦
        subst IsAscending (sym (insert_below x y ys lt))
          ((inl lt, All-imp (λ z k. NotAbove-trans x y z (inl lt) k) ys h.0), h)
    | inr (inl e) ↦
        subst IsAscending (sym (insert_equal x y ys e))
          ((inr e, All-imp (λ z k. NotAbove-trans x y z (inr e) k) ys h.0), h)
    | inr (inr gt) ↦
        subst IsAscending (sym (insert_above x y ys gt))
          (All-insert_by (NotAbove y) o.cmp x ys (inl gt) h.0, insert-IsAscending x ys h.1)
  ]

  pub sort-IsAscending : (xs : List K) → IsAscending (sort xs)
  unfolding sort_by
  sort-IsAscending [] = tt
  sort-IsAscending (x ∷ xs) = insert-IsAscending x (sort xs) (sort-IsAscending xs)

  lower :
      (a x : K) (xs : List K)
      → o.cmp a x ≡ Ordering.lt
      → All (λ y. o.cmp x y ≡ Ordering.lt) xs
      → All (λ y. o.cmp a y ≡ Ordering.lt) xs
  lower a x xs h k = All-imp (λ y l. o.lt_trans a x y h l) xs k

  -- What is kept is above `a`, and ascends strictly.
  dedup_after-IsStrict :
      (a : K) (xs : List K)
      → All (NotAbove a) xs
      → IsAscending xs
      → All (λ y. o.cmp a y ≡ Ordering.lt) (dedup_after a xs) × IsStrict (dedup_after a xs)
  unfolding dedup_after
  dedup_after-IsStrict a [] h k = (tt, tt)
  dedup_after-IsStrict a (x ∷ xs) (inl lt, h) k =
      let rest = dedup_after-IsStrict x xs k.0 k.1 in
      let differs : same a x ≡ false = below-same a x lt in
      rw differs ((lt, lower a x (dedup_after x xs) lt rest.0), rest)
  dedup_after-IsStrict a (x ∷ xs) (inr e, h) k =
      let rest = dedup_after-IsStrict x xs k.0 k.1 in
      rw ((same_iff a x).1 e)
        (subst (λ b. All (λ y. o.cmp b y ≡ Ordering.lt) (dedup_after x xs)) (sym e) rest.0, rest.1)

  dedup-IsStrict : (xs : List K) → IsAscending xs → IsStrict (dedup xs)
  unfolding dedup
  dedup-IsStrict [] h = tt
  dedup-IsStrict (x ∷ xs) h = dedup_after-IsStrict x xs h.0 h.1

  pub dedup-sort-IsStrict : (xs : List K) → IsStrict (dedup (sort xs))
  dedup-sort-IsStrict xs = dedup-IsStrict (sort xs) (sort-IsAscending xs)

  or_again :
      (p : K → Bool) (a x : K) (xs : List K)
      → a ≡ x
      → (p x || any p xs) ≡ (p a || (p x || any p xs))
  or_again p a x xs e = ground (arith, ap p e)

  any-dedup_after :
      (p : K → Bool) (a : K) (xs : List K) → (p a || any p (dedup_after a xs)) ≡ (p a || any p xs)
  unfolding dedup_after
  any-dedup_after p a [] = refl
  any-dedup_after p a (x ∷ xs) = elim (Bool-cases (same a x)) [
    | inl b ↦ rw b (
        ap (λ (t : Bool). t || any p (dedup_after x xs)) (ap p ((same_iff a x).0 b))
        ∙ any-dedup_after p x xs
        ∙ or_again p a x xs ((same_iff a x).0 b))
    | inr b ↦ rw b (ap (λ (t : Bool). p a || t) (any-dedup_after p x xs))
  ]

  any-dedup : (p : K → Bool) (xs : List K) → any p (dedup xs) ≡ any p xs
  unfolding dedup
  any-dedup p [] = refl
  any-dedup p (x ∷ xs) = any-dedup_after p x xs

  -- No element is lost, and none is new.
  pub any-dedup-sort : (p : K → Bool) (xs : List K) → any p (dedup (sort xs)) ≡ any p xs
  any-dedup-sort p xs = any-dedup p (sort xs) ∙ any-sort_by p o.cmp xs
