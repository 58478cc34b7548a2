-- ===== src/Prelude/Sort.antt =====
-- `sort_by`, `sort` and `dedup` of the standard library's slices: a stable sort by a comparison.
use Prim.Native.Nat.{ℕ, zero, suc, ◌+◌, Ordering}
use mathlib.Core.Path.{◌≡◌, refl, ap, ◌∙◌}
use mathlib.Core.Bool.{Bool, ◌||◌}
use mathlib.Core.List.{List, [], ◌∷◌, ◌++◌, map}
use native.Mathlib.Omega.{arith}
use soroban_fuzzer.Prelude.Tests.{if◌then◌else◌}
use soroban_fuzzer.Prelude.Lists.{length, keep, any, All}
use soroban_fuzzer.Prelude.Order.{Ord, nat_ord, same}

module _ {ℓ} {A : Type ℓ} where
  -- `x` stands before the elements that compare equal to it, so that the sort is stable.
  unfoldable pub insert_by : (A → A → Ordering) → A → List A → List A
  insert_by c x [] = x ∷ []
  insert_by c x (y ∷ ys) =
      let rest = insert_by c x ys in
      elim (c x y) [ Ordering.gt ↦ y ∷ rest | Ordering.eq ↦ x ∷ y ∷ ys | Ordering.lt ↦ x ∷ y ∷ ys ]

  unfoldable pub sort_by : (A → A → Ordering) → List A → List A
  sort_by c [] = []
  sort_by c (x ∷ xs) = insert_by c x (sort_by c xs)

  pub any-insert_by :
      (p : A → Bool) (c : A → A → Ordering) (x : A) (xs : List A)
      → any p (insert_by c x xs) ≡ any p (x ∷ xs)
  unfolding insert_by
  any-insert_by p c x [] = refl
  any-insert_by p c x (y ∷ ys) = ground (arith, any-insert_by p c x ys)

  -- A sort neither adds nor loses an element that a test can see.
  pub any-sort_by :
      (p : A → Bool) (c : A → A → Ordering) (xs : List A) → any p (sort_by c xs) ≡ any p xs
  unfolding sort_by
  any-sort_by p c [] = refl
  any-sort_by p c (x ∷ xs) =
      any-insert_by p c x (sort_by c xs) ∙ ap (λ (b : Bool). p x || b) (any-sort_by p c xs)

  pub length-keep-insert_by :
      (p : A → Bool) (c : A → A → Ordering) (x : A) (xs : List A)
      → length (keep p (insert_by c x xs)) ≡ length (keep p (x ∷ xs))
  unfolding insert_by
  length-keep-insert_by p c x [] = refl
  length-keep-insert_by p c x (y ∷ ys) = ground (arith, length-keep-insert_by p c x ys)

  pub All-insert_by {κ} :
      (P : A → Type κ) (c : A → A → Ordering) (x : A) (xs : List A)
      → P x
      → All P xs
      → All P (insert_by c x xs)
  unfolding insert_by
  All-insert_by P c x [] h k = (h, tt)
  All-insert_by P c x (y ∷ ys) h k =
      elim (c x y)
        as (λ o. All P (elim o [
          | Ordering.gt ↦ y ∷ insert_by c x ys
          | Ordering.eq ↦ x ∷ y ∷ ys
          | Ordering.lt ↦ x ∷ y ∷ ys
        ])) [
          | Ordering.gt ↦ (k.0, All-insert_by P c x ys h k.1)
          | Ordering.eq ↦ (h, k)
          | Ordering.lt ↦ (h, k)
        ]

  pub All-sort_by {κ} :
      (P : A → Type κ) (c : A → A → Ordering) (xs : List A) → All P xs → All P (sort_by c xs)
  unfolding sort_by
  All-sort_by P c [] h = tt
  All-sort_by P c (x ∷ xs) h = All-insert_by P c x (sort_by c xs) h.0 (All-sort_by P c xs h.1)

-- A sort of images by what they are images of.
module _ {ℓ κ} {A : Type ℓ} {B : Type κ} (g : A → B) (c : B → B → Ordering) where
  insert_by-map :
      (x : A) (xs : List A)
      → insert_by c (g x) (map g xs) ≡ map g (insert_by (λ a b. c (g a) (g b)) x xs)
  unfolding insert_by
  insert_by-map x [] = refl
  insert_by-map x (y ∷ ys) = ground (arith, insert_by-map x ys)

  pub sort_by-map : (xs : List A) → sort_by c (map g xs) ≡ map g (sort_by (λ a b. c (g a) (g b)) xs)
  unfolding sort_by
  sort_by-map [] = refl
  sort_by-map (x ∷ xs) =
      ap (insert_by c (g x)) (sort_by-map xs) ∙ insert_by-map x (sort_by (λ a b. c (g a) (g b)) xs)

module _ {ℓ} {K : Type ℓ} ⦃o : Ord K⦄ where
  abbrev pub sort : List K → List K
  sort xs = sort_by o.cmp xs

  pub insert_comm :
      (a b : K) (l : List K)
      → insert_by o.cmp a (insert_by o.cmp b l) ≡ insert_by o.cmp b (insert_by o.cmp a l)
  unfolding insert_by
  insert_comm a b [] = ground (arith, o.flip_gt a b, o.flip_lt a b, o.cmp_iff a b, o.cmp_iff b a)
  insert_comm a b (x ∷ l) = ground (
    arith,
    insert_comm a b l,
    o.flip_gt a b,
    o.flip_lt a b,
    o.cmp_iff a b,
    o.cmp_iff b a,
    o.flip_gt a x,
    o.flip_lt a x,
    o.cmp_iff a x,
    o.flip_gt b x,
    o.flip_lt b x,
    o.cmp_iff b x,
    o.lt_trans a b x,
    o.lt_trans b a x,
    o.lt_trans a x b,
    o.lt_trans b x a,
    o.lt_trans x a b,
    o.lt_trans x b a,
  )

  -- Where an element stands does not matter to a sort.
  pub sort_middle :
      (xs : List K) (a : K) (ys : List K)
      → sort (xs ++ a ∷ ys) ≡ insert_by o.cmp a (sort (xs ++ ys))
  unfolding sort_by
  sort_middle [] a ys = refl
  sort_middle (x ∷ xs) a ys =
      ap (insert_by o.cmp x) (sort_middle xs a ys) ∙ insert_comm x a (sort (xs ++ ys))

  -- `dedup`: an element equal to the one before it goes.
  unfoldable pub dedup_after : K → List K → List K
  dedup_after a [] = []
  dedup_after a (x ∷ xs) = let rest = dedup_after x xs in if same a x then rest else x ∷ rest

  unfoldable pub dedup : List K → List K
  unfolding dedup_after
  dedup [] = []
  dedup (x ∷ xs) = x ∷ dedup_after x xs

abbrev pub from : ℕ → ℕ → List ℕ
from a zero = []
from a (suc k) = a ∷ from (suc a) k

-- `0..n`
abbrev pub upto : ℕ → List ℕ
upto n = from 0 n

pub insert-from : (a k : ℕ) → insert_by nat_ord.cmp (a + k) (from a k) ≡ from a (suc k)
unfolding insert_by
insert-from a zero = ground arith
insert-from a (suc k) = ground (arith, insert-from (suc a) k)

pub sort-from : (a k : ℕ) → sort (from a k) ≡ from a k
unfolding sort_by insert_by
sort-from a zero = refl
sort-from a (suc zero) = refl
sort-from a (suc (suc k)) = ground (arith, sort-from (suc a) (suc k))
