-- ===== src/Prelude/ListOrder.antt =====
-- Lists in lexicographic order, the order of the components of a `Path`.
use Prim.Native.Nat.{Ordering}
use mathlib.Core.Path.{◌≡◌, refl, subst}
use mathlib.Core.Logic.{◌↔◌}
use mathlib.Core.List.{List, [], ◌∷◌}
use native.Mathlib.Omega.{arith}
use soroban_fuzzer.Prelude.Order.{Ord}

module _ {ℓ} {K : Type ℓ} ⦃o : Ord K⦄ where
  abbrev pub list_cmp : List K → List K → Ordering
  list_cmp [] [] = Ordering.eq
  list_cmp [] (b ∷ ys) = Ordering.lt
  list_cmp (a ∷ xs) [] = Ordering.gt
  list_cmp (a ∷ xs) (b ∷ ys) =
      let rest = list_cmp xs ys in
      elim (o.cmp a b) [
        | Ordering.lt ↦ Ordering.lt
        | Ordering.eq ↦ rest
        | Ordering.gt ↦ Ordering.gt
      ]

  pub list_cmp_refl : (xs : List K) → list_cmp xs xs ≡ Ordering.eq
  list_cmp_refl [] = refl
  list_cmp_refl (a ∷ xs) = ground (arith, (o.cmp_iff a a).1 refl, list_cmp_refl xs)

  pub list_cmp_eq : (xs ys : List K) → list_cmp xs ys ≡ Ordering.eq → xs ≡ ys
  list_cmp_eq [] [] h = refl
  list_cmp_eq [] (b ∷ ys) h = absurd (cc)
  list_cmp_eq (a ∷ xs) [] h = absurd (cc)
  list_cmp_eq (a ∷ xs) (b ∷ ys) h =
      let heads = (o.cmp_iff a b).0 (ground arith) in
      let tails = list_cmp_eq xs ys (ground arith) in λ i. heads i ∷ tails i

  pub list_cmp_iff : (xs ys : List K) → (list_cmp xs ys ≡ Ordering.eq) ↔ (xs ≡ ys)
  list_cmp_iff xs ys =
      (list_cmp_eq xs ys, λ e. subst (λ zs. list_cmp xs zs ≡ Ordering.eq) e (list_cmp_refl xs))

  pub list_flip_gt : (xs ys : List K) → list_cmp xs ys ≡ Ordering.gt → list_cmp ys xs ≡ Ordering.lt
  list_flip_gt [] [] h = absurd (cc)
  list_flip_gt [] (b ∷ ys) h = absurd (cc)
  list_flip_gt (a ∷ xs) [] h = refl
  list_flip_gt (a ∷ xs) (b ∷ ys) h =
      ground (arith, o.flip_gt a b, o.cmp_iff a b, o.cmp_iff b a, list_flip_gt xs ys)

  pub list_flip_lt : (xs ys : List K) → list_cmp xs ys ≡ Ordering.lt → list_cmp ys xs ≡ Ordering.gt
  list_flip_lt [] [] h = absurd (cc)
  list_flip_lt [] (b ∷ ys) h = refl
  list_flip_lt (a ∷ xs) [] h = absurd (cc)
  list_flip_lt (a ∷ xs) (b ∷ ys) h =
      ground (arith, o.flip_lt a b, o.cmp_iff a b, o.cmp_iff b a, list_flip_lt xs ys)

  pub list_lt_trans :
      (xs ys zs : List K)
      → list_cmp xs ys ≡ Ordering.lt
      → list_cmp ys zs ≡ Ordering.lt
      → list_cmp xs zs ≡ Ordering.lt
  list_lt_trans [] [] zs h k = k
  list_lt_trans [] (b ∷ ys) [] h k = absurd (cc)
  list_lt_trans [] (b ∷ ys) (c ∷ zs) h k = refl
  list_lt_trans (a ∷ xs) [] zs h k = absurd (cc)
  list_lt_trans (a ∷ xs) (b ∷ ys) [] h k = absurd (cc)
  list_lt_trans (a ∷ xs) (b ∷ ys) (c ∷ zs) h k =
      ground (
        arith,
        o.lt_trans a b c,
        o.cmp_iff a b,
        o.cmp_iff b c,
        o.cmp_iff a c,
        list_lt_trans xs ys zs,
      )

  instance abbrev pub list_ord : Ord (List K)
  list_ord = record {
    cmp = list_cmp;
    cmp_iff = list_cmp_iff;
    flip_gt = list_flip_gt;
    flip_lt = list_flip_lt;
    lt_trans = list_lt_trans;
  }
