-- ===== src/Prelude/Order.antt =====
-- `std::cmp::Ord`: the strict total order that ordered maps and sets are keyed by.
use Prim.Native.Nat.{ℕ, compare, Ordering}
use Prim.Native.Char.{Char, code}
use Prim.Native.String.{String, compare as compare_text, then}
use Prim.Native.String.compare as cmp_text
use mathlib.Core.Path.{◌≡◌, refl}
use mathlib.Core.Logic.{◌↔◌, ◌⊎◌, inl, inr}
use mathlib.Core.Bool.{Bool, true, false}
use native.Mathlib.Omega.{arith}
use text.Mathlib.TextEquality.{path_by_compare}
use text.Mathlib.TextPositions.{compare_refl}

pub record Ord {ℓ} (K : Type ℓ) : Type ℓ where
  pub cmp : K → K → Ordering
  pub cmp_iff : (a b : K) → (cmp a b ≡ Ordering.eq) ↔ (a ≡ b)
  pub flip_gt : (a b : K) → cmp a b ≡ Ordering.gt → cmp b a ≡ Ordering.lt
  pub flip_lt : (a b : K) → cmp a b ≡ Ordering.lt → cmp b a ≡ Ordering.gt
  pub lt_trans : (a b c : K) → cmp a b ≡ Ordering.lt → cmp b c ≡ Ordering.lt → cmp a c ≡ Ordering.lt

-- `a == b`, read off the comparison.
abbrev pub same {ℓ} : {K : Type ℓ} ⦃o : Ord K⦄ → K → K → Bool
same ⦃o⦄ a b = elim (o.cmp a b) [ Ordering.eq ↦ true | _ ↦ false ]

pub nat_cmp_iff : (a b : ℕ) → (compare a b ≡ Ordering.eq) ↔ (a ≡ b)
nat_cmp_iff a b = ground arith

pub nat_flip_gt : (a b : ℕ) → compare a b ≡ Ordering.gt → compare b a ≡ Ordering.lt
nat_flip_gt a b h = ground arith

pub nat_flip_lt : (a b : ℕ) → compare a b ≡ Ordering.lt → compare b a ≡ Ordering.gt
nat_flip_lt a b h = ground arith

pub nat_lt_trans :
    (a b c : ℕ) → compare a b ≡ Ordering.lt → compare b c ≡ Ordering.lt → compare a c ≡ Ordering.lt
nat_lt_trans a b c h k = ground arith

instance abbrev pub nat_ord : Ord ℕ
nat_ord = record {
  cmp = compare;
  cmp_iff = nat_cmp_iff;
  flip_gt = nat_flip_gt;
  flip_lt = nat_flip_lt;
  lt_trans = nat_lt_trans;
}

-- An order by a number that tells the values apart, as a derived order on an enumeration is.
abbrev pub by_rank {ℓ} :
    {K : Type ℓ} (rank : K → ℕ)
    → ((a b : K) → (compare (rank a) (rank b) ≡ Ordering.eq) ↔ (a ≡ b))
    → Ord K
by_rank rank iff = record {
  cmp = λ a b. compare (rank a) (rank b);
  cmp_iff = iff;
  flip_gt = λ a b. nat_flip_gt (rank a) (rank b);
  flip_lt = λ a b. nat_flip_lt (rank a) (rank b);
  lt_trans = λ a b c. nat_lt_trans (rank a) (rank b) (rank c);
}

cons_cmp :
    (c d : Char) (s t : String)
    → compare_text (String.◌∷◌ c s) (String.◌∷◌ d t)
      ≡ then (compare (code c) (code d)) (compare_text s t)
cons_cmp c d s t = cmp_text.cons-cons c d s t

pub text_cmp_of_eq : (s t : String) → s ≡ t → compare_text s t ≡ Ordering.eq
text_cmp_of_eq s t e = rw e (compare_refl t)

pub text_cmp_iff : (s t : String) → (compare_text s t ≡ Ordering.eq) ↔ (s ≡ t)
text_cmp_iff s t = (path_by_compare s t, text_cmp_of_eq s t)

pub text_flip_gt : (s t : String) → compare_text s t ≡ Ordering.gt → compare_text t s ≡ Ordering.lt
text_flip_gt String.[] String.[] h = ground arith
text_flip_gt String.[] (String.◌∷◌ d t) h = ground (arith, cmp_text.nil-cons d t)
text_flip_gt (String.◌∷◌ c s) String.[] h = ground (arith, cmp_text.nil-cons c s)
text_flip_gt (String.◌∷◌ c s) (String.◌∷◌ d t) h =
    ground (arith, cons_cmp c d s t, cons_cmp d c t s, text_flip_gt s t)

pub text_flip_lt : (s t : String) → compare_text s t ≡ Ordering.lt → compare_text t s ≡ Ordering.gt
text_flip_lt String.[] String.[] h = ground arith
text_flip_lt String.[] (String.◌∷◌ d t) h = ground (arith, cmp_text.cons-nil d t)
text_flip_lt (String.◌∷◌ c s) String.[] h = ground (arith, cmp_text.cons-nil c s)
text_flip_lt (String.◌∷◌ c s) (String.◌∷◌ d t) h =
    ground (arith, cons_cmp c d s t, cons_cmp d c t s, text_flip_lt s t)

pub text_lt_trans :
    (s t u : String)
    → compare_text s t ≡ Ordering.lt
    → compare_text t u ≡ Ordering.lt
    → compare_text s u ≡ Ordering.lt
text_lt_trans String.[] String.[] u h k = k
text_lt_trans (String.◌∷◌ c s) String.[] u h k = ground (arith, cmp_text.cons-nil c s)
text_lt_trans s (String.◌∷◌ d t) String.[] h k = ground (arith, cmp_text.cons-nil d t)
text_lt_trans String.[] (String.◌∷◌ d t) (String.◌∷◌ e u) h k = cmp_text.nil-cons e u
text_lt_trans (String.◌∷◌ c s) (String.◌∷◌ d t) (String.◌∷◌ e u) h k =
    ground (arith, cons_cmp c d s t, cons_cmp d e t u, cons_cmp c e s u, text_lt_trans s t u)

instance abbrev pub string_ord : Ord String
string_ord = record {
  cmp = compare_text;
  cmp_iff = text_cmp_iff;
  flip_gt = text_flip_gt;
  flip_lt = text_flip_lt;
  lt_trans = text_lt_trans;
}

Ordering-cases : (c : Ordering) → (c ≡ Ordering.lt) ⊎ ((c ≡ Ordering.eq) ⊎ (c ≡ Ordering.gt))
Ordering-cases Ordering.lt = inl refl
Ordering-cases Ordering.eq = inr (inl refl)
Ordering-cases Ordering.gt = inr (inr refl)

module _ {ℓ} {K : Type ℓ} ⦃o : Ord K⦄ where
  pub same_iff : (a b : K) → (same a b ≡ true) ↔ (a ≡ b)
  same_iff a b = (λ h. (o.cmp_iff a b).0 (ground arith), λ h. ground (arith, (o.cmp_iff a b).1 h))

  -- To split on a comparison and keep what it says.
  pub cmp-cases : (a b : K) → (o.cmp a b ≡ Ordering.lt) ⊎ ((a ≡ b) ⊎ (o.cmp b a ≡ Ordering.lt))
  cmp-cases a b = elim (Ordering-cases (o.cmp a b)) [
    | inl e ↦ inl e
    | inr (inl e) ↦ inr (inl ((o.cmp_iff a b).0 e))
    | inr (inr e) ↦ inr (inr (o.flip_gt a b e))
  ]

  pub cmp_refl : (a : K) → o.cmp a a ≡ Ordering.eq
  cmp_refl a = (o.cmp_iff a a).1 refl

  pub same_refl : (a : K) → same a a ≡ true
  same_refl a = (same_iff a a).1 refl

-- Pairs in lexicographic order.
module _ {ℓ κ} {A : Type ℓ} {B : Type κ} ⦃a : Ord A⦄ ⦃b : Ord B⦄ where
  abbrev pub pair_cmp : A × B → A × B → Ordering
  pair_cmp p q = elim (a.cmp p.0 q.0) [
    | Ordering.lt ↦ Ordering.lt
    | Ordering.eq ↦ b.cmp p.1 q.1
    | Ordering.gt ↦ Ordering.gt
  ]

  pub pair_cmp_iff : (p q : A × B) → (pair_cmp p q ≡ Ordering.eq) ↔ (p ≡ q)
  pair_cmp_iff p q = ground (arith, a.cmp_iff p.0 q.0, b.cmp_iff p.1 q.1)

  pub pair_flip_gt : (p q : A × B) → pair_cmp p q ≡ Ordering.gt → pair_cmp q p ≡ Ordering.lt
  pair_flip_gt p q h =
      ground (arith, a.flip_gt p.0 q.0, a.cmp_iff p.0 q.0, a.cmp_iff q.0 p.0, b.flip_gt p.1 q.1)

  pub pair_flip_lt : (p q : A × B) → pair_cmp p q ≡ Ordering.lt → pair_cmp q p ≡ Ordering.gt
  pair_flip_lt p q h =
      ground (arith, a.flip_lt p.0 q.0, a.cmp_iff p.0 q.0, a.cmp_iff q.0 p.0, b.flip_lt p.1 q.1)

  pub pair_lt_trans :
      (p q r : A × B)
      → pair_cmp p q ≡ Ordering.lt
      → pair_cmp q r ≡ Ordering.lt
      → pair_cmp p r ≡ Ordering.lt
  pair_lt_trans p q r h k = ground (
    arith,
    a.lt_trans p.0 q.0 r.0,
    a.cmp_iff p.0 q.0,
    a.cmp_iff q.0 r.0,
    a.cmp_iff p.0 r.0,
    b.lt_trans p.1 q.1 r.1,
  )

  instance abbrev pub pair_ord : Ord (A × B)
  pair_ord = record {
    cmp = pair_cmp;
    cmp_iff = pair_cmp_iff;
    flip_gt = pair_flip_gt;
    flip_lt = pair_flip_lt;
    lt_trans = pair_lt_trans;
  }
