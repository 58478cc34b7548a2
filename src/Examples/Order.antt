-- ===== src/Examples/Order.antt =====
-- An order of ledger values, by which the theorems over any order of them are run: a value is
-- written as a binary tree of numbers, and trees are compared from the root.
use Prim.Native.Nat.{Ordering, compare}
use soroban_fuzzer.Prelude.{
  ℕ, ◌≡◌, ◌↔◌, refl, List, [], ◌∷◌, true, false, arith, sym, ◌∙◌, ap, ◌==◌, if◌then◌else◌,
}
use soroban_fuzzer.Prelude.Order.{Ord, nat_ord, nat_cmp_iff}
use soroban_fuzzer.Prelude.Text.{show_nat}
use soroban_fuzzer.Fuzzer.Storage.Xdr.{
  Xdr, ScVal, ScVec, ScMap, bool, void, u32, i32, u64, i64, u128, i128, u256, i256, timepoint,
  duration, bytes, text, symbol, no_vec, no_map, vec, map, address, ledger_key_contract_instance,
  bare_instance, contract_instance, other, end, item, empty, pair,
}

pub data Tree : Type 0 where
  leaf : Tree
  node : ℕ → Tree → Tree → Tree

unfoldable pub after : Ordering → Ordering → Ordering
after Ordering.lt d = Ordering.lt
after Ordering.eq d = d
after Ordering.gt d = Ordering.gt

unfoldable pub tree_cmp : Tree → Tree → Ordering
unfolding after
tree_cmp leaf leaf = Ordering.eq
tree_cmp leaf (node n a b) = Ordering.lt
tree_cmp (node n a b) leaf = Ordering.gt
tree_cmp (node n a b) (node m c d) = after (compare n m) (after (tree_cmp a c) (tree_cmp b d))

tree_cmp_iff : (s t : Tree) → (tree_cmp s t ≡ Ordering.eq) ↔ (s ≡ t)
unfolding tree_cmp after
tree_cmp_iff leaf leaf = (λ h. refl, λ h. refl)
tree_cmp_iff leaf (node n a b) = (λ h. cc, λ h. cc)
tree_cmp_iff (node n a b) leaf = (λ h. cc, λ h. cc)
tree_cmp_iff (node n a b) (node m c d) =
    ground (arith, nat_cmp_iff n m, tree_cmp_iff a c, tree_cmp_iff b d)

pub tree_flip_gt : (s t : Tree) → tree_cmp s t ≡ Ordering.gt → tree_cmp t s ≡ Ordering.lt
unfolding tree_cmp after
tree_flip_gt leaf leaf h = cc
tree_flip_gt leaf (node n a b) h = cc
tree_flip_gt (node n a b) leaf h = refl
tree_flip_gt (node n a b) (node m c d) h =
    ground (arith, tree_flip_gt a c, tree_flip_gt b d, tree_cmp_iff a c, tree_cmp_iff c a)

pub tree_flip_lt : (s t : Tree) → tree_cmp s t ≡ Ordering.lt → tree_cmp t s ≡ Ordering.gt
unfolding tree_cmp after
tree_flip_lt leaf leaf h = cc
tree_flip_lt leaf (node n a b) h = refl
tree_flip_lt (node n a b) leaf h = cc
tree_flip_lt (node n a b) (node m c d) h =
    ground (arith, tree_flip_lt a c, tree_flip_lt b d, tree_cmp_iff a c, tree_cmp_iff c a)

pub tree_lt_trans :
    (s t u : Tree)
    → tree_cmp s t ≡ Ordering.lt
    → tree_cmp t u ≡ Ordering.lt
    → tree_cmp s u ≡ Ordering.lt
unfolding tree_cmp after
tree_lt_trans leaf leaf u h k = k
tree_lt_trans (node n a b) leaf u h k = cc
tree_lt_trans s (node m c d) leaf h k = cc
tree_lt_trans leaf (node m c d) (node p e f) h k = refl
tree_lt_trans (node n a b) (node m c d) (node p e f) h k = ground (
  arith,
  tree_lt_trans a c e,
  tree_lt_trans b d f,
  tree_cmp_iff a c,
  tree_cmp_iff c e,
  tree_cmp_iff a e,
)

-- Addresses, scalars, texts, executables and whatever else is printed are numbers here.
abbrev pub numbers : Xdr
numbers = record {
  Address = ℕ;
  show_address = show_nat;
  Scalar = ℕ;
  show_scalar = show_nat;
  Text = ℕ;
  show_text = show_nat;
  Executable = ℕ;
  Other = ℕ;
  show_other = show_nat;
}

abbrev pub Val : Type 0
Val = ScVal numbers

abbrev pub num : ℕ → Tree
num n = node n leaf leaf

pub bytes_tree : List ℕ → Tree
bytes_tree [] = leaf
bytes_tree (b ∷ bs) = node b leaf (bytes_tree bs)

unfoldable mutual
  unfolding bytes_tree

  pub to_tree : Val → Tree
  to_tree (bool false) = node 0 leaf leaf
  to_tree (bool true) = node 0 leaf (num 1)
  to_tree void = node 1 leaf leaf
  to_tree (u32 n) = node 2 leaf (num n)
  to_tree (i32 n) = node 3 leaf (num n)
  to_tree (u64 n) = node 4 leaf (num n)
  to_tree (i64 n) = node 5 leaf (num n)
  to_tree (u128 n) = node 6 leaf (num n)
  to_tree (i128 n) = node 7 leaf (num n)
  to_tree (u256 n) = node 8 leaf (num n)
  to_tree (i256 n) = node 9 leaf (num n)
  to_tree (timepoint n) = node 10 leaf (num n)
  to_tree (duration n) = node 11 leaf (num n)
  to_tree (bytes bs) = node 12 leaf (bytes_tree bs)
  to_tree (text n) = node 13 leaf (num n)
  to_tree (symbol n) = node 14 leaf (num n)
  to_tree no_vec = node 15 leaf leaf
  to_tree no_map = node 16 leaf leaf
  to_tree (vec items) = node 17 leaf (vec_tree items)
  to_tree (map entries) = node 18 leaf (map_tree entries)
  to_tree (address a) = node 19 leaf (num a)
  to_tree ledger_key_contract_instance = node 20 leaf leaf
  to_tree (bare_instance code) = node 21 leaf (num code)
  to_tree (contract_instance code m) = node 22 (num code) (map_tree m)
  to_tree (other n) = node 23 leaf (num n)

  pub vec_tree : ScVec numbers → Tree
  vec_tree end = leaf
  vec_tree (item v vs) = node 0 (to_tree v) (vec_tree vs)

  pub map_tree : ScMap numbers → Tree
  map_tree empty = leaf
  map_tree (pair k v m) = node 0 (node 0 (to_tree k) (to_tree v)) (map_tree m)

-- The value with a tag, and a number, an executable, bytes, a sequence or a map.
value_of : ℕ → ℕ → ℕ → List ℕ → ScVec numbers → ScMap numbers → Val
value_of t n code bs vs m =
    if t == 0
    then (if n == 0 then bool false else bool true)
    else if t == 1
    then void
    else if t == 2
    then u32 n
    else if t == 3
    then i32 n
    else if t == 4
    then u64 n
    else if t == 5
    then i64 n
    else if t == 6
    then u128 n
    else if t == 7
    then i128 n
    else if t == 8
    then u256 n
    else if t == 9
    then i256 n
    else if t == 10
    then timepoint n
    else if t == 11
    then duration n
    else if t == 12
    then bytes bs
    else if t == 13
    then text n
    else if t == 14
    then symbol n
    else if t == 15
    then no_vec
    else if t == 16
    then no_map
    else if t == 17
    then vec vs
    else if t == 18
    then map m
    else if t == 19
    then address n
    else if t == 20
    then ledger_key_contract_instance
    else if t == 21
    then bare_instance n
    else if t == 22
    then contract_instance code m
    else other n

label : Tree → ℕ
label leaf = 0
label (node n a b) = n

tree_bytes : Tree → List ℕ
tree_bytes leaf = []
tree_bytes (node b l bs) = b ∷ tree_bytes bs

bytes_from-to : (bs : List ℕ) → tree_bytes (bytes_tree bs) ≡ bs
unfolding tree_bytes bytes_tree
bytes_from-to [] = refl
bytes_from-to (b ∷ bs) = ap (λ (cs : List ℕ). b ∷ cs) (bytes_from-to bs)

mutual
  unfolding value_of label tree_bytes

  from_tree : Tree → Val
  from_tree leaf = void
  from_tree (node t a b) = value_of t (label b) (label a) (tree_bytes b) (tree_vec b) (tree_map b)

  tree_vec : Tree → ScVec numbers
  tree_vec leaf = end
  tree_vec (node t a b) = item (from_tree a) (tree_vec b)

  tree_map : Tree → ScMap numbers
  tree_map leaf = empty
  tree_map (node t leaf b) = empty
  tree_map (node t (node u k v) b) = pair (from_tree k) (from_tree v) (tree_map b)

mutual
  unfolding from_tree tree_vec tree_map to_tree vec_tree map_tree value_of label tree_bytes
      bytes_tree

  from-to : (v : Val) → from_tree (to_tree v) ≡ v
  from-to (bool false) = refl
  from-to (bool true) = refl
  from-to void = refl
  from-to (u32 n) = refl
  from-to (i32 n) = refl
  from-to (u64 n) = refl
  from-to (i64 n) = refl
  from-to (u128 n) = refl
  from-to (i128 n) = refl
  from-to (u256 n) = refl
  from-to (i256 n) = refl
  from-to (timepoint n) = refl
  from-to (duration n) = refl
  from-to (bytes bs) = ap bytes (bytes_from-to bs)
  from-to (text n) = refl
  from-to (symbol n) = refl
  from-to no_vec = refl
  from-to no_map = refl
  from-to (vec vs) = ap vec (vec_from-to vs)
  from-to (map m) = ap map (map_from-to m)
  from-to (address n) = refl
  from-to ledger_key_contract_instance = refl
  from-to (bare_instance code) = refl
  from-to (contract_instance code m) =
      ap (λ (w : ScMap numbers). contract_instance code w) (map_from-to m)
  from-to (other n) = refl

  vec_from-to : (vs : ScVec numbers) → tree_vec (vec_tree vs) ≡ vs
  vec_from-to end = refl
  vec_from-to (item v vs) = rw (from-to v, vec_from-to vs) refl

  map_from-to : (m : ScMap numbers) → tree_map (map_tree m) ≡ m
  map_from-to empty = refl
  map_from-to (pair k v m) = rw (from-to k, from-to v, map_from-to m) refl

to_tree_inj : (v w : Val) → to_tree v ≡ to_tree w → v ≡ w
to_tree_inj v w h = sym (from-to v) ∙ (ap from_tree h ∙ from-to w)

pub val_cmp_iff : (v w : Val) → (tree_cmp (to_tree v) (to_tree w) ≡ Ordering.eq) ↔ (v ≡ w)
val_cmp_iff v w = (
  λ h. to_tree_inj v w ((tree_cmp_iff (to_tree v) (to_tree w)).0 h),
  λ e. (tree_cmp_iff (to_tree v) (to_tree w)).1 (ap to_tree e),
)

instance abbrev pub val_ord : Ord (ScVal numbers)
val_ord = record {
  cmp = λ v w. tree_cmp (to_tree v) (to_tree w);
  cmp_iff = val_cmp_iff;
  flip_gt = λ v w. tree_flip_gt (to_tree v) (to_tree w);
  flip_lt = λ v w. tree_flip_lt (to_tree v) (to_tree w);
  lt_trans = λ u v w. tree_lt_trans (to_tree u) (to_tree v) (to_tree w);
}
