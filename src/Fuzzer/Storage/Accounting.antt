-- ===== src/Fuzzer/Storage/Accounting.antt =====
-- The counts and the reported keys of `diff_kind` in soroban-fuzzer/src/storage.rs.
use soroban_fuzzer.Prelude.{
  ℕ, ◌+◌, ◌≡◌, refl, none, [], ◌∷◌, foldl, min, arith, if◌then◌else◌, length, length-append, ◌∙◌,
  ap, foldl_inv, sym, subst, inl, inr, String,
}
use soroban_fuzzer.Prelude.Order.{Ord, pair_ord, cmp-cases, cmp_refl}
use soroban_fuzzer.Prelude.BTree.{BTreeMap, get, contains_key}
use soroban_fuzzer.Prelude.Sorted.{Above, Above-trans, IsSorted}
use soroban_fuzzer.Fuzzer.Storage.Xdr.{Xdr, ScVal}
use soroban_fuzzer.Fuzzer.Storage.Snapshot.{Entry, EntryKey, EntryMap}
use soroban_fuzzer.Fuzzer.Storage.Diff.{
  ChangeSet, max_reported_keys, no_change, writes, push_key, note_after, note_before, diff_kind,
}

module _ {ℓ κ} {K : Type ℓ} {V : Type κ} ⦃o : Ord K⦄ where
  -- How many keys of the first map are in the second.
  abbrev pub common : BTreeMap K V → BTreeMap K V → ℕ
  common [] n = 0
  common ((k, w) ∷ m) n = (if contains_key k n then 1 else 0) + common m n

  -- A key below all others is not in the map, and adding it changes nothing for the rest.
  get-Above : (k : K) (m : BTreeMap K V) → Above k m → get k m ≡ none
  unfolding get
  get-Above k [] a = refl
  get-Above k ((j, w) ∷ m) a = ground arith

  common-below :
      (k : K) (w : V) (m n : BTreeMap K V) → Above k m → common m ((k, w) ∷ n) ≡ common m n
  unfolding get
  common-below k w [] n a = refl
  common-below k w ((j, u) ∷ m) n a = ground (arith, common-below k w m n, o.flip_lt k j)

  common-nil : (m : BTreeMap K V) → common m [] ≡ 0
  unfolding get
  common-nil [] = refl
  common-nil ((k, w) ∷ m) = omega (arith, common-nil m)

  -- A key that the second map lacks is not counted; one at its head is.
  common-miss :
      (k : K) (w : V) (m n : BTreeMap K V) → Above k n → common ((k, w) ∷ m) n ≡ common m n
  common-miss k w m n a = ground (arith, get-Above k n a)

  common-hit :
      (k : K) (w u : V) (m n : BTreeMap K V)
      → Above k m
      → common ((k, w) ∷ m) ((k, u) ∷ n) ≡ common m n + 1
  unfolding get
  common-hit k w u m n a = ground (arith, cmp_refl k, common-below k u m n a)

  common_head :
      (k : K) (w u : V) (m n : BTreeMap K V)
      → Above k m
      → common m n ≡ common n m
      → Above k n
      → common ((k, w) ∷ m) ((k, u) ∷ n) ≡ common ((k, u) ∷ n) ((k, w) ∷ m)
  common_head k w u m n a h b =
      common-hit k w u m n a ∙ ap (λ (c : ℕ). c + 1) h ∙ sym (common-hit k u w n m b)

  pub common_comm : (m n : BTreeMap K V) → IsSorted m → IsSorted n → common m n ≡ common n m
  common_comm [] n s t = sym (common-nil n)
  common_comm ((k, w) ∷ m) [] s t = common-nil ((k, w) ∷ m)
  common_comm ((k, w) ∷ m) ((j, u) ∷ n) s t = elim (cmp-cases k j) [
    | inl lt ↦
        let a : Above k ((j, u) ∷ n) = (lt, Above-trans k j n lt t.0) in
        common-miss k w m ((j, u) ∷ n) a
        ∙ common_comm m ((j, u) ∷ n) s.1 t
        ∙ sym (common-below k w ((j, u) ∷ n) m a)
    | inr (inl e) ↦
        subst (λ i. Above i n → common ((k, w) ∷ m) ((i, u) ∷ n) ≡ common ((i, u) ∷ n) ((k, w) ∷ m))
          e (common_head k w u m n s.0 (common_comm m n s.1 t.1)) t.0
    | inr (inr gt) ↦
        let a : Above j ((k, w) ∷ m) = (gt, Above-trans j k m gt s.0) in
        common-below j u ((k, w) ∷ m) n a
        ∙ common_comm ((k, w) ∷ m) n s t.1
        ∙ sym (common-miss j u n ((k, w) ∷ m) a)
  ]

-- What `push_key` keeps.
pub push_key-counts :
    (c : ChangeSet) (label : String)
    → ((push_key c label).added ≡ c.added)
      × ((push_key c label).removed ≡ c.removed)
      × ((push_key c label).updated ≡ c.updated)
unfolding push_key
push_key-counts c label = ground arith

-- The keys reported are as many as the writes, up to the limit.
KeysCounted : ChangeSet → Type 0
KeysCounted c = length c.changed_keys ≡ min max_reported_keys (writes c)

push_key-KeysCounted :
    (c d : ChangeSet) (label : String)
    → KeysCounted c
    → writes d ≡ writes c + 1
    → d.changed_keys ≡ c.changed_keys
    → KeysCounted (push_key d label)
unfolding KeysCounted push_key writes
push_key-KeysCounted c d label h e k = ground (arith, length-append d.changed_keys (label ∷ []))

module _ (x : Xdr) ⦃a : Ord x.Address⦄ ⦃v : Ord (ScVal x)⦄ where
  note_after-added :
      (before : EntryMap x) (c : ChangeSet) (key : EntryKey x) (e : Entry x)
      → ((note_after x before c (key, e)).added + (if contains_key key before then 1 else 0)
          ≡ c.added + 1)
        × ((note_after x before c (key, e)).removed ≡ c.removed)
  unfolding note_after
  note_after-added before c key e = ground (
    arith,
    push_key-counts (record c { added = c.added + 1 }) e.label,
    push_key-counts (record c { updated = c.updated + 1 }) e.label,
  )

  note_before-removed :
      (after : EntryMap x) (c : ChangeSet) (key : EntryKey x) (e : Entry x)
      → ((note_before x after c (key, e)).removed + (if contains_key key after then 1 else 0)
          ≡ c.removed + 1)
        × ((note_before x after c (key, e)).added ≡ c.added)
  unfolding note_before
  note_before-removed after c key e =
      ground (arith, push_key-counts (record c { removed = c.removed + 1 }) e.label)

  after_loop :
      (before m : EntryMap x) (c : ChangeSet)
      → ((foldl (note_after x before) c m).added + common m before ≡ c.added + length m)
        × ((foldl (note_after x before) c m).removed ≡ c.removed)
  after_loop before [] c = (omega arith, refl)
  after_loop before ((key, e) ∷ m) c =
      omega (
        arith,
        after_loop before m (note_after x before c (key, e)),
        note_after-added before c key e,
      )

  before_loop :
      (after m : EntryMap x) (c : ChangeSet)
      → ((foldl (note_before x after) c m).removed + common m after ≡ c.removed + length m)
        × ((foldl (note_before x after) c m).added ≡ c.added)
  before_loop after [] c = (omega arith, refl)
  before_loop after ((key, e) ∷ m) c = omega (
    arith,
    before_loop after m (note_before x after c (key, e)),
    note_before-removed after c key e,
  )

  note_after-KeysCounted :
      (before : EntryMap x) (c : ChangeSet) (p : EntryKey x × Entry x)
      → KeysCounted c
      → KeysCounted (note_after x before c p)
  unfolding note_after writes
  note_after-KeysCounted before c (key, e) h = ground (
    arith,
    push_key-KeysCounted c (record c { added = c.added + 1 }) e.label h (omega arith) refl,
    push_key-KeysCounted c (record c { updated = c.updated + 1 }) e.label h (omega arith) refl,
  )

  note_before-KeysCounted :
      (after : EntryMap x) (c : ChangeSet) (p : EntryKey x × Entry x)
      → KeysCounted c
      → KeysCounted (note_before x after c p)
  unfolding note_before writes
  note_before-KeysCounted after c (key, e) h = ground (
    arith,
    push_key-KeysCounted c (record c { removed = c.removed + 1 }) e.label h (omega arith) refl,
  )

  diff_kind-KeysCounted : (before after : EntryMap x) → KeysCounted (diff_kind x before after)
  unfolding diff_kind writes
  diff_kind-KeysCounted before after =
      foldl_inv KeysCounted (note_before x after) (note_before-KeysCounted after) before _ (
        foldl_inv KeysCounted (note_after x before) (note_after-KeysCounted before) after no_change
          (unfold KeysCounted in refl))

  -- For two maps in key order the changes account for the sizes: the entries before, with those that
  -- appeared, are as many as the entries after, with those that disappeared. And the keys that are
  -- reported are exactly as many as the writes, or `MAX_REPORTED_KEYS` if there are more.
  pub diff_kind_accounting :
      (before after : EntryMap x)
      → IsSorted before
      → IsSorted after
      → (length before + (diff_kind x before after).added
          ≡ length after + (diff_kind x before after).removed)
        × (length (diff_kind x before after).changed_keys
            ≡ min max_reported_keys (writes (diff_kind x before after)))
  unfolding diff_kind
  diff_kind_accounting before after s t = (
    omega (
      arith,
      after_loop before after no_change,
      before_loop after before (foldl (note_after x before) no_change after),
      common_comm before after s t,
    ),
    unfold KeysCounted in diff_kind-KeysCounted before after,
  )
