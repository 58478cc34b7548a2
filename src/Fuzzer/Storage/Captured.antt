-- ===== src/Fuzzer/Storage/Captured.antt =====
-- The order of the entries that `StorageSnapshot::capture_filtered` of soroban-
-- fuzzer/src/storage.rs collects.
use soroban_fuzzer.Prelude.{
  ◌≡◌, ◌↔◌, true, Option, none, some, List, [], arith, foldl_inv, if◌then◌else◌, Bool-cases, inl,
  inr,
}
use soroban_fuzzer.Prelude.Order.{Ord, same, pair_ord}
use soroban_fuzzer.Prelude.BTree.{get, get-insert}
use soroban_fuzzer.Prelude.Sorted.{IsSorted, insert-IsSorted}
use soroban_fuzzer.Fuzzer.Storage.Xdr.{
  Xdr, ScVal, ScMap, ledger_key_contract_instance, contract_instance, empty, pair, Durability,
  contract_data, other_key, contract_entry, other_entry, Stored,
}
use soroban_fuzzer.Fuzzer.Storage.Snapshot.{
  StoreKind, instance_store, persistent_store, temporary_store, kind_ord, EntryKey, EntryMap,
  Snapshot, Stores, slot, update_slot, insert_entry, insert_instance, add_instance, add_data,
  store_of, passes, capture_step, capture_filtered, entries,
}
use soroban_fuzzer.Fuzzer.Storage.Diff.{
  StorageDelta, diff_kind, diff, is_empty, delta_writes, delta_is_empty,
}
use soroban_fuzzer.Fuzzer.Storage.Unchanged.{value_at, is_empty-diff_kind}

module _ (x : Xdr) ⦃a : Ord x.Address⦄ ⦃v : Ord (ScVal x)⦄ where
  SlotsSorted : Stores x → Type 0
  SlotsSorted m = (kind : StoreKind) → IsSorted (slot x kind m)

  slot-update_slot :
      (kind j : StoreKind) (f : EntryMap x → EntryMap x) (m : Stores x)
      → slot x kind (update_slot x j f m) ≡ (if same kind j then f (slot x j m) else slot x kind m)
  unfolding slot update_slot
  slot-update_slot kind j f m = ground (arith, get-insert j kind (f (slot x j m)) m)

  update_slot-SlotsSorted :
      (j : StoreKind) (f : EntryMap x → EntryMap x) (m : Stores x)
      → ((s : EntryMap x) → IsSorted s → IsSorted (f s))
      → SlotsSorted m
      → SlotsSorted (update_slot x j f m)
  unfolding SlotsSorted
  update_slot-SlotsSorted j f m keeps h kind = elim (Bool-cases (same kind j)) [
    | inl e ↦ rw (slot-update_slot, e) (keeps (slot x j m) (h j))
    | inr e ↦ rw (slot-update_slot, e) (h kind)
  ]

  insert_entry-IsSorted :
      (c : x.Address) (k w : ScVal x) (s : EntryMap x)
      → IsSorted s
      → IsSorted (insert_entry x c k w s)
  unfolding insert_entry
  insert_entry-IsSorted c k w s h = insert-IsSorted (c, k) _ s h

  insert_instance-IsSorted :
      (c : x.Address) (m : ScMap x) (s : EntryMap x)
      → IsSorted s
      → IsSorted (insert_instance x c m s)
  unfolding insert_instance
  insert_instance-IsSorted c empty s h = h
  insert_instance-IsSorted c (pair k w m) s h =
      insert_instance-IsSorted c m (insert_entry x c k w s) (insert_entry-IsSorted c k w s h)

  add_instance-SlotsSorted :
      (c : x.Address) (w : ScVal x) (m : Stores x)
      → SlotsSorted m
      → SlotsSorted (add_instance x c w m)
  unfolding add_instance
  add_instance-SlotsSorted c (contract_instance code storage) m h =
      update_slot-SlotsSorted instance_store (insert_instance x c storage) m
        (insert_instance-IsSorted c storage) h
  add_instance-SlotsSorted c _ m h = h

  add_data-SlotsSorted :
      (d : Durability) (c : x.Address) (k w : ScVal x) (m : Stores x)
      → SlotsSorted m
      → SlotsSorted (add_data x d c k w m)
  unfolding add_data
  add_data-SlotsSorted d c ledger_key_contract_instance w m h = add_instance-SlotsSorted c w m h
  add_data-SlotsSorted d c k w m h =
      update_slot-SlotsSorted (store_of x d) (insert_entry x c k w) m (insert_entry-IsSorted c k w)
        h

  capture_step-SlotsSorted :
      (filter : Option (List x.Address)) (m : Stores x) (s : Stored x)
      → SlotsSorted m
      → SlotsSorted (capture_step x filter m s)
  unfolding capture_step
  capture_step-SlotsSorted filter m (contract_data d, some (contract_entry c, until)) h =
      elim (Bool-cases (passes x filter c.contract)) [
        | inl e ↦ rw e (add_data-SlotsSorted d c.contract c.key c.val m h)
        | inr e ↦ rw e h
      ]
  capture_step-SlotsSorted filter m (contract_data d, some (other_entry, until)) h = h
  capture_step-SlotsSorted filter m (contract_data d, none) h = h
  capture_step-SlotsSorted filter m (other_key, s) h = h

  nothing_sorted : SlotsSorted []
  unfolding SlotsSorted slot get
  nothing_sorted kind = tt

  -- What is captured is in key order, durability by durability.
  pub capture-IsSorted :
      (stored : Option (List (Stored x))) (filter : Option (List x.Address)) (kind : StoreKind)
      → IsSorted (entries x kind (capture_filtered x stored filter))
  unfolding capture_filtered entries SlotsSorted
  capture-IsSorted none filter kind = nothing_sorted kind
  capture-IsSorted (some stored) filter kind =
      foldl_inv SlotsSorted (capture_step x filter) (capture_step-SlotsSorted filter) stored []
        nothing_sorted kind

  delta_is_empty_iff :
      (d : StorageDelta)
      → (delta_is_empty d ≡ true) ↔ (
          (is_empty d.in_instance ≡ true)
          × (is_empty d.in_persistent ≡ true)
          × (is_empty d.in_temporary ≡ true))
  unfolding delta_is_empty delta_writes is_empty
  delta_is_empty_iff d = (λ h. ground arith, λ h. ground arith)

  -- A property that each durability's diff decides, of all three.
  by_kind :
      (s t : Snapshot x) (Q : StoreKind → Type 0)
      → ((kind : StoreKind)
          → (is_empty (diff_kind x (entries x kind s) (entries x kind t)) ≡ true) ↔ Q kind)
      → (is_empty (diff x s t).in_instance ≡ true)
        × (is_empty (diff x s t).in_persistent ≡ true)
        × (is_empty (diff x s t).in_temporary ≡ true)
      → (kind : StoreKind) → Q kind
  unfolding diff
  by_kind s t Q each h instance_store = (each instance_store).0 h.0
  by_kind s t Q each h persistent_store = (each persistent_store).0 h.1
  by_kind s t Q each h temporary_store = (each temporary_store).0 h.2

  -- The delta between two captures, scoped to any contracts or to none, is empty exactly when both
  -- hold the same values under the same keys in all three durabilities.
  pub diff_is_empty_iff :
      (before after : Option (List (Stored x))) (filter : Option (List x.Address))
      → let s = capture_filtered x before filter in
        let t = capture_filtered x after filter in
        (delta_is_empty (diff x s t) ≡ true) ↔ (
          (kind : StoreKind) (k : EntryKey x)
          → value_at x k (entries x kind s) ≡ value_at x k (entries x kind t))
  unfolding diff
  diff_is_empty_iff before after filter =
      let s = capture_filtered x before filter in
      let t = capture_filtered x after filter in
      let Q = λ (kind : StoreKind).
        (k : EntryKey x) → value_at x k (entries x kind s) ≡ value_at x k (entries x kind t) in
      let each = λ (kind : StoreKind).
        is_empty-diff_kind x (entries x kind s) (entries x kind t)
          (capture-IsSorted before filter kind) (capture-IsSorted after filter kind) in
      let all = delta_is_empty_iff (diff x s t) in
      (
        λ h. by_kind s t Q each (all.0 h),
        λ q. all.1 (
          (each instance_store).1 (q instance_store),
          (each persistent_store).1 (q persistent_store),
          (each temporary_store).1 (q temporary_store),
        ),
      )
