-- ===== src/Fuzzer/Storage/Snapshot.antt =====
-- soroban-fuzzer/src/storage.rs: `StoreKind`, `EntryCounts`, `StorageSnapshot` and its capture.
use Prim.Native.Nat.{Ordering, compare}
use soroban_fuzzer.Prelude.{
  ℕ, ◌+◌, ◌≡◌, ◌↔◌, String, Bool, true, Option, none, some, List, [], ◌∷◌, foldl, arith, ◌==◌,
  if◌then◌else◌, length, keep, any,
}
use soroban_fuzzer.Prelude.Order.{Ord, by_rank, same, pair_ord}
use soroban_fuzzer.Prelude.BTree.{BTreeMap, insert, get}
use soroban_fuzzer.Fuzzer.Storage.Xdr.{
  Xdr, ScVal, ScMap, ledger_key_contract_instance, contract_instance, empty, pair, Durability,
  persistent, temporary, contract_data, other_key, contract_entry, other_entry, Stored,
}
use soroban_fuzzer.Fuzzer.Storage.Render.{render}

pub data StoreKind : Type 0 where
  instance_store persistent_store temporary_store : StoreKind

abbrev pub kind_rank : StoreKind → ℕ
kind_rank instance_store = 0
kind_rank persistent_store = 1
kind_rank temporary_store = 2

pub kind_cmp_iff : (a b : StoreKind) → (compare (kind_rank a) (kind_rank b) ≡ Ordering.eq) ↔ (a ≡ b)
kind_cmp_iff a b = ground arith

instance abbrev pub kind_ord : Ord StoreKind
kind_ord = by_rank kind_rank kind_cmp_iff

-- `StoreKind::ALL`
abbrev pub all_kinds : List StoreKind
all_kinds = instance_store ∷ persistent_store ∷ temporary_store ∷ []

unfoldable pub kind_text : StoreKind → String
kind_text instance_store = "instance"
kind_text persistent_store = "persistent"
kind_text temporary_store = "temporary"

pub record EntryCounts : Type 0 where
  pub in_instance : ℕ
  pub in_persistent : ℕ
  pub in_temporary : ℕ

unfoldable pub total_counts : EntryCounts → ℕ
total_counts c = c.in_instance + c.in_persistent + c.in_temporary

unfoldable pub counts_of : StoreKind → EntryCounts → ℕ
counts_of instance_store c = c.in_instance
counts_of persistent_store c = c.in_persistent
counts_of temporary_store c = c.in_temporary

module _ (x : Xdr) where
  pub record Entry : Type 0 where
    pub value : ScVal x
    pub label : String

  abbrev pub EntryKey : Type 0
  EntryKey = x.Address × ScVal x

  abbrev pub EntryMap : Type 0
  EntryMap = BTreeMap EntryKey Entry

  pub record Snapshot : Type 0 where
    pub stores : BTreeMap StoreKind EntryMap

module _ (x : Xdr) ⦃a : Ord x.Address⦄ ⦃v : Ord (ScVal x)⦄ where
  -- `filter_for`: no contract named means no filter. A set of addresses is only asked for members.
  unfoldable pub filter_for : List x.Address → Option (List x.Address)
  filter_for [] = none
  filter_for (c ∷ cs) = some (c ∷ cs)

  abbrev pub listed : List x.Address → x.Address → Bool
  listed cs c = any (λ d. same c d) cs

  abbrev pub passes : Option (List x.Address) → x.Address → Bool
  passes none c = true
  passes (some cs) c = listed cs c

  -- `entries.entry(kind).or_default()`
  unfoldable pub slot : StoreKind → BTreeMap StoreKind (EntryMap x) → EntryMap x
  unfolding get
  slot kind m = elim (get kind m) [ none ↦ [] | some s ↦ s ]

  -- `slot.insert((contract, key), Entry { value, label: render(&key) })`
  unfoldable pub insert_entry : x.Address → ScVal x → ScVal x → EntryMap x → EntryMap x
  unfolding insert render
  insert_entry contract key val s =
      insert (contract, key) (record { value = val; label = render x key }) s

  unfoldable pub insert_instance : x.Address → ScMap x → EntryMap x → EntryMap x
  unfolding insert_entry
  insert_instance contract empty s = s
  insert_instance contract (pair k w m) s = insert_instance contract m (insert_entry contract k w s)

  abbrev pub store_of : Durability → StoreKind
  store_of persistent = persistent_store
  store_of temporary = temporary_store

  abbrev pub Stores : Type 0
  Stores = BTreeMap StoreKind (EntryMap x)

  -- `entries.entry(kind).or_default()`, changed by `f`
  unfoldable pub update_slot : StoreKind → (EntryMap x → EntryMap x) → Stores → Stores
  unfolding slot insert
  update_slot kind f m = insert kind (f (slot kind m)) m

  -- The value under an instance key: only an instance with storage has entries.
  unfoldable pub add_instance : x.Address → ScVal x → Stores → Stores
  unfolding update_slot insert_instance
  add_instance contract (contract_instance code storage) m =
      update_slot instance_store (insert_instance contract storage) m
  add_instance contract _ m = m

  -- The two arms of `match &data.key`.
  unfoldable pub add_data : Durability → x.Address → ScVal x → ScVal x → Stores → Stores
  unfolding add_instance update_slot insert_entry
  add_data d contract ledger_key_contract_instance val m = add_instance contract val m
  add_data d contract key val m = update_slot (store_of d) (insert_entry contract key val) m

  -- The body of the loop over the stored entries.
  unfoldable pub capture_step : Option (List x.Address) → Stores → Stored x → Stores
  unfolding add_data
  capture_step filter m (contract_data d, some (contract_entry c, live_until)) =
      if passes filter c.contract then add_data d c.contract c.key c.val m else m
  capture_step filter m (contract_data d, some (other_entry, live_until)) = m
  capture_step filter m (contract_data d, none) = m
  capture_step filter m (other_key, stored) = m

  -- `stored` is `none` where the host cannot list its entries.
  unfoldable pub capture_filtered : Option (List (Stored x)) → Option (List x.Address) → Snapshot x
  unfolding capture_step
  capture_filtered none filter = record { stores = [] }
  capture_filtered (some stored) filter = record { stores = foldl (capture_step filter) [] stored }

  unfoldable pub capture : Option (List (Stored x)) → Snapshot x
  unfolding capture_filtered
  capture stored = capture_filtered stored none

  unfoldable pub capture_scoped : Option (List (Stored x)) → List x.Address → Snapshot x
  unfolding capture_filtered filter_for
  capture_scoped stored contracts = capture_filtered stored (filter_for contracts)

  unfoldable pub entries : StoreKind → Snapshot x → EntryMap x
  unfolding slot
  entries kind s = slot kind s.stores

  unfoldable pub keep_owned : List x.Address → EntryMap x → EntryMap x
  keep_owned cs m = keep (λ e. listed cs e.0.0) m

  -- The kinds whose filtered map is not empty.
  unfoldable pub scope_stores : List x.Address → Stores → Stores → Stores
  unfolding keep_owned insert
  scope_stores cs [] out = out
  scope_stores cs ((kind, m) ∷ rest) out =
      scope_stores cs rest
        (if length (keep_owned cs m) == 0 then out else insert kind (keep_owned cs m) out)

  unfoldable pub scoped : List x.Address → Snapshot x → Snapshot x
  unfolding scope_stores filter_for
  scoped contracts s = elim (filter_for contracts) [
    | none ↦ s
    | some cs ↦ record { stores = scope_stores cs s.stores [] }
  ]

  unfoldable pub counts : Snapshot x → EntryCounts
  unfolding entries
  counts s = record {
    in_instance = length (entries instance_store s);
    in_persistent = length (entries persistent_store s);
    in_temporary = length (entries temporary_store s);
  }

  unfoldable pub total_entries : Snapshot x → ℕ
  unfolding counts total_counts
  total_entries s = total_counts (counts s)

  unfoldable pub count_for : EntryMap x → x.Address → ℕ
  count_for m contract = length (keep (λ e. same e.0.0 contract) m)

  unfoldable pub counts_for : x.Address → Snapshot x → EntryCounts
  unfolding entries count_for
  counts_for contract s = record {
    in_instance = count_for (entries instance_store s) contract;
    in_persistent = count_for (entries persistent_store s) contract;
    in_temporary = count_for (entries temporary_store s) contract;
  }
