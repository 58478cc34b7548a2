-- ===== src/Fuzzer/Storage/Diff.antt =====
-- soroban-fuzzer/src/storage.rs: `ChangeSet`, `StorageDelta` and `diff_kind`.
use soroban_fuzzer.Prelude.{
  ℕ, ◌+◌, String, Bool, none, some, List, [], ◌∷◌, ◌++◌, foldl, ltb, ◌==◌, if◌then◌else◌, length,
}
use soroban_fuzzer.Prelude.Order.{Ord, same, pair_ord}
use soroban_fuzzer.Prelude.BTree.{get, contains_key}
use soroban_fuzzer.Prelude.Text.{◌<>◌, show_nat, join}
use soroban_fuzzer.Fuzzer.Storage.Xdr.{Xdr, ScVal}
use soroban_fuzzer.Fuzzer.Storage.Snapshot.{
  StoreKind, instance_store, persistent_store, temporary_store, all_kinds, kind_text, Entry,
  EntryKey, EntryMap, Snapshot, entries,
}

pub record ChangeSet : Type 0 where
  pub added : ℕ
  pub removed : ℕ
  pub updated : ℕ
  pub changed_keys : List String

abbrev pub max_reported_keys : ℕ
max_reported_keys = 12

abbrev pub no_change : ChangeSet
no_change = record { added = 0; removed = 0; updated = 0; changed_keys = [] }

unfoldable pub writes : ChangeSet → ℕ
writes c = c.added + c.removed + c.updated

unfoldable pub is_empty : ChangeSet → Bool
unfolding writes
is_empty c = writes c == 0

unfoldable pub push_key : ChangeSet → String → ChangeSet
push_key c label =
    if ltb (length c.changed_keys) max_reported_keys
    then (record c { changed_keys = c.changed_keys ++ label ∷ [] })
    else c

pub record StorageDelta : Type 0 where
  pub in_instance : ChangeSet
  pub in_persistent : ChangeSet
  pub in_temporary : ChangeSet

unfoldable pub delta_writes : StorageDelta → ℕ
unfolding writes
delta_writes d = writes d.in_instance + writes d.in_persistent + writes d.in_temporary

unfoldable pub delta_is_empty : StorageDelta → Bool
unfolding delta_writes
delta_is_empty d = delta_writes d == 0

unfoldable pub delta_of : StoreKind → StorageDelta → ChangeSet
delta_of instance_store d = d.in_instance
delta_of persistent_store d = d.in_persistent
delta_of temporary_store d = d.in_temporary

-- `{n} added`, if there are any
count_part : ℕ → String → List String
count_part n what = if ltb 0 n then (show_nat n <> what) ∷ [] else []

-- One durability's part of the summary; nothing for one that did not change.
unfoldable pub kind_part : StorageDelta → StoreKind → List String
unfolding is_empty delta_of count_part show_nat join kind_text
kind_part d kind =
    let set = delta_of kind d in
    let parts =
      count_part set.added " added"
      ++ (count_part set.removed " removed" ++ count_part set.updated " updated") in
    let keys =
      if length set.changed_keys == 0 then "" else " [" <> join ", " set.changed_keys <> "]" in
    if is_empty set then [] else (kind_text kind <> ": " <> join ", " parts <> keys) ∷ []

unfoldable pub summary : StorageDelta → String
unfolding kind_part join
summary d =
    let parts = foldl (λ (out : List String) kind. out ++ kind_part d kind) [] all_kinds in
    if length parts == 0 then "no storage writes" else join "; " parts

module _ (x : Xdr) ⦃a : Ord x.Address⦄ ⦃v : Ord (ScVal x)⦄ where
  -- The two loops of `diff_kind`.
  unfoldable pub note_after : EntryMap x → ChangeSet → EntryKey x × Entry x → ChangeSet
  unfolding push_key get
  note_after before c (key, entry) = elim (get key before) [
    | none ↦ push_key (record c { added = c.added + 1 }) entry.label
    | some old ↦
        if same old.value entry.value
        then c
        else push_key (record c { updated = c.updated + 1 }) entry.label
  ]

  unfoldable pub note_before : EntryMap x → ChangeSet → EntryKey x × Entry x → ChangeSet
  unfolding push_key get
  note_before after c (key, entry) =
      if contains_key key after
      then c
      else push_key (record c { removed = c.removed + 1 }) entry.label

  unfoldable pub diff_kind : EntryMap x → EntryMap x → ChangeSet
  unfolding note_after note_before
  diff_kind before after =
      foldl (note_before after) (foldl (note_after before) no_change after) before

  unfoldable pub diff : Snapshot x → Snapshot x → StorageDelta
  unfolding diff_kind entries
  diff before after = record {
    in_instance = diff_kind (entries x instance_store before) (entries x instance_store after);
    in_persistent =
        diff_kind (entries x persistent_store before) (entries x persistent_store after);
    in_temporary = diff_kind (entries x temporary_store before) (entries x temporary_store after);
  }
