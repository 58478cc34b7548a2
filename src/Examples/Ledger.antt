-- ===== src/Examples/Ledger.antt =====
-- Two states of a ledger: a balance changes, an instance value appears and a temporary entry goes.
use Prim.Native.String.{len}
use package.text.Mathlib.Text.{is_char_boundary}
use soroban_fuzzer.Prelude.{◌+◌, ◌≤◌, ◌↔◌, ◌≡◌, refl, min, true, none, some, List, [], ◌∷◌, length}
use soroban_fuzzer.Prelude.Order.{nat_ord, pair_ord}
use soroban_fuzzer.Prelude.BTree.{insert, get}
use soroban_fuzzer.Fuzzer.Storage.Xdr.{
  u64, symbol, bytes, bare_instance, contract_instance, ledger_key_contract_instance, empty, pair,
  persistent, temporary, contract_data, other_key, contract_entry, other_entry, Stored,
}
use soroban_fuzzer.Fuzzer.Storage.Render.{render, write_scval, last_boundary, len-render}
use soroban_fuzzer.Fuzzer.Storage.Snapshot.{
  StoreKind, persistent_store, EntryKey, EntryMap, Snapshot, capture_filtered, entries,
}
use soroban_fuzzer.Fuzzer.Storage.Diff.{
  diff_kind, diff, is_empty, writes, delta_writes, delta_is_empty, max_reported_keys,
}
use soroban_fuzzer.Fuzzer.Storage.Accounting.{diff_kind_accounting}
use soroban_fuzzer.Fuzzer.Storage.Unchanged.{value_at, is_empty-diff_kind}
use soroban_fuzzer.Fuzzer.Storage.Captured.{capture-IsSorted, diff_is_empty_iff}
use soroban_fuzzer.Examples.Order.{numbers, Val, tree_cmp, to_tree, val_ord}

abbrev before_action : List (Stored numbers)
before_action =
    (
      contract_data persistent,
      some (contract_entry (record { contract = 7; key = symbol 1; val = u64 100 }), none),
    )
    ∷ (
      contract_data persistent,
      some (
        contract_entry
            (record { contract = 7; key = ledger_key_contract_instance; val = bare_instance 1 }),
        none,
      ),
    )
    ∷ (
      contract_data temporary,
      some (contract_entry (record { contract = 8; key = symbol 2; val = u64 1 }), none),
    )
    ∷ (other_key, some (other_entry, none))
    ∷ []

abbrev after_action : List (Stored numbers)
after_action =
    (
      contract_data persistent,
      some (contract_entry (record { contract = 7; key = symbol 1; val = u64 90 }), none),
    )
    ∷ (
      contract_data persistent,
      some (
        contract_entry (record {
          contract = 7;
          key = ledger_key_contract_instance;
          val = contract_instance 1 (pair (symbol 3) (u64 5) empty);
        }),
        none,
      ),
    )
    ∷ []

abbrev old : Snapshot numbers
old = capture_filtered numbers (some before_action) none

abbrev new : Snapshot numbers
new = capture_filtered numbers (some after_action) none

three_writes : delta_writes (diff numbers old new) ≡ 3
unfolding diff delta_writes capture_filtered insert get tree_cmp to_tree
three_writes = refl

abbrev holding : Val → List (Stored numbers)
holding v =
    (
      contract_data persistent,
      some (contract_entry (record { contract = 7; key = symbol 1; val = v }), none),
    )
    ∷ []

-- Byte strings of one length are told apart, and so are instances of different executables.
same_length_differs :
    delta_writes (
      diff numbers
        (capture_filtered numbers (some (holding (bytes (1 ∷ 2 ∷ [])))) none)
        (capture_filtered numbers (some (holding (bytes (1 ∷ 3 ∷ [])))) none))
    ≡ 1
unfolding diff delta_writes capture_filtered insert get tree_cmp to_tree
same_length_differs = refl

executable_differs :
    delta_writes (
      diff numbers
        (capture_filtered numbers (some (holding (bare_instance 1))) none)
        (capture_filtered numbers (some (holding (bare_instance 2))) none))
    ≡ 1
unfolding diff delta_writes capture_filtered insert get tree_cmp to_tree
executable_differs = refl

diff_is_empty_iff_example : (delta_is_empty (diff numbers old new) ≡ true) ↔ (
    (kind : StoreKind) (k : EntryKey numbers)
    → value_at numbers k (entries numbers kind old) ≡ value_at numbers k (entries numbers kind new))
diff_is_empty_iff_example = diff_is_empty_iff numbers (some before_action) (some after_action) none

abbrev balances : Snapshot numbers → EntryMap numbers
balances s = entries numbers persistent_store s

is_empty-diff_kind_example : (is_empty (diff_kind numbers (balances old) (balances new)) ≡ true) ↔ (
    (k : EntryKey numbers) → value_at numbers k (balances old) ≡ value_at numbers k (balances new))
is_empty-diff_kind_example =
    is_empty-diff_kind numbers (balances old) (balances new)
      (capture-IsSorted numbers (some before_action) none persistent_store)
      (capture-IsSorted numbers (some after_action) none persistent_store)

diff_kind_accounting_example :
    (length (balances old) + (diff_kind numbers (balances old) (balances new)).added
      ≡ length (balances new) + (diff_kind numbers (balances old) (balances new)).removed)
    × (length (diff_kind numbers (balances old) (balances new)).changed_keys
        ≡ min max_reported_keys (writes (diff_kind numbers (balances old) (balances new))))
diff_kind_accounting_example =
    diff_kind_accounting numbers (balances old) (balances new)
      (capture-IsSorted numbers (some before_action) none persistent_store)
      (capture-IsSorted numbers (some after_action) none persistent_store)

len-render_example :
    (len (render numbers (symbol 12345)) ≤ 99)
    × (is_char_boundary
          (write_scval numbers "" (symbol 12345))
          (last_boundary (write_scval numbers "" (symbol 12345)) 96)
        ≡ true)
len-render_example = len-render numbers (symbol 12345)
