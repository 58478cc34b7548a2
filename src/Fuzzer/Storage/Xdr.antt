-- ===== src/Fuzzer/Storage/Xdr.antt =====
-- The ledger types of the third-party crates soroban-sdk and soroban-env-host, as far as
-- soroban-fuzzer/src/storage.rs takes them apart. What it only compares or prints is a parameter.
use soroban_fuzzer.Prelude.{ℕ, String, Bool, Option, List}

pub data Durability : Type 0 where
  persistent temporary : Durability

pub data LedgerKey : Type 0 where
  contract_data : Durability → LedgerKey
  other_key : LedgerKey

-- The parts of an `ScVal` that the program prints by their own `Display` or `Debug`.
pub record Xdr : Type 1 where
  pub Address : Type 0
  pub show_address : Address → String
  -- a number, a time or a duration
  pub Scalar : Type 0
  pub show_scalar : Scalar → String
  -- the text of a string or a symbol
  pub Text : Type 0
  pub show_text : Text → String
  -- the code that a contract instance runs: it is compared, and never printed
  pub Executable : Type 0
  -- any other value
  pub Other : Type 0
  pub show_other : Other → String

module _ (x : Xdr) where
  -- `ScVal`
  mutual
    pub data ScVal : Type 0 where
      bool : Bool → ScVal
      void : ScVal
      u32 i32 u64 i64 u128 i128 u256 i256 timepoint duration : x.Scalar → ScVal
      bytes : List ℕ → ScVal
      text symbol : x.Text → ScVal
      no_vec no_map : ScVal
      vec : ScVec → ScVal
      map : ScMap → ScVal
      address : x.Address → ScVal
      ledger_key_contract_instance : ScVal
      -- an instance without and with instance storage
      bare_instance : x.Executable → ScVal
      contract_instance : x.Executable → ScMap → ScVal
      other : x.Other → ScVal

    pub data ScVec : Type 0 where
      end : ScVec
      item : ScVal → ScVec → ScVec

    pub data ScMap : Type 0 where
      empty : ScMap
      pair : ScVal → ScVal → ScMap → ScMap

  pub record ContractData : Type 0 where
    pub contract : x.Address
    pub key : ScVal
    pub val : ScVal

  pub data LedgerEntryData : Type 0 where
    contract_entry : ContractData → LedgerEntryData
    other_entry : LedgerEntryData

  -- One of the host's stored entries: its key, and its value with the ledger it lives until.
  abbrev pub Stored : Type 0
  Stored = LedgerKey × Option (LedgerEntryData × Option ℕ)
