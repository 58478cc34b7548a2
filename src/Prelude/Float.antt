-- ===== src/Prelude/Float.antt =====
-- `f64`, with the operations that the program uses. No law of them is assumed.
use Prim.Native.Nat.{ℕ}
use Prim.Native.String.{String}
use mathlib.Core.Bool.{Bool}
use soroban_fuzzer.Prelude.Int.{ℤ}

pub record Float : Type 1 where
  pub F64 : Type 0
  pub of_int : ℤ → F64
  pub of_nat : ℕ → F64
  pub div : F64 → F64 → F64
  pub mul : F64 → F64 → F64
  pub infinity : F64
  pub le : F64 → F64 → Bool
  -- `{:.0}`
  pub show_rounded : F64 → String
