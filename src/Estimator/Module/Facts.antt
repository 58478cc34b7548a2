-- ===== src/Estimator/Module/Facts.antt =====
-- soroban-budget/src/module.rs: `HostImport`, `FunctionFacts`, `Module` and its queries.
use soroban_fuzzer.Prelude.{
  ℕ, ◌+◌, ◌-◌, String, Option, none, List, ltb, if◌then◌else◌, length, get_elem?,
}
use soroban_fuzzer.Prelude.Text.{◌<>◌}

pub record HostImport : Type 0 where
  pub index : ℕ
  pub module_name : String
  pub name : String

unfoldable pub full_name : HostImport → String
full_name i = i.module_name <> "." <> i.name

pub record FunctionFacts : Type 0 where
  pub instructions : ℕ
  pub calls : List ℕ
  pub host_calls : List ℕ
  pub indirect_calls : ℕ
  pub loops : ℕ
  pub branches : ℕ

pub record Module : Type 0 where
  pub path : String
  pub bytes : ℕ
  pub imports : List HostImport
  pub functions : List FunctionFacts
  pub exports : List (String × ℕ)
  pub other_exports : List String

abbrev pub defined_base : Module → ℕ
defined_base m = length m.imports

abbrev pub function_count : Module → ℕ
function_count m = length m.imports + length m.functions

-- `checked_sub` gives nothing below the base.
unfoldable pub function : Module → ℕ → Option FunctionFacts
function m index =
    if ltb index (defined_base m) then none else get_elem? m.functions (index - defined_base m)

unfoldable pub host_import : Module → ℕ → Option HostImport
host_import m index = get_elem? m.imports index
