-- ===== src/Estimator/Module/Parse.antt =====
-- soroban-budget/src/module.rs: `Module::parse` and `read_body`, over the payloads that the
-- third-party parser yields. A payload or an item of it that the parser refuses carries the
-- parser's own text.
use soroban_fuzzer.Prelude.{
  ℕ, ◌+◌, String, Bool, Option, none, some, List, [], ◌∷◌, ◌++◌, ◌&&◌, not, ltb, leb, ◌==◌,
  if◌then◌else◌, length, keep, map,
}
use soroban_fuzzer.Prelude.Text.{◌<>◌, show_nat}
use soroban_fuzzer.Estimator.Module.Facts.{HostImport, FunctionFacts, Module}

-- `Result<T, WasmError>`; an error is its message.
pub data Result {ℓ} (Value : Type ℓ) : Type ℓ where
  err : (message : String) → Result Value
  ok : (value : Value) → Result Value

-- The question mark operator.
module _ {ℓ κ} {V : Type ℓ} {W : Type κ} where
  infixl 5 ◌>>=◌
  abbrev pub ◌>>=◌ : Result V → (V → Result W) → Result W
  r >>= next = elim r [ err message ↦ err message | ok value ↦ next value ]

-- The operators that `read_body` tells apart.
pub data Operator : Type 0 where
  end_block : Operator
  call : ℕ → Operator
  call_indirect : Operator
  loop_block : Operator
  br br_if br_table : Operator
  other : Operator

-- One import: its module, its name, and whether it is a function.
pub record Import : Type 0 where
  pub from_module : String
  pub field_name : String
  pub is_func : Bool

pub record Export : Type 0 where
  pub export_name : String
  pub is_func : Bool
  pub target : ℕ

-- What the parser yields, each part with the parser's refusals in it.
pub data Payload : Type 0 where
  import_section : List (Result Import) → Payload
  function_section : List (Result ℕ) → Payload
  export_section : List (Result Export) → Payload
  -- the operators of one body, or why its reader could not be made
  code_section_entry : Result (List (Result Operator)) → Payload
  other_payload : Payload

-- `map_err(|error| WasmError(format!("{path}: {error}")))?`
unfoldable pub at_path {ℓ} : {A : Type ℓ} → String → Result A → Result A
at_path path (ok a) = ok a
at_path path (err e) = err (path <> ": " <> e)

abbrev pub no_facts : FunctionFacts
no_facts = record {
  instructions = 0;
  calls = [];
  host_calls = [];
  indirect_calls = 0;
  loops = 0;
  branches = 0;
}

-- The body of the loop of `read_body`: an `end` is skipped, anything else is counted.
unfoldable pub count_operator : FunctionFacts → Operator → FunctionFacts
count_operator f end_block = f
count_operator f (call i) = record f {
  calls = f.calls ++ i ∷ [];
  instructions = f.instructions + 1;
}
count_operator f call_indirect = record f {
  indirect_calls = f.indirect_calls + 1;
  instructions = f.instructions + 1;
}
count_operator f loop_block = record f { loops = f.loops + 1; instructions = f.instructions + 1 }
count_operator f br = record f { branches = f.branches + 1; instructions = f.instructions + 1 }
count_operator f br_if = record f { branches = f.branches + 1; instructions = f.instructions + 1 }
count_operator f br_table = record f {
  branches = f.branches + 1;
  instructions = f.instructions + 1;
}
count_operator f other = record f { instructions = f.instructions + 1 }

unfoldable pub read_operators :
    String → FunctionFacts → List (Result Operator) → Result FunctionFacts
unfolding at_path count_operator
read_operators path f [] = ok f
read_operators path f (ok op ∷ ops) = read_operators path (count_operator f op) ops
read_operators path f (err e ∷ ops) = at_path path (err e)

unfoldable pub read_body : String → Result (List (Result Operator)) → Result FunctionFacts
unfolding read_operators
read_body path reader = do ops ← at_path path reader; read_operators path no_facts ops

-- The local variables of `Module::parse`.
pub record Sections : Type 0 where
  pub imports : List HostImport
  pub functions_by_type : List ℕ
  pub bodies : List FunctionFacts
  pub exports : List (String × ℕ)
  pub other_exports : List String

abbrev pub no_sections : Sections
no_sections = record {
  imports = [];
  functions_by_type = [];
  bodies = [];
  exports = [];
  other_exports = [];
}

-- Only a function import takes an index.
unfoldable pub add_import : Sections → Import → Sections
add_import s i =
    if i.is_func
    then (record s {
      imports =
          s.imports
          ++ record { index = length s.imports; module_name = i.from_module; name = i.field_name }
            ∷ [];
    })
    else s

unfoldable pub add_function : Sections → ℕ → Sections
add_function s type_index = record s { functions_by_type = s.functions_by_type ++ type_index ∷ [] }

unfoldable pub add_export : Sections → Export → Sections
add_export s e =
    if e.is_func
    then (record s { exports = s.exports ++ (e.export_name, e.target) ∷ [] })
    else (record s { other_exports = s.other_exports ++ e.export_name ∷ [] })

-- `for item in reader { let item = item.map_err(..)?; .. }`
unfoldable pub each_item {ℓ} :
    {A : Type ℓ} → String → (Sections → A → Sections) → Sections → List (Result A) → Result Sections
unfolding at_path
each_item path step s [] = ok s
each_item path step s (ok a ∷ items) = each_item path step (step s a) items
each_item path step s (err e ∷ items) = at_path path (err e)

unfoldable pub read_payload : String → Sections → Payload → Result Sections
unfolding each_item add_import add_function add_export read_body
read_payload path s (import_section items) = each_item path add_import s items
read_payload path s (function_section items) = each_item path add_function s items
read_payload path s (export_section items) = each_item path add_export s items
read_payload path s (code_section_entry reader) = do
  facts ← read_body path reader
  ok (record s { bodies = s.bodies ++ facts ∷ [] })
read_payload path s other_payload = ok s

unfoldable pub read_payloads : String → Sections → List (Result Payload) → Result Sections
unfolding read_payload at_path
read_payloads path s [] = ok s
read_payloads path s (ok p ∷ ps) = do s' ← read_payload path s p; read_payloads path s' ps
read_payloads path s (err e ∷ ps) = at_path path (err e)

-- `facts.calls.drain(..).partition(|index| *index < base)`
unfoldable pub split_calls : ℕ → FunctionFacts → FunctionFacts
split_calls base f = record f {
  host_calls = keep (λ i. ltb i base) f.calls;
  calls = keep (λ i. not (ltb i base)) f.calls;
}

-- The first export whose index nobody defines.
unfoldable pub dangling_export : ℕ → List (String × ℕ) → Option (String × ℕ)
dangling_export count [] = none
dangling_export count ((name, index) ∷ es) =
    let rest = dangling_export count es in if leb count index then some (name, index) else rest

-- The module that is returned: each body's call sites are split into calls of functions defined
-- here and calls of the host.
unfoldable pub accepted : String → ℕ → Sections → Module
unfolding split_calls
accepted path size s = record {
  path = path;
  bytes = size;
  imports = s.imports;
  functions = map (split_calls (length s.imports)) s.bodies;
  exports = s.exports;
  other_exports = s.other_exports;
}

-- What follows the payload loop: the two refusals and the check of the exports.
unfoldable pub finish : String → ℕ → Sections → Result Module
unfolding accepted dangling_export
finish path size s =
    if length s.bodies == 0 && length s.functions_by_type == 0
    then err (
        path <> ": no function bodies and no function declarations, so this is not a "
        <> "compiled contract (a module with neither is usually a stub)")
    else if not (length s.bodies == length s.functions_by_type)
    then err (
        path
        <> ": the function section declares "
        <> show_nat (length s.functions_by_type)
        <> " functions and the code section holds "
        <> show_nat (length s.bodies)
        <> ", which cannot both be true")
    else elim (dangling_export (length s.imports + length s.bodies) s.exports) [
      | some (name, index) ↦ err (
          path
          <> ": export `"
          <> name
          <> "` names function "
          <> show_nat index
          <> ", and the module defines "
          <> show_nat (length s.imports + length s.bodies))
      | none ↦ ok (accepted path size s)
    ]

-- `Module::parse`, over the payloads of `size` bytes.
unfoldable pub parse : String → ℕ → List (Result Payload) → Result Module
unfolding read_payloads finish
parse path size payloads = do s ← read_payloads path no_sections payloads; finish path size s
