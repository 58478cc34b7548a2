-- ===== src/Estimator/Module/Shape.antt =====
-- The modules that `Module::parse` of soroban-budget/src/module.rs accepts.
use soroban_fuzzer.Prelude.{
  ℕ, ◌+◌, ◌≤◌, ◌<◌, ◌≡◌, refl, String, false, none, List, [], ◌∷◌, ◌++◌, not, map, arith, ltb, ◌==◌,
  length, keep, All, Bool-cases, inl, inr, Option-cases,
}
use soroban_fuzzer.Estimator.Module.Facts.{
  HostImport, FunctionFacts, Module, function_count, defined_base,
}
use soroban_fuzzer.Estimator.Module.Parse.{
  Result, ok, err, ◌>>=◌, Import, Payload, import_section, function_section, export_section,
  code_section_entry, other_payload, at_path, read_body, Sections, no_sections, add_import,
  add_function, add_export, each_item, read_payload, read_payloads, split_calls, accepted,
  dangling_export, finish, parse,
}
use soroban_fuzzer.Prelude.{subst}
use soroban_fuzzer.Prelude.{◌&&◌}

-- The imports take the indices from `n` on, in order.
abbrev pub Indexed : ℕ → List HostImport → Type 0
Indexed n [] = Unit
Indexed n (i ∷ is) = (i.index ≡ n) × Indexed (n + 1) is

abbrev pub Below : ℕ → List ℕ → Type 0
Below b = All (λ i. i < b)

abbrev pub AtLeast : ℕ → List ℕ → Type 0
AtLeast b = All (λ i. b ≤ i)

pub record IsWellFormed (m : Module) : Type 0 where
  pub imports_indexed : Indexed 0 m.imports
  pub exports_defined : All (λ e. e.1 < function_count m) m.exports
  pub calls_split :
      All (λ f. Below (defined_base m) f.host_calls × AtLeast (defined_base m) f.calls) m.functions

Indexed-append :
    (n : ℕ) (is : List HostImport) (i : HostImport)
    → Indexed n is
    → i.index ≡ n + length is
    → Indexed n (is ++ i ∷ [])
Indexed-append n [] i h e = (omega arith, tt)
Indexed-append n (j ∷ is) i h e = (h.0, Indexed-append (n + 1) is i h.1 (omega arith))

add_import-Indexed :
    (s : Sections) (i : Import) → Indexed 0 s.imports → Indexed 0 (add_import s i).imports
unfolding add_import
add_import-Indexed s i h = ground (
  arith,
  Indexed-append 0 s.imports
      (record { index = length s.imports; module_name = i.from_module; name = i.field_name }) h
      (omega arith),
)

ok_injective : {A : Type 0} (a b : A) → ok a ≡ ok b → a ≡ b
ok_injective a b e = cc

each_item_inv :
    {A : Type 0} (P : Sections → Type 0) (path : String) (step : Sections → A → Sections)
    → ((s : Sections) (a : A) → P s → P (step s a))
    → (items : List (Result A)) (s t : Sections) → each_item path step s items ≡ ok t
    → P s
    → P t
unfolding each_item at_path
each_item_inv P path step keeps [] s t e h = subst P (ok_injective s t e) h
each_item_inv P path step keeps (ok a ∷ items) s t e h =
    each_item_inv P path step keeps items (step s a) t e (keeps s a h)
each_item_inv P path step keeps (err m ∷ items) s t e h = cc

-- What a chain that ended well went through.
bind-eq-ok :
    {V W : Type 0} (r : Result V) (next : V → Result W) {w : W}
    → (r >>= next) ≡ ok w
    → (v : V) × (r ≡ ok v) × (next v ≡ ok w)
bind-eq-ok (err message) next e = cc
bind-eq-ok (ok v) next e = (v, refl, e)

read_payload-Indexed :
    (path : String) (p : Payload) (s t : Sections)
    → read_payload path s p ≡ ok t
    → Indexed 0 s.imports
    → Indexed 0 t.imports
unfolding read_payload
read_payload-Indexed path (import_section items) s t e h =
    each_item_inv (λ u. Indexed 0 u.imports) path add_import add_import-Indexed items s t e h
read_payload-Indexed path (function_section items) s t e h =
    each_item_inv (λ u. Indexed 0 u.imports) path add_function (λ u a k. unfold add_function in k)
      items s t e h
read_payload-Indexed path (export_section items) s t e h =
    each_item_inv (λ u. Indexed 0 u.imports) path add_export
      (λ u a k. unfold add_export in ground (arith, k)) items s t e h
read_payload-Indexed path (code_section_entry reader) s t e h =
    let (f, _, e') = bind-eq-ok (read_body path reader) _ e in
    subst (λ (u : Sections). Indexed 0 u.imports) (ok_injective _ t e') h
read_payload-Indexed path other_payload s t e h =
    subst (λ (u : Sections). Indexed 0 u.imports) (ok_injective s t e) h

read_payloads-Indexed :
    (path : String) (ps : List (Result Payload)) (s t : Sections)
    → read_payloads path s ps ≡ ok t
    → Indexed 0 s.imports
    → Indexed 0 t.imports
unfolding read_payloads at_path
read_payloads-Indexed path [] s t e h =
    subst (λ (u : Sections). Indexed 0 u.imports) (ok_injective s t e) h
read_payloads-Indexed path (ok p ∷ ps) s t e h =
    let (u, e1, e2) = bind-eq-ok (read_payload path s p) (λ s'. read_payloads path s' ps) e in
    read_payloads-Indexed path ps u t e2 (read_payload-Indexed path p s u e1 h)
read_payloads-Indexed path (err m ∷ ps) s t e h = cc

keep-Below : (b : ℕ) (is : List ℕ) → Below b (keep (λ i. ltb i b) is)
keep-Below b [] = tt
keep-Below b (i ∷ is) = ground (arith, keep-Below b is)

keep-AtLeast : (b : ℕ) (is : List ℕ) → AtLeast b (keep (λ i. not (ltb i b)) is)
keep-AtLeast b [] = tt
keep-AtLeast b (i ∷ is) = ground (arith, keep-AtLeast b is)

split-All :
    (b : ℕ) (fs : List FunctionFacts)
    → All (λ f. Below b f.host_calls × AtLeast b f.calls) (map (split_calls b) fs)
unfolding split_calls
split-All b [] = tt
split-All b (f ∷ fs) = ((keep-Below b f.calls, keep-AtLeast b f.calls), split-All b fs)

no_dangling : (n : ℕ) (es : List (String × ℕ)) → dangling_export n es ≡ none → All (λ e. e.1 < n) es
unfolding dangling_export
no_dangling n [] h = tt
no_dangling n ((name, i) ∷ es) h = ground (arith, no_dangling n es)

length-map : {A B : Type 0} (f : A → B) (xs : List A) → length (map f xs) ≡ length xs
length-map f [] = refl
length-map f (x ∷ xs) = omega (arith, length-map f xs)

accepted-IsWellFormed :
    (path : String) (size : ℕ) (s : Sections)
    → not (length s.bodies == length s.functions_by_type) ≡ false
    → dangling_export (length s.imports + length s.bodies) s.exports ≡ none
    → Indexed 0 s.imports
    → IsWellFormed (accepted path size s)
      × (length (accepted path size s).functions ≡ length s.functions_by_type)
unfolding accepted
accepted-IsWellFormed path size s c d h =
    let n = length-map (split_calls (length s.imports)) s.bodies in
    (
      record {
        imports_indexed = h;
        exports_defined = rw n (no_dangling (length s.imports + length s.bodies) s.exports d);
        calls_split = split-All (length s.imports) s.bodies;
      },
      ground (arith, n, c),
    )

finish-IsWellFormed :
    (path : String) (size : ℕ) (s : Sections) (m : Module)
    → finish path size s ≡ ok m
    → Indexed 0 s.imports
    → IsWellFormed m × (length m.functions ≡ length s.functions_by_type)
unfolding finish
finish-IsWellFormed path size s m e h =
    elim (Bool-cases (length s.bodies == 0 && length s.functions_by_type == 0)) [
      | inl b ↦ let e' = rw b at e in cc
      | inr b ↦
          let e1 = rw b at e in
          elim (Bool-cases (not (length s.bodies == length s.functions_by_type))) [
            | inl c ↦ let e' = rw c at e1 in cc
            | inr c ↦
                let e2 = rw c at e1 in
                elim (Option-cases
                  (dangling_export (length s.imports + length s.bodies) s.exports)) [
                    | inl d ↦
                        subst
                          (λ (n : Module).
                            IsWellFormed n × (length n.functions ≡ length s.functions_by_type))
                          (ok_injective _ m (rw d at e2)) (accepted-IsWellFormed path size s c d h)
                    | inr (x, d) ↦ let e' = rw d at e2 in cc
                  ]
          ]
    ]

-- Every module that `parse` accepts: the imports carry their own positions, every exported function
-- is one of the index space, and in every body the host calls are import indices and the remaining
-- calls are not.
pub parse-IsWellFormed :
    (path : String) (size : ℕ) (payloads : List (Result Payload)) (m : Module)
    → parse path size payloads ≡ ok m
    → IsWellFormed m
unfolding parse
parse-IsWellFormed path size payloads m e =
    let (s, e1, e2) =
      bind-eq-ok (read_payloads path no_sections payloads) (λ t. finish path size t) e in
    (finish-IsWellFormed path size s m e2
      (read_payloads-Indexed path payloads no_sections s e1 tt)).0
