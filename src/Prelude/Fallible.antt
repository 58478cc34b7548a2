-- ===== src/Prelude/Fallible.antt =====
-- `Result<V, E>` with the question mark operator, and `Option::map` with `transpose`.
use mathlib.Core.Option.{Option, none, some}

pub data Fallible {ℓ κ} (V : Type ℓ) (E : Type κ) : Type (ℓ ⊔ κ) where
  ok : (value : V) → Fallible V E
  err : (error : E) → Fallible V E

module _ {ℓ κ μ} {V : Type ℓ} {W : Type κ} {E : Type μ} where
  -- `step?` and what follows it
  abbrev pub and_then : Fallible V E → (V → Fallible W E) → Fallible W E
  and_then (err error) next = err error
  and_then (ok value) next = next value

  -- `option.map(parse).transpose()`
  abbrev pub if_given : (V → Fallible W E) → Option V → Fallible (Option W) E
  if_given parse none = ok none
  if_given parse (some value) = elim (parse value) [ ok w ↦ ok (some w) | err e ↦ err e ]

-- `map_err`
abbrev pub map_err {ℓ κ μ} :
    {V : Type ℓ} {E : Type κ} {F : Type μ} → (E → F) → Fallible V E → Fallible V F
map_err f (ok value) = ok value
map_err f (err error) = err (f error)
