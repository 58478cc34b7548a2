-- ===== src/Fuzzer/Storage/Render.antt =====
-- soroban-fuzzer/src/storage.rs: `render`, `write_scval` and `truncate`.
use Prim.Native.String.{len, slice}
use package.text.Mathlib.Text.{is_char_boundary}
use package.text.Mathlib.TextPositions.{boundary-zero, len-append}
use soroban_fuzzer.Prelude.{
  ℕ, zero, suc, ◌≤◌, ◌≡◌, String, Bool, true, false, inl, inr, arith, leb, if◌then◌else◌,
  Bool-cases, length,
}
use soroban_fuzzer.Prelude.Text.{◌<>◌, show_nat}
use soroban_fuzzer.Fuzzer.Storage.Xdr.{
  Xdr, ScVal, ScVec, ScMap, bool, void, u32, i32, u64, i64, u128, i128, u256, i256, timepoint,
  duration, bytes, text, symbol, no_vec, no_map, vec, map, address, ledger_key_contract_instance,
  bare_instance, contract_instance, other, end, item, empty, pair,
}

show_bool : Bool → String
show_bool true = "true"
show_bool false = "false"

module _ (x : Xdr) where
  -- Each writes behind `out`. A separator stands before every item but the first.
  unfoldable mutual
    unfolding show_bool show_nat

    pub write_scval : String → ScVal x → String
    write_scval out (bool b) = out <> show_bool b
    write_scval out void = out <> "void"
    write_scval out (u32 n) = out <> x.show_scalar n
    write_scval out (i32 n) = out <> x.show_scalar n
    write_scval out (u64 n) = out <> x.show_scalar n
    write_scval out (i64 n) = out <> x.show_scalar n
    write_scval out (u128 n) = out <> x.show_scalar n
    write_scval out (i128 n) = out <> x.show_scalar n
    write_scval out (u256 n) = out <> x.show_scalar n
    write_scval out (i256 n) = out <> x.show_scalar n
    write_scval out (timepoint t) = out <> x.show_scalar t
    write_scval out (duration d) = out <> x.show_scalar d
    write_scval out (bytes bs) = out <> "bytes(" <> show_nat (length bs) <> ")"
    write_scval out (text s) = out <> "\"" <> x.show_text s <> "\""
    write_scval out (symbol s) = out <> "\"" <> x.show_text s <> "\""
    write_scval out no_vec = out <> "[]"
    write_scval out (vec items) = write_items true (out <> "[") items <> "]"
    write_scval out no_map = out <> "{}"
    write_scval out (map entries) = write_entries true (out <> "{") entries <> "}"
    write_scval out (address a) = out <> x.show_address a
    write_scval out ledger_key_contract_instance = out <> "<instance>"
    write_scval out (bare_instance code) = out <> "<contract-instance>"
    write_scval out (contract_instance code m) = out <> "<contract-instance>"
    write_scval out (other v) = out <> x.show_other v

    pub write_items : Bool → String → ScVec x → String
    write_items first out end = out
    write_items first out (item v vs) =
        write_items false (write_scval (if first then out else out <> ", ") v) vs

    pub write_entries : Bool → String → ScMap x → String
    write_entries first out empty = out
    write_entries first out (pair k v m) =
        write_entries false
          (write_scval (write_scval (if first then out else out <> ", ") k <> ": ") v) m

-- `while end > 0 && !s.is_char_boundary(end) { end -= 1; }`
unfoldable pub last_boundary : String → ℕ → ℕ
last_boundary s zero = zero
last_boundary s (suc stop) =
    let before = last_boundary s stop in if is_char_boundary s (suc stop) then suc stop else before

unfoldable pub truncate : String → ℕ → String
unfolding last_boundary
truncate s max = if leb (len s) max then s else slice s 0 (last_boundary s max) <> "…"

unfoldable pub render : (x : Xdr) → ScVal x → String
unfolding truncate write_scval
render x value = truncate (write_scval x "" value) 96

-- The position where a text is cut is at most the limit and is a character boundary, so that the
-- cut never panics.
pub last_boundary_lem :
    (s : String) (max : ℕ)
    → (last_boundary s max ≤ max) × (is_char_boundary s (last_boundary s max) ≡ true)
unfolding last_boundary
last_boundary_lem s zero = (omega arith, boundary-zero s)
last_boundary_lem s (suc stop) = elim (Bool-cases (is_char_boundary s (suc stop))) [
  | inl e ↦ rw e (omega arith, e)
  | inr e ↦ rw e (ground (arith, last_boundary_lem s stop), (last_boundary_lem s stop).1)
]

cut_len : (s : String) (stop : ℕ) → is_char_boundary s stop ≡ true → len (slice s 0 stop) ≡ stop
cut_len s stop h = ground arith

-- Whatever the key, its label is at most 99 bytes long: 96 and the ellipsis. The place where a
-- longer text is cut is a character boundary, where `String::truncate` does not panic.
pub len-render :
    (x : Xdr) (value : ScVal x)
    → (len (render x value) ≤ 99)
      × (is_char_boundary (write_scval x "" value) (last_boundary (write_scval x "" value) 96)
          ≡ true)
unfolding render truncate
len-render x value =
    let s = write_scval x "" value in
    let b = last_boundary_lem s 96 in
    (
      elim (Bool-cases (leb (len s) 96)) [
        | inl e ↦ rw e (ground arith)
        | inr e ↦ rw e (
            omega (
              arith,
              len-append (slice s 0 (last_boundary s 96)) "…",
              cut_len s (last_boundary s 96) b.1,
              b.0,
            ))
      ],
      b.1,
    )
