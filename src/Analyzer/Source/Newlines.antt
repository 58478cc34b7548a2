-- ===== src/Analyzer/Source/Newlines.antt =====
-- The line index of soroban-analyzer/src/source.rs and the newlines of a text.
use Prim.Native.Char.{Char, len_utf8, len_utf8_def}
use Prim.Native.String.{len, ◌++◌ as ◌+++◌}
use Prim.Native.String.len as len_of
use package.text.Mathlib.TextPositions.{len_utf8-pos}
use package.text.Mathlib.TextLemmas.{nil-append, cons-append}
use soroban_fuzzer.Prelude.{
  ℕ, suc, ◌+◌, ◌-◌, ◌≤◌, ◌<◌, ◌≡◌, refl, ap, ◌∙◌, inl, inr, String, true, List, [], ◌∷◌, All,
  if◌then◌else◌, arith, Bool-cases,
}
use soroban_fuzzer.Analyzer.Source.Lines.{is_newline, starts_from, binary_search, line_of, start_at}

-- The line and the column, both from one, of a cursor that moves over a text.
unfoldable pub cursor : ℕ → ℕ → String → ℕ × ℕ
cursor line column String.[] = (line, column)
cursor line column (String.◌∷◌ c s) =
    let next_line = cursor (line + 1) 1 s in
    let same_line = cursor line (column + 1) s in if is_newline c then next_line else same_line

pub newlines : String → ℕ
newlines String.[] = 0
newlines (String.◌∷◌ c s) = let rest = newlines s in if is_newline c then suc rest else rest

-- Where the last line starts, after reading a text from offset `b` of a line that starts at `st`.
unfoldable pub last_start : ℕ → ℕ → String → ℕ
last_start b st String.[] = st
last_start b st (String.◌∷◌ c s) =
    let next_line = last_start (b + len_utf8 c) (b + 1) s in
    let same_line = last_start (b + len_utf8 c) st s in
    if is_newline c then next_line else same_line

pub newline_width : (c : Char) → is_newline c ≡ true → len_utf8 c ≡ 1
newline_width c h = len_utf8_def c ∙ ground arith

pub len-cons : (c : Char) (s : String) → len (String.◌∷◌ c s) ≡ len_utf8 c + len s
len-cons c s = len_of.cons c s

pub cursor-line : (l c : ℕ) (s : String) → (cursor l c s).0 ≡ l + newlines s
unfolding cursor newlines
cursor-line l c String.[] = omega arith
cursor-line l c (String.◌∷◌ d s) = ground (arith, cursor-line (l + 1) 1 s, cursor-line l (c + 1) s)

pub start_at_last :
    (b st : ℕ) (s t : String)
    → start_at (st ∷ starts_from b (s +++ t)) (newlines s) ≡ last_start b st s
unfolding newlines last_start starts_from
start_at_last b st String.[] t = refl
start_at_last b st (String.◌∷◌ c s) t =
    ap (λ u. start_at (st ∷ starts_from b u) (newlines (String.◌∷◌ c s))) (cons-append c s t)
    ∙ ground
        (arith, start_at_last (b + len_utf8 c) (b + 1) s t, start_at_last (b + len_utf8 c) st s t)

-- Every start comes after the offset that the text begins at.
starts_after : (b : ℕ) (v : ℕ) (t : String) → v ≤ b → All (λ s. v < s) (starts_from b t)
unfolding starts_from
starts_after b v String.[] h = tt
starts_after b v (String.◌∷◌ c t) h =
    let rest = starts_after (b + len_utf8 c) v t (omega arith) in
    elim (Bool-cases (is_newline c)) [ inl e ↦ rw e (omega arith, rest) | inr e ↦ rw e rest ]

search_none : (j v : ℕ) (l : List ℕ) → All (λ s. v < s) l → line_of (binary_search j l v) ≡ j - 1
unfolding binary_search
search_none j v [] h = refl
search_none j v (s ∷ l) h = ground arith

-- One more character, which is no newline, or a newline before the offset, or one right before it.
search_char :
    (j b v n : ℕ) (c : Char) (s u : String)
    → 0 < j
    → v ≡ b + len_utf8 c + len s
    → (len s ≡ 0 → n ≡ 0)
    → line_of (binary_search j (starts_from (b + len_utf8 c) u) v) ≡ j + n - 1
    → line_of (binary_search (j + 1) (starts_from (b + len_utf8 c) u) v) ≡ j + 1 + n - 1
    → line_of (binary_search j (starts_from b (String.◌∷◌ c u)) v)
      ≡ j + (if is_newline c then suc n else n) - 1
unfolding starts_from binary_search
search_char j b v n c s u h e none_left same next = elim (Bool-cases (is_newline c)) [
  | inr k ↦ ground (arith, k, same)
  | inl k ↦ ground (arith, k, newline_width c k, next, none_left)
]

pub no_newlines : (s : String) → len s ≡ 0 → newlines s ≡ 0
unfolding newlines
no_newlines String.[] h = refl
no_newlines (String.◌∷◌ c s) h = absurd (omega (arith, len-cons c s, (len_utf8-pos c).1))

pub search_line :
    (j b v : ℕ) (s t : String)
    → 0 < j
    → v ≡ b + len s
    → line_of (binary_search j (starts_from b (s +++ t)) v) ≡ j + newlines s - 1
unfolding newlines
search_line j b v String.[] t h e =
    ap (λ u. line_of (binary_search j (starts_from b u) v)) (nil-append t)
    ∙ search_none j v (starts_from b t) (starts_after b v t (omega arith))
    ∙ omega arith
search_line j b v (String.◌∷◌ c s) t h e =
    let whole : v ≡ b + len_utf8 c + len s = omega (arith, len-cons c s) in
    ap (λ u. line_of (binary_search j (starts_from b u) v)) (cons-append c s t)
    ∙ search_char j b v (newlines s) c s (s +++ t) h whole (no_newlines s)
        (search_line j (b + len_utf8 c) v s t h whole)
        (search_line (j + 1) (b + len_utf8 c) v s t (omega arith) whole)
