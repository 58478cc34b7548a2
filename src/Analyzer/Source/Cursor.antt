-- ===== src/Analyzer/Source/Cursor.antt =====
-- `LineIndex::locate` of soroban-analyzer/src/source.rs, and a cursor that reads the text up to the
-- offset, character by character.
use Prim.Native.Char.{Char, len_utf8}
use Prim.Native.String.{len, count, slice, ◌++◌ as ◌+++◌}
use package.text.Mathlib.TextPositions.{len-append, slice-append_middle}
use package.text.Mathlib.TextLemmas.{
  nil-append, cons-append, append_assoc, length-append, length-cons,
}
use soroban_fuzzer.Prelude.{ℕ, ◌+◌, min, ◌≡◌, sym, ap, ◌∙◌, inl, inr, String, arith, Bool-cases}
use soroban_fuzzer.Analyzer.Finding.{Position}
use soroban_fuzzer.Analyzer.Source.Lines.{
  is_newline, line_index, binary_search, line_of, start_at, locate,
}
use soroban_fuzzer.Analyzer.Source.Newlines.{
  cursor, newlines, last_start, newline_width, len-cons, cursor-line, start_at_last, no_newlines,
  search_line,
}

one_char : (c : Char) (s t : String) → String.◌∷◌ c s +++ t ≡ String.◌∷◌ c String.[] +++ (s +++ t)
one_char c s t =
    cons-append c s t
    ∙ sym (cons-append c String.[] (s +++ t) ∙ ap (String.◌∷◌ c) (nil-append (s +++ t)))

-- The character read goes to the line so far.
onto_line :
    (p q s t : String) (c : Char)
    → p +++ (q +++ (String.◌∷◌ c s +++ t)) ≡ p +++ ((q +++ String.◌∷◌ c String.[]) +++ (s +++ t))
onto_line p q s t c =
    ap (λ u. p +++ u)
      (ap (λ u. q +++ u) (one_char c s t) ∙ sym (append_assoc q (String.◌∷◌ c String.[]) (s +++ t)))

-- A newline ends the line, and the next one has nothing yet.
onto_next_line : (p q u : String) → p +++ (q +++ u) ≡ (p +++ q) +++ (String.[] +++ u)
onto_next_line p q u = sym (append_assoc p q u) ∙ ap (λ v. (p +++ q) +++ v) (sym (nil-append u))

-- The text is `p`, the line so far `q`, what is read next `s`, and the rest.
column_lem :
    (text p q s t : String) (l b : ℕ)
    → text ≡ p +++ (q +++ (s +++ t))
    → b ≡ len p + len q
    → count (slice text (last_start b (len p) s) (b + len s)) + 1 ≡ (cursor l (count q + 1) s).1
unfolding last_start cursor
column_lem text p q String.[] t l b e k =
    let end_at : b + len String.[] ≡ len p + len q = omega arith in
    ap (λ (n : ℕ). count (slice text (len p) n) + 1) end_at
    ∙ ap (λ u. count (slice u (len p) (len p + len q)) + 1)
        (e ∙ ap (λ u. p +++ (q +++ u)) (nil-append t))
    ∙ ap (λ u. count u + 1) (slice-append_middle p q t)
column_lem text p q (String.◌∷◌ c s) t l b e k =
    let one = String.◌∷◌ c String.[] in
    let line = q +++ one in
    let here : text ≡ p +++ (line +++ (s +++ t)) = e ∙ onto_line p q s t c in
    let long : b + len_utf8 c ≡ len p + len line =
      omega (arith, len-append q one, len-cons c String.[]) in
    let whole : b + len_utf8 c + len s ≡ b + len (String.◌∷◌ c s) = omega (arith, len-cons c s) in
    let wide : count line + 1 ≡ count q + 1 + 1 =
      omega (arith, length-append q one, length-cons c String.[]) in
    let same_line =
      ap (λ (n : ℕ). count (slice text (last_start (b + len_utf8 c) (len p) s) n) + 1) (sym whole)
      ∙ column_lem text p line s t l (b + len_utf8 c) here long
      ∙ ap (λ (n : ℕ). (cursor l n s).1) wide in
    elim (Bool-cases (is_newline c)) [
      | inr n ↦ ground (arith, n, same_line)
      | inl n ↦
          let next_start : len (p +++ line) ≡ b + 1 =
            omega (arith, len-append p line, long, newline_width c n) in
          let next_long : b + len_utf8 c ≡ len (p +++ line) + len String.[] =
            omega (arith, len-append p line, long) in
          let next_line =
            ap
              (λ (m : ℕ).
                count (slice text (last_start (b + len_utf8 c) m s) (b + len (String.◌∷◌ c s))) + 1)
              (sym next_start)
            ∙ ap
                (λ (m : ℕ).
                  count (slice text (last_start (b + len_utf8 c) (len (p +++ line)) s) m) + 1)
                (sym whole)
            ∙ column_lem text (p +++ line) String.[] s t (l + 1) (b + len_utf8 c)
                (here ∙ onto_next_line p line (s +++ t)) next_long in
          ground (arith, n, next_line)
    ]

found_line : (s t : String) → line_of (binary_search 0 (line_index (s +++ t)) (len s)) ≡ newlines s
unfolding binary_search line_index
found_line s t = ground (arith, search_line 1 0 (len s) s t, no_newlines s)

-- The position that an offset and a line give.
place_at : String → ℕ → ℕ → Position
place_at text o ix = record {
  offset = o;
  line = ix + 1;
  column = count (slice text (start_at (line_index text) ix) o) + 1;
}

locate-place_at :
    (text : String) (offset o ix : ℕ)
    → min offset (len text) ≡ o
    → line_of (binary_search 0 (line_index text) o) ≡ ix
    → locate (line_index text) text offset ≡ place_at text o ix
unfolding locate place_at
locate-place_at text offset o ix e f =
    ap (λ (m : ℕ). place_at text m (line_of (binary_search 0 (line_index text) m))) e
    ∙ ap (place_at text o) f

place_at-cursor :
    (s t : String)
    → place_at (s +++ t) (len s) (newlines s)
      ≡ record { offset = len s; line = (cursor 1 1 s).0; column = (cursor 1 1 s).1 }
unfolding place_at line_index
place_at-cursor s t =
    let line : newlines s + 1 ≡ (cursor 1 1 s).0 = omega (arith, cursor-line 1 1 s) in
    let whole : s +++ t ≡ String.[] +++ (String.[] +++ (s +++ t)) =
      sym (nil-append (String.[] +++ (s +++ t)) ∙ nil-append (s +++ t)) in
    let zero_plus : len s ≡ 0 + len s = omega arith in
    let column =
      ap (λ (n : ℕ). count (slice (s +++ t) n (len s)) + 1) (start_at_last 0 0 s t)
      ∙ ap (λ (n : ℕ). count (slice (s +++ t) (last_start 0 0 s) n) + 1) zero_plus
      ∙ column_lem (s +++ t) String.[] String.[] s t 1 0 whole (omega arith) in
    λ i. record { offset = len s; line = line i; column = column i }

-- The position that the line index finds for an offset at the end of a part of the text is that of
-- a cursor that has read this part character by character: the line is one more than the newlines
-- read, and the column counts characters, from one, since the last newline.
pub locate-cursor :
    (s t : String)
    → locate (line_index (s +++ t)) (s +++ t) (len s)
      ≡ record { offset = len s; line = (cursor 1 1 s).0; column = (cursor 1 1 s).1 }
locate-cursor s t =
    locate-place_at (s +++ t) (len s) (len s) (newlines s) (omega (arith, len-append s t))
      (found_line s t)
    ∙ place_at-cursor s t
