-- ===== src/Analyzer/Source/Snippet.antt =====
-- `SourceFile::snippet_inline` of soroban-analyzer/src/source.rs: the text of a span on one line.
use Prim.Native.String.{len, count, slice, ◌++◌ as ◌+++◌}
use package.text.Mathlib.Text.{is_char_boundary}
use package.text.Mathlib.TextLemmas.{length-append, length-cons}
use soroban_fuzzer.Prelude.{
  ℕ, zero, suc, ◌≤◌, inl, inr, String, Bool, true, false, ◌&&◌, ◌||◌, List, [], ◌∷◌, ltb, leb,
  if◌then◌else◌, arith, Bool-cases,
}
use soroban_fuzzer.Prelude.Text.{join}
use soroban_fuzzer.Prelude.Chars.{is_whitespace, is_blank}
use soroban_fuzzer.Analyzer.Source.Lines.{SourceFile}

abbrev pub snippet_limit : ℕ
snippet_limit = 64

abbrev pub put_word : String → List String → List String
put_word w ws = if is_blank w then ws else w ∷ ws

-- The word that a text begins with, and the words after it.
unfoldable pub split_words : String → String × List String
unfolding is_whitespace
split_words String.[] = (String.[], [])
split_words (String.◌∷◌ c s) =
    let rest = split_words s in
    if is_whitespace c then (String.[], put_word rest.0 rest.1) else (String.◌∷◌ c rest.0, rest.1)

-- `split_whitespace`
abbrev pub words : String → List String
words s = put_word (split_words s).0 (split_words s).1

unfoldable pub take_chars : ℕ → String → String
take_chars zero s = String.[]
take_chars (suc n) String.[] = String.[]
take_chars (suc n) (String.◌∷◌ c s) = String.◌∷◌ c (take_chars n s)

-- A text of more characters is cut and ends in an ellipsis.
unfoldable pub shorten : String → String
unfolding take_chars
shorten s = if ltb snippet_limit (count s) then take_chars snippet_limit s +++ "…" else s

module _ {Ast : Type 0} where
  unfoldable pub snippet_inline : SourceFile Ast → ℕ × ℕ → String
  unfolding split_words shorten
  snippet_inline file range =
      if leb range.1 range.0 || ltb (len file.text) range.1
      then ""
      else if is_char_boundary file.text range.0 && is_char_boundary file.text range.1
      then shorten (join " " (words (slice file.text range.0 range.1)))
      else ""

count-take_chars-le : (n : ℕ) (s : String) → count (take_chars n s) ≤ n
unfolding take_chars
count-take_chars-le zero s = omega arith
count-take_chars-le (suc n) String.[] = omega arith
count-take_chars-le (suc n) (String.◌∷◌ c s) =
    omega (arith, length-cons c (take_chars n s), count-take_chars-le n s)

count-shorten-le : (s : String) → count (shorten s) ≤ 65
unfolding shorten
count-shorten-le s = elim (Bool-cases (ltb snippet_limit (count s))) [
  | inl h ↦ rw h (
      omega (
        arith,
        length-append (take_chars snippet_limit s) "…",
        count-take_chars-le snippet_limit s,
      ))
  | inr h ↦ rw h (ground arith)
]

guarded-le :
    (bad good : Bool) (s : String)
    → count s ≤ 65
    → count (if bad then "" else if good then s else "") ≤ 65
guarded-le true good s h = omega arith
guarded-le false true s h = h
guarded-le false false s h = omega arith

-- A message that quotes a span quotes at most 64 characters of it and the ellipsis.
pub count-snippet_inline-le :
    {Ast : Type 0} (file : SourceFile Ast) (range : ℕ × ℕ) → count (snippet_inline file range) ≤ 65
unfolding snippet_inline
count-snippet_inline-le file range =
    guarded-le (leb range.1 range.0 || ltb (len file.text) range.1)
      (is_char_boundary file.text range.0 && is_char_boundary file.text range.1)
      (shorten (join " " (words (slice file.text range.0 range.1))))
      (count-shorten-le (join " " (words (slice file.text range.0 range.1))))
