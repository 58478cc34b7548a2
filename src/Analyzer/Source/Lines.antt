-- ===== src/Analyzer/Source/Lines.antt =====
-- soroban-analyzer/src/source.rs: the line index, the text of a line, and the positions of byte
-- offsets. The syntax tree is a parameter: it stands in the record and nothing here looks into it.
use Prim.Native.Char.{Char, code, len_utf8}
use Prim.Native.String.{len, count, slice}
use package.text.Mathlib.Text.{is_char_boundary, starts_with, find?}
use soroban_fuzzer.Prelude.{
  ℕ, zero, suc, ◌+◌, ◌-◌, min, String, Bool, ◌||◌, ◌&&◌, not, List, [], ◌∷◌, Option, none, some,
  get_elem?, length, ltb, ◌==◌, if◌then◌else◌,
}
use soroban_fuzzer.Prelude.Text.{◌<>◌}
use soroban_fuzzer.Prelude.Chars.{trim, is_blank}
use soroban_fuzzer.Prelude.Fallible.{Fallible, ok, err}
use soroban_fuzzer.Analyzer.Finding.{Position, Location}

abbrev pub is_newline : Char → Bool
is_newline c = code c == 10

-- The offsets after each newline, from an offset on.
unfoldable pub starts_from : ℕ → String → List ℕ
starts_from offset String.[] = []
starts_from offset (String.◌∷◌ c s) =
    let rest = starts_from (offset + len_utf8 c) s in
    if is_newline c then (offset + 1) ∷ rest else rest

unfoldable pub line_index : String → List ℕ
unfolding starts_from
line_index text = 0 ∷ starts_from 0 text

-- `binary_search` of an ascending list: where the value is, or where it would go.
unfoldable pub binary_search : ℕ → List ℕ → ℕ → Fallible ℕ ℕ
binary_search i [] value = err i
binary_search i (s ∷ rest) value =
    let later = binary_search (i + 1) rest value in
    if s == value then ok i else if ltb value s then err i else later

abbrev pub line_of : Fallible ℕ ℕ → ℕ
line_of (ok i) = i
line_of (err i) = i - 1

-- `starts[line_ix]`, which would panic out of range; there it is 0 here.
abbrev pub start_at : List ℕ → ℕ → ℕ
start_at starts i = elim (get_elem? starts i) [ none ↦ 0 | some s ↦ s ]

unfoldable pub locate : List ℕ → String → ℕ → Position
unfolding binary_search
locate starts text offset =
    let o = min offset (len text) in
    let line_ix = line_of (binary_search 0 starts o) in
    record {
      offset = o;
      line = line_ix + 1;
      column = count (slice text (start_at starts line_ix) o) + 1;
    }

pub record SourceFile (Ast : Type 0) : Type 0 where
  pub path : String
  pub text : String
  pub ast : Ast
  pub lines : List ℕ

-- What `syn` and the file system answer.
pub record Reader (Ast : Type 0) : Type 0 where
  pub parse_text : String → Fallible Ast String
  pub read_to_string : String → Fallible String String

-- `trim_end_matches(['\n', '\r'])`
unfoldable pub trim_line_end : String → String
trim_line_end String.[] = String.[]
trim_line_end (String.◌∷◌ c s) =
    let rest = trim_line_end s in
    if (is_newline c || (code c == 13)) && is_blank rest then String.[] else String.◌∷◌ c rest

-- The last character boundary below an offset.
unfoldable pub boundary_below : String → ℕ → ℕ
boundary_below text zero = 0
boundary_below text (suc n) =
    let lower = boundary_below text n in if is_char_boundary text n then n else lower

module _ {Ast : Type 0} where
  -- A file whose text parses, with its line index.
  abbrev pub parsed_file : String → String → Fallible Ast String → Fallible (SourceFile Ast) String
  parsed_file path text (err e) = err e
  parsed_file path text (ok ast) =
      ok (record { path = path; text = text; ast = ast; lines = line_index text })

  unfoldable pub parse_source : Reader Ast → String → String → Fallible (SourceFile Ast) String
  unfolding line_index
  parse_source r path text = parsed_file path text (r.parse_text text)

  abbrev pub parse_read :
      Reader Ast → String → Fallible String String → Fallible (SourceFile Ast) String
  parse_read r path (err e) = err ("could not read `" <> path <> "`: " <> e)
  parse_read r path (ok text) = parse_source r path text

  unfoldable pub read_source : Reader Ast → String → Fallible (SourceFile Ast) String
  unfolding parse_source
  read_source r path = parse_read r path (r.read_to_string path)

  unfoldable pub display_path : SourceFile Ast → String
  display_path file =
      if starts_with file.path "./" then slice file.path 2 (len file.path) else file.path

  abbrev pub line_end : SourceFile Ast → ℕ → ℕ
  line_end file line = elim (get_elem? file.lines line) [ none ↦ len file.text | some e ↦ e ]

  abbrev pub text_between : SourceFile Ast → ℕ → Option ℕ → String
  text_between file line none = ""
  text_between file line (some start) = trim_line_end (slice file.text start (line_end file line))

  -- The text of a line counted from one, and nothing for a line that is not there.
  unfoldable pub line_text : SourceFile Ast → ℕ → String
  unfolding trim_line_end
  line_text file zero = ""
  line_text file (suc n) = text_between file (suc n) (get_elem? file.lines n)

  unfoldable pub line_count : SourceFile Ast → ℕ
  line_count file = length file.lines

  -- The lines from one on, as long as there are only comments and blank lines.
  unfoldable pub comments_from : SourceFile Ast → ℕ → ℕ → List String
  unfolding line_text
  comments_from file line zero = []
  comments_from file line (suc left) =
      let text = trim (line_text file line) in
      let rest = comments_from file (suc line) left in
      if is_blank text then rest else if not (starts_with text "//") then [] else text ∷ rest

  unfoldable pub leading_comment_lines : SourceFile Ast → List String
  unfolding comments_from line_count
  leading_comment_lines file = comments_from file 1 (line_count file)

  unfoldable pub location_at : SourceFile Ast → ℕ → Location
  unfolding locate boundary_below
  location_at file offset =
      let o =
        if is_char_boundary file.text offset then offset else boundary_below file.text offset in
      record { start = locate file.lines file.text o; end_offset = o }

  abbrev pub newline_from : SourceFile Ast → ℕ → ℕ
  newline_from file offset = elim (find? (slice file.text offset (len file.text)) "\n") [
    | none ↦ len file.text
    | some ix ↦ offset + ix
  ]

  -- The place of a span of bytes; an empty span is widened to the end of its line.
  unfoldable pub location_of_span : SourceFile Ast → ℕ × ℕ → Location
  unfolding locate
  location_of_span file range =
      let start = locate file.lines file.text range.0 in
      if ltb range.0 range.1
      then record { start = start; end_offset = range.1 }
      else record { start = start; end_offset = newline_from file start.offset }
