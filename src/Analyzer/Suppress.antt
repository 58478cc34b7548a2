-- ===== src/Analyzer/Suppress.antt =====
-- soroban-analyzer/src/suppress.rs: the `allow` markers of comments, and which findings they excuse.
-- Where the items of a file stand is the syntax tree's to say, and is a parameter.
use Prim.Native.Char.{code}
use Prim.Native.String.{len, slice}
use package.text.Mathlib.Text.{starts_with, find?}
use soroban_fuzzer.Prelude.{
  ℕ, zero, suc, ◌+◌, ◌-◌, String, Bool, true, false, ◌||◌, ◌&&◌, not, List, [], ◌∷◌, ◌++◌, Option,
  none, some, map, any, keep, ltb, leb, ◌==◌, if◌then◌else◌,
}
use soroban_fuzzer.Prelude.Order.{nat_ord, string_ord}
use soroban_fuzzer.Prelude.BTree.{BTreeSet, set_insert, set_contains}
use soroban_fuzzer.Prelude.Sort.{sort, sort_by, dedup}
use soroban_fuzzer.Prelude.Chars.{trim, trim_start, is_blank, is_whitespace, eq_ignore_ascii_case}
use soroban_fuzzer.Analyzer.Source.Lines.{SourceFile, line_text, location_at, leading_comment_lines}

abbrev pub marker_prefix : String
marker_prefix = "soroban-analyzer:"

abbrev pub look_up_lines : ℕ
look_up_lines = 12

pub data Scope : Type 0 where
  item file : Scope

pub record Marker : Type 0 where
  pub scope : Scope
  -- none for `all`
  pub rules : Option (BTreeSet String)

abbrev pub allows : String → Option (BTreeSet String) → Bool
allows id none = true
allows id (some ids) = set_contains id ids

unfoldable pub excuses : Marker → String → Bool
excuses marker id = allows id marker.rules

-- `trim_start_matches` of slashes and whitespace
unfoldable pub trim_comment : String → String
trim_comment String.[] = String.[]
trim_comment (String.◌∷◌ c s) =
    let rest = trim_comment s in if (code c == 47) || is_whitespace c then rest else String.◌∷◌ c s

abbrev pub strip_prefix : String → String → Option String
strip_prefix p s = if starts_with s p then some (slice s (len p) (len s)) else none

-- `split(',')`: the part before the first comma, and the parts after it.
unfoldable pub split_commas : String → String × List String
split_commas String.[] = (String.[], [])
split_commas (String.◌∷◌ c s) =
    let rest = split_commas s in
    if code c == 44 then (String.[], rest.0 ∷ rest.1) else (String.◌∷◌ c rest.0, rest.1)

abbrev pub set_of : List String → BTreeSet String
set_of [] = []
set_of (s ∷ rest) = set_insert s (set_of rest)

abbrev pub has_members : BTreeSet String → Bool
has_members [] = false
has_members (e ∷ rest) = true

abbrev pub ids_in : String → BTreeSet String
ids_in list =
    let parts = split_commas list in
    set_of (keep (λ id. not (is_blank id)) (map trim (parts.0 ∷ parts.1)))

-- The markers that a list between parentheses makes: none when it names no rule.
unfoldable pub marker_of : Scope → String → List Marker
unfolding trim eq_ignore_ascii_case split_commas set_insert
marker_of scope list =
    if eq_ignore_ascii_case list "all"
    then record { scope = scope; rules = none } ∷ []
    else if has_members (ids_in list)
    then record { scope = scope; rules = some (ids_in list) } ∷ []
    else []

-- `split_once(')')`, the part before
abbrev pub closed : Scope → Option ℕ → String → List Marker
closed scope none args = []
closed scope (some ix) args = marker_of scope (trim (slice args 0 ix))

abbrev pub opened : Scope → Option String → List Marker
opened scope none = []
opened scope (some args) = closed scope (find? args ")") args

abbrev pub called : Scope → Option String → List Marker
called scope none = []
called scope (some args) = opened scope (strip_prefix "(" (trim_start args))

abbrev pub markers_after : Option String → List Marker
markers_after none = []
markers_after (some rest) =
    called file (strip_prefix "allow-file" (trim_start rest))
    ++ called item (strip_prefix "allow" (trim_start rest))

unfoldable pub parse_markers : String → List Marker
unfolding trim_comment trim_start marker_of
parse_markers line = markers_after (strip_prefix marker_prefix (trim_comment line))

abbrev pub is_item : Scope → Bool
is_item item = true
is_item file = false

unfoldable pub comment_says : (Marker → Bool) → String → Bool
unfolding parse_markers
comment_says p line = any p (parse_markers line)

module _ {Ast : Type 0} (item_ranges : Ast → List (ℕ × ℕ)) where
  unfoldable pub enclosing_items : SourceFile Ast → ℕ → List ℕ
  unfolding sort_by dedup
  enclosing_items f offset =
      dedup
        (sort (map (λ r. r.0) (keep (λ r. leb r.0 offset && ltb offset r.1) (item_ranges f.ast))))

-- The comment lines from `line` upwards while they are above `lowest`.
module _ {Ast : Type 0} where
  unfoldable pub comments_above : SourceFile Ast → ℕ → ℕ → List String
  unfolding line_text
  comments_above f lowest zero = []
  comments_above f lowest (suc n) =
      let above = comments_above f lowest n in
      let text = trim (line_text f (suc n)) in
      if ltb lowest (suc n) && starts_with text "//" then text ∷ above else []

  unfoldable pub comment_block_above : SourceFile Ast → ℕ → List String
  unfolding comments_above location_at
  comment_block_above f offset =
      let start_line = (location_at f offset).start.line in
      comments_above f (start_line - (look_up_lines + 1)) (start_line - 1)

  unfoldable pub allowed_by_file : SourceFile Ast → String → Bool
  unfolding leading_comment_lines comment_says excuses
  allowed_by_file f id =
      any (comment_says (λ m. not (is_item m.scope) && excuses m id)) (leading_comment_lines f)

  unfoldable pub allowed_above : SourceFile Ast → String → ℕ → Bool
  unfolding comment_block_above comment_says excuses
  allowed_above f id start =
      any (comment_says (λ m. is_item m.scope && excuses m id)) (comment_block_above f start)

module _ {Ast : Type 0} (item_ranges : Ast → List (ℕ × ℕ)) where
  unfoldable pub is_suppressed : SourceFile Ast → String → ℕ → Bool
  unfolding allowed_by_file enclosing_items allowed_above
  is_suppressed f id offset =
      allowed_by_file f id || any (allowed_above f id) (enclosing_items item_ranges f offset)
