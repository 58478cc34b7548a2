-- ===== src/Analyzer/Severity.antt =====
-- soroban-analyzer/src/severity.rs: the five severities, their order and their names.
use Prim.Native.Nat.{compare, Ordering}
use Prim.Native.String.{String}
use soroban_fuzzer.Prelude.{
  ℕ, ◌≡◌, ◌↔◌, refl, sym, ap, ◌∙◌, inl, inr, true, Option, none, some, List, [], ◌∷◌, map, find, In,
  arith, if◌then◌else◌, Bool-cases,
}
use soroban_fuzzer.Prelude.Order.{Ord, by_rank, same, same_iff, string_ord}
use soroban_fuzzer.Prelude.Text.{◌<>◌, join}
use soroban_fuzzer.Prelude.Chars.{
  trim, trim_start, trim_end, is_whitespace, to_ascii_lowercase, lower_char, shift_upper,
  eq_ignore_ascii_case,
}
use soroban_fuzzer.Prelude.Fallible.{Fallible, ok, err}

pub data Severity : Type 0 where
  info low medium high critical : Severity

-- The derived order is that of the declaration.
abbrev pub severity_rank : Severity → ℕ
severity_rank info = 0
severity_rank low = 1
severity_rank medium = 2
severity_rank high = 3
severity_rank critical = 4

pub severity_rank_iff :
    (a b : Severity) → (compare (severity_rank a) (severity_rank b) ≡ Ordering.eq) ↔ (a ≡ b)
severity_rank_iff a b = ground arith

instance abbrev pub severity_ord : Ord Severity
severity_ord = by_rank severity_rank severity_rank_iff

-- Weakest first.
abbrev pub all_severities : List Severity
all_severities = info ∷ low ∷ medium ∷ high ∷ critical ∷ []

unfoldable pub severity_text : Severity → String
severity_text info = "info"
severity_text low = "low"
severity_text medium = "medium"
severity_text high = "high"
severity_text critical = "critical"

abbrev pub unknown_severity : String → String
unknown_severity s =
    "unknown severity `"
    <> s
    <> "`; expected one of: "
    <> join ", " (map severity_text all_severities)

-- `ok_or_else`
abbrev pub or_unknown : String → Option Severity → Fallible Severity String
or_unknown s none = err (unknown_severity s)
or_unknown s (some severity) = ok severity

unfoldable pub severity_from_str : String → Fallible Severity String
unfolding severity_text
severity_from_str s =
    or_unknown s
      (find (λ severity. eq_ignore_ascii_case (severity_text severity) (trim s)) all_severities)

lower-severity_text : (s : Severity) → to_ascii_lowercase (severity_text s) ≡ severity_text s
unfolding severity_text to_ascii_lowercase lower_char shift_upper
lower-severity_text info = refl
lower-severity_text low = refl
lower-severity_text medium = refl
lower-severity_text high = refl
lower-severity_text critical = refl

-- The names are different texts.
severity_of : String → Severity
severity_of t =
    if same t "low"
    then low
    else if same t "medium"
    then medium
    else if same t "high"
    then high
    else if same t "critical"
    then critical
    else info

severity_of-text : (s : Severity) → severity_of (severity_text s) ≡ s
unfolding severity_of severity_text
severity_of-text info = refl
severity_of-text low = refl
severity_of-text medium = refl
severity_of-text high = refl
severity_of-text critical = refl

severity_text_inj : (a b : Severity) → severity_text a ≡ severity_text b → a ≡ b
severity_text_inj a b e = sym (severity_of-text a) ∙ ap severity_of e ∙ severity_of-text b

named_iff :
    (s : Severity) (t : String)
    → (eq_ignore_ascii_case (severity_text s) t ≡ true) ↔ (to_ascii_lowercase t ≡ severity_text s)
unfolding eq_ignore_ascii_case
named_iff s t = (
  λ h.
      sym ((same_iff (to_ascii_lowercase (severity_text s)) (to_ascii_lowercase t)).0 h)
      ∙ lower-severity_text s,
  λ h.
      (same_iff (to_ascii_lowercase (severity_text s)) (to_ascii_lowercase t)).1
        (lower-severity_text s ∙ sym h),
)

-- Only the name that fits is found, wherever it stands.
find_named :
    (t : String) (s : Severity)
    → to_ascii_lowercase t ≡ severity_text s
    → (l : List Severity) → In s l
    → find (λ severity. eq_ignore_ascii_case (severity_text severity) t) l ≡ some s
find_named t s e [] i = absurd i
find_named t s e (a ∷ l) (inl at) =
    let fits = (named_iff a t).1 (e ∙ ap severity_text at) in rw fits (ap some (sym at))
find_named t s e (a ∷ l) (inr i) = elim (Bool-cases (eq_ignore_ascii_case (severity_text a) t)) [
  | inl b ↦ rw b (ap some (severity_text_inj a s (sym ((named_iff a t).0 b) ∙ e)))
  | inr b ↦ rw b (find_named t s e l i)
]

every_severity : (s : Severity) → In s all_severities
every_severity info = inl refl
every_severity low = inr (inl refl)
every_severity medium = inr (inr (inl refl))
every_severity high = inr (inr (inr (inl refl)))
every_severity critical = inr (inr (inr (inr (inl refl))))

found_named :
    (t : String) (s : Severity) (l : List Severity)
    → find (λ severity. eq_ignore_ascii_case (severity_text severity) t) l ≡ some s
    → to_ascii_lowercase t ≡ severity_text s
found_named t s [] h = absurd (cc)
found_named t s (a ∷ l) h = elim (Bool-cases (eq_ignore_ascii_case (severity_text a) t)) [
  | inl b ↦ (named_iff a t).0 b ∙ ap severity_text (ground arith)
  | inr b ↦ found_named t s l (ground arith)
]

or_unknown-ok :
    (t : String) (o : Option Severity) (s : Severity) → (or_unknown t o ≡ ok s) ↔ (o ≡ some s)
or_unknown-ok t none s = (λ h. absurd (cc), λ h. absurd (cc))
or_unknown-ok t (some a) s = (λ h. ground arith, λ h. ground arith)

-- A text parses to a severity exactly when the text, trimmed and in lower case, is the name of
-- that severity.
pub severity_from_str_iff :
    (t : String) (s : Severity)
    → (severity_from_str t ≡ ok s) ↔ (to_ascii_lowercase (trim t) ≡ severity_text s)
unfolding severity_from_str
severity_from_str_iff t s =
    let found =
      find (λ severity. eq_ignore_ascii_case (severity_text severity) (trim t)) all_severities in
    (
      λ h. found_named (trim t) s all_severities ((or_unknown-ok t found s).0 h),
      λ h. (or_unknown-ok t found s).1 (find_named (trim t) s h all_severities (every_severity s)),
    )

trim-severity_text : (s : Severity) → trim (severity_text s) ≡ severity_text s
unfolding trim trim_start trim_end is_whitespace severity_text
trim-severity_text info = refl
trim-severity_text low = refl
trim-severity_text medium = refl
trim-severity_text high = refl
trim-severity_text critical = refl

-- Every severity reads back from its own name.
pub severity-roundtrip : (s : Severity) → severity_from_str (severity_text s) ≡ ok s
severity-roundtrip s =
    (severity_from_str_iff (severity_text s) s).1
      (ap to_ascii_lowercase (trim-severity_text s) ∙ lower-severity_text s)
