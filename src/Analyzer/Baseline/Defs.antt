-- ===== src/Analyzer/Baseline/Defs.antt =====
-- soroban-analyzer/src/baseline.rs: a baseline written from findings, read from a file, and matched.
-- The reader and the writer of JSON are parameters.
use Prim.Native.Nat.{Ordering}
use soroban_fuzzer.Prelude.{
  ℕ, String, Bool, true, not, List, [], ◌∷◌, any, keep, length, ◌==◌, if◌then◌else◌, Option, none,
  some,
}
use soroban_fuzzer.Prelude.Order.{same, nat_ord, string_ord}
use soroban_fuzzer.Prelude.BTree.{BTreeSet, set_insert, set_contains}
use soroban_fuzzer.Prelude.Sort.{sort_by}
use soroban_fuzzer.Prelude.Text.{◌<>◌, show_nat}
use soroban_fuzzer.Prelude.Fallible.{Fallible, ok, err}
use soroban_fuzzer.Analyzer.Finding.{Finding}

abbrev pub baseline_schema_version : ℕ
baseline_schema_version = 1

abbrev pub tool_name : String
tool_name = "soroban-analyze"

pub record BaselineEntry : Type 0 where
  pub rule : String
  pub file : String
  pub line : ℕ
  pub message : String

-- The separator is the character U+0000.
unfoldable pub identity : String → String → String → String
identity rule file message = rule <> "\0" <> file <> "\0" <> message

unfoldable pub entry_identity : BaselineEntry → String
unfolding identity
entry_identity e = identity e.rule e.file e.message

abbrev pub finding_identity : Finding → String
finding_identity f = identity f.rule f.file f.message

pub record BaselineTool : Type 0 where
  pub name : String
  pub version : String

pub record BaselineFile : Type 0 where
  pub schema_version : ℕ
  pub tool : BaselineTool
  pub findings : List BaselineEntry

pub record Baseline : Type 0 where
  pub entries : List BaselineEntry

unfoldable pub entry_of : Finding → BaselineEntry
entry_of f = record {
  rule = f.rule;
  file = f.file;
  line = f.location.start.line;
  message = f.message;
}

-- `Ordering::then_with`
abbrev pub then_with : Ordering → Ordering → Ordering
then_with Ordering.eq o = o
then_with Ordering.lt o = Ordering.lt
then_with Ordering.gt o = Ordering.gt

unfoldable pub entry_cmp : BaselineEntry → BaselineEntry → Ordering
entry_cmp l r = then_with (string_ord.cmp l.file r.file) (
    then_with (nat_ord.cmp l.line r.line)
      (then_with (string_ord.cmp l.rule r.rule) (string_ord.cmp l.message r.message)))

-- The loop over the findings, with the identities seen so far.
unfoldable pub unseen : BTreeSet String → List Finding → List BaselineEntry
unfolding entry_of entry_identity set_insert
unseen seen [] = []
unseen seen (f ∷ fs) =
    let entry = entry_of f in
    let rest = unseen (set_insert (entry_identity entry) seen) fs in
    if set_contains (entry_identity entry) seen then rest else entry ∷ rest

unfoldable pub from_findings : List Finding → Baseline
unfolding unseen entry_cmp sort_by
from_findings fs = record { entries = sort_by entry_cmp (unseen [] fs) }

unfoldable pub matches : Baseline → Finding → Bool
unfolding entry_identity
matches b f = any (λ e. same (entry_identity e) (finding_identity f)) b.entries

-- `collect::<BTreeSet<_>>()`
abbrev pub identities : List Finding → BTreeSet String
identities [] = []
identities (f ∷ fs) = set_insert (finding_identity f) (identities fs)

unfoldable pub stale : Baseline → List Finding → ℕ
unfolding entry_identity
stale b fs = length (keep (λ e. not (set_contains (entry_identity e) (identities fs))) b.entries)

unfoldable pub baseline_is_empty : Baseline → Bool
baseline_is_empty b = elim b.entries [ [] ↦ true | e ∷ es ↦ Bool.false ]

abbrev pub other_version : ℕ → String
other_version v =
    "this baseline is schema_version "
    <> show_nat v
    <> ", and this build writes and reads version "
    <> show_nat baseline_schema_version
    <> "; re-write it with `--write-baseline`"

-- The version is the useful sentence for a file of another version.
unfoldable pub unreadable_baseline : Option ℕ → String → String
unreadable_baseline none error = "not a readable baseline: " <> error
unreadable_baseline (some v) error =
    if v == baseline_schema_version then "not a readable baseline: " <> error else other_version v

unfoldable pub accept_file : BaselineFile → Fallible Baseline String
accept_file file =
    if not (file.schema_version == baseline_schema_version)
    then err (other_version file.schema_version)
    else if not (same file.tool.name tool_name)
    then err (
        "this baseline was written by `" <> file.tool.name <> "` rather than `" <> tool_name <> "`")
    else ok (record { entries = file.findings })

module _ (read : String → Fallible BaselineFile String) (probe : String → Option ℕ) where
  -- What was read, or what the reader said.
  unfoldable pub judge_read : String → Fallible BaselineFile String → Fallible Baseline String
  unfolding unreadable_baseline accept_file
  judge_read text (err error) = err (unreadable_baseline (probe text) error)
  judge_read text (ok file) = accept_file file

  unfoldable pub parse_baseline : String → Fallible Baseline String
  unfolding judge_read
  parse_baseline text = judge_read text (read text)

unfoldable pub document : String → Baseline → BaselineFile
document version b = record {
  schema_version = baseline_schema_version;
  tool = record { name = tool_name; version = version };
  findings = b.entries;
}

-- `unwrap_or_else` of the writer's result
abbrev pub or_skeleton : Option String → String
or_skeleton none = "{\"schema_version\": 1, \"tool\": {}, \"findings\": []}"
or_skeleton (some text) = text

module _ (write : BaselineFile → Option String) (version : String) where
  unfoldable pub to_json : Baseline → String
  unfolding document
  to_json b = or_skeleton (write (document version b))
