-- ===== src/Analyzer/Baseline/Roundtrip.antt =====
-- A baseline of soroban-analyzer/src/baseline.rs, written and read back.
use soroban_fuzzer.Prelude.{ℕ, ◌≡◌, ◌↔◌, refl, ap, ◌∙◌, String, Option, some, arith}
use soroban_fuzzer.Prelude.Order.{same_iff, string_ord}
use soroban_fuzzer.Prelude.Fallible.{Fallible, ok}
use soroban_fuzzer.Analyzer.Baseline.Defs.{
  BaselineFile, Baseline, baseline_schema_version, tool_name, judge_read, parse_baseline,
  accept_file, document, or_skeleton, to_json,
}

-- A file is accepted exactly when this build's version and tool wrote it, and its entries are kept.
accept_file_iff :
    (file : BaselineFile) (b : Baseline)
    → (accept_file file ≡ ok b) ↔ (
        (file.schema_version ≡ baseline_schema_version)
        × (file.tool.name ≡ tool_name)
        × (b ≡ record { entries = file.findings }))
unfolding accept_file
accept_file_iff file b = (
  λ h. (ground arith, (same_iff file.tool.name tool_name).0 (ground arith), ground arith),
  λ h. ground (arith, (same_iff file.tool.name tool_name).1 h.1),
)

module _ (write : BaselineFile → Option String) (read : String → Fallible BaselineFile String)
    (probe : String → Option ℕ) (version : String) where
  document_fields :
      (b : Baseline)
      → ((document version b).schema_version ≡ baseline_schema_version)
        × ((document version b).tool.name ≡ tool_name)
        × (b ≡ record { entries = (document version b).findings })
  unfolding document
  document_fields b = (refl, refl, refl)

  -- If the writer of JSON yields a text for the document of a baseline and the reader reads that
  -- document back from the text, then parsing what `to_json` yields gives the baseline back: its
  -- checks of the version and of the tool accept what was written.
  pub baseline-roundtrip :
      (b : Baseline) (text : String)
      → write (document version b) ≡ some text
      → read text ≡ ok (document version b)
      → parse_baseline read probe (to_json write version b) ≡ ok b
  unfolding parse_baseline judge_read to_json
  baseline-roundtrip b text wrote reads =
      let read_back : read (to_json write version b) ≡ ok (document version b) =
        ap (λ o. read (or_skeleton o)) wrote ∙ reads in
      ap (judge_read read probe (to_json write version b)) read_back
      ∙ (accept_file_iff (document version b) b).1 (document_fields b)
