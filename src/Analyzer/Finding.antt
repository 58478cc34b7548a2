-- ===== src/Analyzer/Finding.antt =====
-- soroban-analyzer/src/source.rs and finding.rs: where a finding is and what it says.
use soroban_fuzzer.Prelude.{ℕ, ◌-◌, String, Bool, ◌==◌}
use soroban_fuzzer.Prelude.Text.{◌<>◌, show_nat}

pub record Position : Type 0 where
  pub offset : ℕ
  pub line : ℕ
  pub column : ℕ

pub record Location : Type 0 where
  pub start : Position
  pub end_offset : ℕ

-- `saturating_sub`
unfoldable pub span_length : Location → ℕ
span_length l = l.end_offset - l.start.offset

unfoldable pub span_is_empty : Location → Bool
unfolding span_length
span_is_empty l = span_length l == 0

pub record Finding : Type 0 where
  pub rule : String
  pub message : String
  pub remediation : String
  pub file : String
  pub location : Location
  pub source_line : String

unfoldable pub show_finding : Finding → String
show_finding f =
    f.file
    <> ":"
    <> show_nat f.location.start.line
    <> ":"
    <> show_nat f.location.start.column
    <> ": "
    <> f.rule
    <> ": "
    <> f.message
