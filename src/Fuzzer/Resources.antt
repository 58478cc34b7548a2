-- ===== src/Fuzzer/Resources.antt =====
-- soroban-fuzzer/src/budget.rs: what an invocation consumed, and which network limits it exceeds.
pub mod Limits
use soroban_fuzzer.Prelude.{
  ℕ, ◌+◌, ◌-◌, ◌^◌, String, Bool, Option, none, some, List, [], ◌∷◌, ◌++◌, min, ltb, if◌then◌else◌,
}
use soroban_fuzzer.Prelude.Int.{ℤ, pos, negsuc, ltb_ℤ, ◌-ℤ◌, show_ℤ}
use soroban_fuzzer.Prelude.Float.{Float}
use soroban_fuzzer.Prelude.Text.{◌<>◌}

abbrev pub u32_max : ℕ
u32_max = 2 ^ 32 - 1

-- `u32::saturating_add`
unfoldable pub saturating_add : ℕ → ℕ → ℕ
saturating_add a b = min (a + b) u32_max

pub record ResourceUsage : Type 0 where
  pub instructions : ℤ
  pub mem_bytes : ℤ
  pub disk_read_entries : ℕ
  pub memory_read_entries : ℕ
  pub write_entries : ℕ
  pub disk_read_bytes : ℕ
  pub write_bytes : ℕ
  pub contract_events_size_bytes : ℕ

abbrev pub no_usage : ResourceUsage
no_usage = record {
  instructions = pos 0;
  mem_bytes = pos 0;
  disk_read_entries = 0;
  memory_read_entries = 0;
  write_entries = 0;
  disk_read_bytes = 0;
  write_bytes = 0;
  contract_events_size_bytes = 0;
}

-- The limits of the third-party `InvocationResourceLimits` that the program reads.
pub record ResourceLimits : Type 0 where
  pub instructions : ℤ
  pub mem_bytes : ℤ
  pub disk_read_entries : ℕ
  pub write_entries : ℕ
  pub ledger_entries : ℕ
  pub disk_read_bytes : ℕ
  pub write_bytes : ℕ
  pub contract_events_size_bytes : ℕ

unfoldable pub ledger_entries : ResourceUsage → ℕ
unfolding saturating_add
ledger_entries u =
    saturating_add (saturating_add u.disk_read_entries u.memory_read_entries) u.write_entries

pub record LimitBreach : Type 0 where
  pub limit : String
  pub used : ℤ
  pub allowed : ℤ

-- `check`: one more breach if the use is above the limit.
unfoldable pub check_limit : List LimitBreach → String → ℤ → ℤ → List LimitBreach
check_limit out name used allowed =
    if ltb_ℤ allowed used
    then out ++ record { limit = name; used = used; allowed = allowed } ∷ []
    else out

unfoldable pub breaches : ResourceUsage → ResourceLimits → List LimitBreach
unfolding check_limit ledger_entries
breaches u l =
    let o1 = check_limit [] "instructions" u.instructions l.instructions in
    let o2 = check_limit o1 "mem_bytes" u.mem_bytes l.mem_bytes in
    let o3 =
      check_limit o2 "disk_read_entries" (pos u.disk_read_entries) (pos l.disk_read_entries) in
    let o4 = check_limit o3 "write_entries" (pos u.write_entries) (pos l.write_entries) in
    let o5 = check_limit o4 "ledger_entries" (pos (ledger_entries u)) (pos l.ledger_entries) in
    let o6 = check_limit o5 "disk_read_bytes" (pos u.disk_read_bytes) (pos l.disk_read_bytes) in
    let o7 = check_limit o6 "write_bytes" (pos u.write_bytes) (pos l.write_bytes) in
    check_limit o7 "contract_events_size_bytes" (pos u.contract_events_size_bytes)
      (pos l.contract_events_size_bytes)

abbrev pub head? : List LimitBreach → Option LimitBreach
head? [] = none
head? (b ∷ bs) = some b

unfoldable pub first_breach : ResourceUsage → ResourceLimits → Option LimitBreach
unfolding breaches
first_breach u l = head? (breaches u l)

abbrev pub i64_max : ℕ
i64_max = 2 ^ 63 - 1

-- A value held in the range of `i64`.
unfoldable pub clamp_i64 : ℤ → ℤ
clamp_i64 (pos n) = pos (min n i64_max)
clamp_i64 (negsuc n) = negsuc (min n i64_max)

-- `saturating_sub`
unfoldable pub excess : LimitBreach → ℤ
unfolding clamp_i64 ◌-ℤ◌
excess b = clamp_i64 (b.used -ℤ b.allowed)

module _ (f : Float) where
  unfoldable pub excess_percent : LimitBreach → f.F64
  excess_percent b =
      if ltb_ℤ (pos 0) b.allowed
      then f.mul (f.div (f.of_int b.used) (f.of_int b.allowed)) (f.of_nat 100)
      else f.infinity

  unfoldable pub show_breach : LimitBreach → String
  unfolding excess_percent excess show_ℤ
  show_breach b =
      b.limit
      <> " limit exceeded: "
      <> show_ℤ b.used
      <> " of "
      <> show_ℤ b.allowed
      <> " allowed ("
      <> show_ℤ (excess b)
      <> " over, "
      <> f.show_rounded (excess_percent b)
      <> "% of limit)"
