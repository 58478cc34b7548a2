-- ===== src/Fuzzer/Resources/Limits.antt =====
-- The breaches of soroban-fuzzer/src/budget.rs and the limits themselves.
use soroban_fuzzer.Prelude.{
  ◌+◌, ◌≤◌, ◌≡◌, ◌↔◌, refl, String, none, List, [], ◌∷◌, arith, All, All-append, Bool-cases, inl,
  inr, min,
}
use soroban_fuzzer.Prelude.Int.{ℤ, pos, ltb_ℤ, ◌≤ℤ◌, ◌<ℤ◌}
use soroban_fuzzer.Fuzzer.Resources.{
  ResourceUsage, ResourceLimits, LimitBreach, check_limit, breaches, first_breach, ledger_entries,
  saturating_add, u32_max, head?,
}

-- Every limit is respected.
pub record Within (u : ResourceUsage) (l : ResourceLimits) : Type 0 where
  pub instructions : u.instructions ≤ℤ l.instructions
  pub mem_bytes : u.mem_bytes ≤ℤ l.mem_bytes
  pub disk_read_entries : u.disk_read_entries ≤ l.disk_read_entries
  pub write_entries : u.write_entries ≤ l.write_entries
  pub ledger_entries :
      min (u.disk_read_entries + u.memory_read_entries + u.write_entries) u32_max ≤ l.ledger_entries
  pub disk_read_bytes : u.disk_read_bytes ≤ l.disk_read_bytes
  pub write_bytes : u.write_bytes ≤ l.write_bytes
  pub contract_events_size_bytes : u.contract_events_size_bytes ≤ l.contract_events_size_bytes

pub ledger_entries_lem :
    (u : ResourceUsage)
    → ledger_entries u ≡ min (u.disk_read_entries + u.memory_read_entries + u.write_entries) u32_max
unfolding ledger_entries saturating_add
ledger_entries_lem u = omega arith

abbrev pub Exceeded : LimitBreach → Type 0
Exceeded b = b.allowed <ℤ b.used

check_limit_sound :
    (out : List LimitBreach) (name : String) (used allowed : ℤ)
    → All Exceeded out
    → All Exceeded (check_limit out name used allowed)
unfolding check_limit
check_limit_sound out name used allowed h = elim (Bool-cases (ltb_ℤ allowed used)) [
  | inl e ↦ rw e (
      All-append Exceeded out (record { limit = name; used = used; allowed = allowed } ∷ []) h
        (ground arith, tt))
  | inr e ↦ rw e h
]

check_limit-empty :
    (out : List LimitBreach) (name : String) (used allowed : ℤ)
    → (check_limit out name used allowed ≡ []) ↔ ((out ≡ []) × (used ≤ℤ allowed))
unfolding check_limit
check_limit-empty [] name used allowed = (λ h. ground arith, λ h. ground arith)
check_limit-empty (b ∷ out) name used allowed = (λ h. ground arith, λ h. ground arith)

head?-none : (bs : List LimitBreach) → (head? bs ≡ none) ↔ (bs ≡ [])
head?-none [] = (λ h. refl, λ h. refl)
head?-none (b ∷ bs) = (λ h. cc, λ h. cc)

breaches-empty : (u : ResourceUsage) (l : ResourceLimits) → (breaches u l ≡ []) ↔ Within u l
unfolding breaches
breaches-empty u l =
    let o1 = check_limit [] "instructions" u.instructions l.instructions in
    let o2 = check_limit o1 "mem_bytes" u.mem_bytes l.mem_bytes in
    let o3 =
      check_limit o2 "disk_read_entries" (pos u.disk_read_entries) (pos l.disk_read_entries) in
    let o4 = check_limit o3 "write_entries" (pos u.write_entries) (pos l.write_entries) in
    let o5 = check_limit o4 "ledger_entries" (pos (ledger_entries u)) (pos l.ledger_entries) in
    let o6 = check_limit o5 "disk_read_bytes" (pos u.disk_read_bytes) (pos l.disk_read_bytes) in
    let o7 = check_limit o6 "write_bytes" (pos u.write_bytes) (pos l.write_bytes) in
    let e1 = check_limit-empty [] "instructions" u.instructions l.instructions in
    let e2 = check_limit-empty o1 "mem_bytes" u.mem_bytes l.mem_bytes in
    let e3 =
      check_limit-empty o2 "disk_read_entries" (pos u.disk_read_entries)
        (pos l.disk_read_entries) in
    let e4 = check_limit-empty o3 "write_entries" (pos u.write_entries) (pos l.write_entries) in
    let e5 =
      check_limit-empty o4 "ledger_entries" (pos (ledger_entries u)) (pos l.ledger_entries) in
    let e6 =
      check_limit-empty o5 "disk_read_bytes" (pos u.disk_read_bytes) (pos l.disk_read_bytes) in
    let e7 = check_limit-empty o6 "write_bytes" (pos u.write_bytes) (pos l.write_bytes) in
    let e8 =
      check_limit-empty o7 "contract_events_size_bytes" (pos u.contract_events_size_bytes)
        (pos l.contract_events_size_bytes) in
    let total = ledger_entries_lem u in
    (
      λ h.
          let (h7, p8) = e8.0 h in
          let (h6, p7) = e7.0 h7 in
          let (h5, p6) = e6.0 h6 in
          let (h4, p5) = e5.0 h5 in
          let (h3, p4) = e4.0 h4 in
          let (h2, p3) = e3.0 h3 in
          let (h1, p2) = e2.0 h2 in
          let (_, p1) = e1.0 h1 in
          record {
            instructions = p1;
            mem_bytes = p2;
            disk_read_entries = omega (arith, p3);
            write_entries = omega (arith, p4);
            ledger_entries = omega (arith, p5, total);
            disk_read_bytes = omega (arith, p6);
            write_bytes = omega (arith, p7);
            contract_events_size_bytes = omega (arith, p8);
          },
      λ w. e8.1 (
        e7.1 (
          e6.1 (
            e5.1 (
              e4.1 (
                e3.1 (
                  e2.1 (e1.1 (refl, w.instructions), w.mem_bytes),
                  omega (arith, w.disk_read_entries),
                ),
                omega (arith, w.write_entries),
              ),
              omega (arith, w.ledger_entries, total),
            ),
            omega (arith, w.disk_read_bytes),
          ),
          omega (arith, w.write_bytes),
        ),
        omega (arith, w.contract_events_size_bytes),
      ),
    )

breaches_sound : (u : ResourceUsage) (l : ResourceLimits) → All Exceeded (breaches u l)
unfolding breaches
breaches_sound u l = search (check_limit_sound, tt) depth 12

-- Every breach that is listed is of a limit below the use, and none is listed exactly when the use
-- is within all eight limits, of which the footprint's is for the sum of reads and writes as far as
-- a `u32` counts.
pub breaches_exact :
    (u : ResourceUsage) (l : ResourceLimits)
    → All Exceeded (breaches u l) × ((first_breach u l ≡ none) ↔ Within u l)
unfolding first_breach
breaches_exact u l = (
  breaches_sound u l,
  (
    (λ h. (breaches-empty u l).0 ((head?-none (breaches u l)).0 h)),
    λ w. (head?-none (breaches u l)).1 ((breaches-empty u l).1 w),
  ),
)
