-- ===== src/Analyzer/Paths/Remaining.antt =====
-- The moves that the threads of `analyze_paths` have left, and how many threads there are.
use soroban_fuzzer.Prelude.{
  ℕ, zero, suc, ◌+◌, ◌-◌, ◌*◌, ◌≡◌, refl, sym, ap, ◌∙◌, List, [], ◌∷◌, ◌++◌, arith, length,
}
use soroban_fuzzer.Prelude.Order.{nat_ord}
use soroban_fuzzer.Analyzer.Paths.Pool.{
  Worker, ready, holding, stopped, Pool, start_pool, replicate, Reaches, here, moved,
}
use soroban_fuzzer.Analyzer.Paths.Moves.{Move, claim, leave, hand_in, tick-Move}

-- The moves that the threads still owe, those for further indexes apart.
abbrev pub owed : List Worker → ℕ
owed [] = 0
owed (ready ∷ ws) = 1 + owed ws
owed (holding i ∷ ws) = 2 + owed ws
owed (stopped ∷ ws) = owed ws

owed-append : (xs ys : List Worker) → owed (xs ++ ys) ≡ owed xs + owed ys
owed-append [] ys = omega arith
owed-append (ready ∷ xs) ys = omega (arith, owed-append xs ys)
owed-append (holding i ∷ xs) ys = omega (arith, owed-append xs ys)
owed-append (stopped ∷ xs) ys = owed-append xs ys

pub owed-replicate : (count : ℕ) → owed (replicate count ready) ≡ count
owed-replicate zero = refl
owed-replicate (suc count) = omega (arith, owed-replicate count)

length-replicate : (count : ℕ) → length (replicate count ready) ≡ count
length-replicate zero = refl
length-replicate (suc count) = ap suc (length-replicate count)

same_crew : (xs ys : List Worker) (v w : Worker) → length (xs ++ v ∷ ys) ≡ length (xs ++ w ∷ ys)
same_crew [] ys v w = refl
same_crew (x ∷ xs) ys v w = ap suc (same_crew xs ys v w)

module _ {R : Type 0} (files : ℕ) (analyse : ℕ → R) where
  -- The moves still to come.
  abbrev pub to_come : Pool R → ℕ
  to_come p = 2 * (files - p.next) + owed p.workers

  Move-to_come : (p q : Pool R) → Move files analyse p q → to_come p ≡ suc (to_come q)
  Move-to_come p q (claim xs ys at lt e) = omega (
    arith,
    ap to_come e,
    ap owed at,
    owed-append xs (ready ∷ ys),
    owed-append xs (holding p.next ∷ ys),
  )
  Move-to_come p q (leave xs ys at le e) =
      omega (
        arith,
        ap to_come e,
        ap owed at,
        owed-append xs (ready ∷ ys),
        owed-append xs (stopped ∷ ys),
      )
  Move-to_come p q (hand_in i xs ys at e) = omega (
    arith,
    ap to_come e,
    ap owed at,
    owed-append xs (ready ∷ ys),
    owed-append xs (holding i ∷ ys),
  )

  pub Reaches-to_come :
      (p : Pool R) (m : ℕ) (q : Pool R) → Reaches files analyse p m q → m + to_come q ≡ to_come p
  Reaches-to_come p m q here = omega arith
  Reaches-to_come p m q (moved {q = r} k before step) =
      omega
        (arith, Reaches-to_come p _ _ before, Move-to_come r q (tick-Move files analyse k r q step))

  Move-length : (p q : Pool R) → Move files analyse p q → length q.workers ≡ length p.workers
  Move-length p q (claim xs ys at lt e) =
      ap (λ r. length (Pool.workers r)) e
      ∙ same_crew xs ys (holding p.next) ready
      ∙ sym (ap length at)
  Move-length p q (leave xs ys at le e) =
      ap (λ r. length (Pool.workers r)) e ∙ same_crew xs ys stopped ready ∙ sym (ap length at)
  Move-length p q (hand_in i xs ys at e) =
      ap (λ r. length (Pool.workers r)) e ∙ same_crew xs ys ready (holding i) ∙ sym (ap length at)

  pub Reaches-length :
      (count m : ℕ) (p : Pool R)
      → Reaches files analyse (start_pool count) m p
      → length p.workers ≡ count
  unfolding start_pool
  Reaches-length count m p here = length-replicate count
  Reaches-length count m p (moved {q = r} k before step) =
      Move-length r p (tick-Move files analyse k r p step) ∙ Reaches-length count _ r before
