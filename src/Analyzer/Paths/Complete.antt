-- ===== src/Analyzer/Paths/Complete.antt =====
-- The runs of the threads of `analyze_paths` of soroban-analyzer/src/lib.rs: their length and their
-- end.
use mathlib.Core.List.{append-nil}
use soroban_fuzzer.Prelude.{
  ℕ, zero, suc, ◌+◌, ◌-◌, ◌*◌, ◌≤◌, ◌<◌, ◌≡◌, ◌↔◌, refl, sym, ap, ◌∙◌, subst, some, List, [], ◌∷◌,
  ◌++◌, map, arith, length, ◌⊎◌, inl, inr,
}
use soroban_fuzzer.Prelude.Order.{nat_ord}
use soroban_fuzzer.Prelude.Sort.{sort, upto, sort-from, sort_by-map}
use soroban_fuzzer.Analyzer.Paths.Pool.{
  Worker, ready, holding, stopped, Pool, advance_worker, advance_thread, put_back, in_front,
  pool_of, tick, start_pool, Reaches, here, moved, AllStopped, in_order, one_by_one,
}
use soroban_fuzzer.Analyzer.Paths.Accounting.{held, left, indexes, IsAccounted, Reaches-IsAccounted}
use soroban_fuzzer.Analyzer.Paths.Remaining.{
  owed, to_come, owed-replicate, Reaches-to_come, Reaches-length,
}

held-AllStopped : (ws : List Worker) → AllStopped ws → held ws ≡ []
held-AllStopped [] h = refl
held-AllStopped (ready ∷ ws) h = absurd h
held-AllStopped (holding i ∷ ws) h = absurd h
held-AllStopped (stopped ∷ ws) h = held-AllStopped ws h

left-AllStopped : (ws : List Worker) → AllStopped ws → left ws ≡ length ws
left-AllStopped [] h = refl
left-AllStopped (ready ∷ ws) h = absurd h
left-AllStopped (holding i ∷ ws) h = absurd h
left-AllStopped (stopped ∷ ws) h = ap suc (left-AllStopped ws h)

owed-AllStopped : (ws : List Worker) → (AllStopped ws) ↔ (owed ws ≡ 0)
owed-AllStopped [] = (λ h. refl, λ h. tt)
owed-AllStopped (ready ∷ ws) = (λ h. absurd h, λ h. absurd (omega (arith, h)))
owed-AllStopped (holding i ∷ ws) = (λ h. absurd h, λ h. absurd (omega (arith, h)))
owed-AllStopped (stopped ∷ ws) = owed-AllStopped ws

zero_or : (n : ℕ) → (n ≡ 0) ⊎ (0 < n)
zero_or zero = inl refl
zero_or (suc n) = inr (omega arith)

one_by_one-map :
    {R : Type 0} (analyse : ℕ → R) (l : List ℕ) → one_by_one analyse l ≡ map (λ i. (i, analyse i)) l
unfolding one_by_one
one_by_one-map analyse [] = refl
one_by_one-map analyse (i ∷ l) = ap (λ t. (i, analyse i) ∷ t) (one_by_one-map analyse l)

module _ {R : Type 0} (files : ℕ) (analyse : ℕ → R) where
  in_order-map :
      (l : List ℕ) → in_order (map (λ i. (i, analyse i)) l) ≡ map (λ i. (i, analyse i)) (sort l)
  unfolding in_order
  in_order-map l = sort_by-map (λ i. (i, analyse i)) (λ p q. nat_ord.cmp p.0 q.0) l

  -- The single-threaded loop hands the results over in order already.
  pub in_order-one_by_one :
      in_order (one_by_one analyse (upto files)) ≡ one_by_one analyse (upto files)
  in_order-one_by_one =
      ap in_order (one_by_one-map analyse (upto files))
      ∙ in_order-map (upto files)
      ∙ ap (map (λ i. (i, analyse i))) (sort-from 0 files)
      ∙ sym (one_by_one-map analyse (upto files))

  all_indexes :
      (p : Pool R)
      → IsAccounted files analyse p
      → 0 < length p.workers
      → AllStopped p.workers
      → sort (indexes p.outcomes) ≡ upto files
  all_indexes p a some_one over =
      ap sort (sym (append-nil (indexes p.outcomes)))
      ∙ ap (λ l. sort (indexes p.outcomes ++ l)) (sym (held-AllStopped p.workers over))
      ∙ a.out
      ∙ ap upto (omega (arith, a.ran_out (omega (arith, left-AllStopped p.workers over))))

  pub ended_run :
      (count m : ℕ) (p : Pool R)
      → 0 < count
      → Reaches files analyse (start_pool count) m p
      → AllStopped p.workers
      → in_order p.outcomes ≡ one_by_one analyse (upto files)
  ended_run count m p some_one run over =
      let a = Reaches-IsAccounted files analyse count m p run in
      ap in_order a.analysed
      ∙ in_order-map (indexes p.outcomes)
      ∙ ap (map (λ i. (i, analyse i)))
          (all_indexes p a (omega (arith, Reaches-length files analyse count m p run)) over)
      ∙ sym (one_by_one-map analyse (upto files))

  start_pool-to_come : (count : ℕ) → to_come files analyse (start_pool count) ≡ 2 * files + count
  unfolding start_pool
  start_pool-to_come count = omega (arith, owed-replicate count)

  -- Of at least one thread: a run of the threads makes at most two moves for each file and one for
  -- each thread, and every thread has left its loop exactly when that many moves have been made.
  pub run_length :
      (count m : ℕ) (p : Pool R)
      → 0 < count
      → Reaches files analyse (start_pool count) m p
      → (m ≤ 2 * files + count) × (AllStopped p.workers ↔ (m ≡ 2 * files + count))
  run_length count m p some_one run =
      let a = Reaches-IsAccounted files analyse count m p run in
      let total : m + to_come files analyse p ≡ 2 * files + count =
        Reaches-to_come files analyse (start_pool count) m p run ∙ start_pool-to_come count in
      (
        omega arith,
        (
          λ over. omega (
            arith,
            total,
            a.ran_out (
                omega (
                  arith,
                  left-AllStopped p.workers over,
                  Reaches-length files analyse count m p run,
                )),
            (owed-AllStopped p.workers).0 over,
          ),
          λ e. (owed-AllStopped p.workers).1 (omega (arith, total)),
        ),
      )

  -- A thread that has not left its loop can make its next move, whatever the others do.
  worker_moves :
      (w : Worker) (next : ℕ) (done : List (ℕ × R))
      → 0 < owed (w ∷ [])
      → (s : Worker × ℕ × List (ℕ × R)) × (advance_worker files analyse w next done ≡ some s)
  unfolding advance_worker
  worker_moves ready next done h = (_, refl)
  worker_moves (holding i) next done h = (_, refl)
  worker_moves stopped next done h = absurd (omega (arith, h))

  some-advance_thread :
      (ws : List Worker) (next : ℕ) (done : List (ℕ × R))
      → 0 < owed ws
      → (k : ℕ) × (s : List Worker × ℕ × List (ℕ × R)) × (advance_thread files analyse k ws next
            done
          ≡ some s)
  unfolding advance_thread put_back in_front
  some-advance_thread [] next done h = absurd (omega (arith, h))
  some-advance_thread (ready ∷ ws) next done h =
      let s = worker_moves ready next done (omega arith) in
      (0, _, ap (in_front files analyse ws) s.1)
  some-advance_thread (holding i ∷ ws) next done h =
      let s = worker_moves (holding i) next done (omega arith) in
      (0, _, ap (in_front files analyse ws) s.1)
  some-advance_thread (stopped ∷ ws) next done h =
      let s = some-advance_thread ws next done h in
      (suc s.0, _, ap (put_back files analyse stopped) s.2)

  progress :
      (p : Pool R) → 0 < owed p.workers → (k : ℕ) × (q : Pool R) × (tick files analyse k p ≡ some q)
  unfolding tick pool_of
  progress p h =
      let s = some-advance_thread p.workers p.next p.outcomes h in
      (s.0, _, ap (pool_of files analyse) s.2)

  still_owes :
      (count m : ℕ) (p : Pool R)
      → 0 < count
      → Reaches files analyse (start_pool count) m p
      → m < 2 * files + count
      → 0 < owed p.workers
  still_owes count m p some_one run short = elim (zero_or (owed p.workers)) [
    | inr h ↦ h
    | inl e ↦
        absurd
          (omega (arith, (run_length count m p some_one run).1.0 ((owed-AllStopped p.workers).1 e)))
  ]

  -- From `p`, through `q` that `j` moves have led to.
  finish_from :
      (count rest m j : ℕ) (p q : Pool R)
      → 0 < count
      → Reaches files analyse (start_pool count) m q
      → Reaches files analyse p j q
      → m + rest ≡ 2 * files + count
      → (r : Pool R) × Reaches files analyse p (j + rest) r × AllStopped r.workers
  finish_from count zero m j p q some_one run since e =
      let whole : m ≡ 2 * files + count = omega arith in
      let same_number : j ≡ j + 0 = omega arith in
      (
        q,
        subst (λ (n : ℕ). Reaches files analyse p n q) same_number since,
        (run_length count m q some_one run).1.1 whole,
      )
  finish_from count (suc rest) m j p q some_one run since e =
      let short : m < 2 * files + count = omega arith in
      let next = progress q (still_owes count m q some_one run short) in
      let done =
        finish_from count rest (suc m) (suc j) p next.1 some_one (moved next.0 run next.2)
          (moved next.0 since next.2) (omega arith) in
      let same_number : suc j + rest ≡ j + suc rest = omega arith in
      (done.0, subst (λ (n : ℕ). Reaches files analyse p n done.0) same_number done.1, done.2)

  -- Of at least one thread: whatever moves the threads have made so far, they can go on until
  -- every thread has left its loop, and the moves before and after are together two for each file
  -- and one for each thread.
  pub can_finish :
      (count m : ℕ) (p : Pool R)
      → 0 < count
      → Reaches files analyse (start_pool count) m p
      → (r : Pool R) × Reaches files analyse p (2 * files + count - m) r × AllStopped r.workers
  can_finish count m p some_one run =
      let within = (run_length count m p some_one run).0 in
      let same_number : 0 + (2 * files + count - m) ≡ 2 * files + count - m = omega arith in
      let done =
        finish_from count (2 * files + count - m) m 0 p p some_one run here (omega arith) in
      (done.0, subst (λ (n : ℕ). Reaches files analyse p n done.0) same_number done.1, done.2)
