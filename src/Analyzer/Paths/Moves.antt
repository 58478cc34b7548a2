-- ===== src/Analyzer/Paths/Moves.antt =====
-- One move of the threads of `analyze_paths` of soroban-analyzer/src/lib.rs, as a step relation.
use soroban_fuzzer.Prelude.{
  ℕ, zero, suc, ◌+◌, ◌≤◌, ◌<◌, ◌≡◌, refl, ap, ◌∙◌, inl, inr, Option, none, some, List, [], ◌∷◌,
  ◌++◌, ltb, Bool-cases, arith,
}
use soroban_fuzzer.Prelude.Order.{nat_ord}
use soroban_fuzzer.Analyzer.Paths.Pool.{
  Worker, ready, holding, stopped, Pool, advance_worker, advance_thread, pool_of, tick, put_back,
  in_front,
}

module _ {R : Type 0} (files : ℕ) (analyse : ℕ → R) where
  -- A thread claims an index, leaves its loop, or hands in a result.
  pub data Move (p q : Pool R) : Type 0 where
    claim :
        (xs ys : List Worker)
        → p.workers ≡ xs ++ ready ∷ ys
        → p.next < files
        → q
          ≡ record { next = p.next + 1; workers = xs ++ holding p.next ∷ ys; outcomes = p.outcomes }
        → Move p q
    leave :
        (xs ys : List Worker)
        → p.workers ≡ xs ++ ready ∷ ys
        → files ≤ p.next
        → q ≡ record { next = p.next + 1; workers = xs ++ stopped ∷ ys; outcomes = p.outcomes }
        → Move p q
    hand_in :
        (i : ℕ) (xs ys : List Worker)
        → p.workers ≡ xs ++ holding i ∷ ys
        → q ≡ record {
          next = p.next;
          workers = xs ++ ready ∷ ys;
          outcomes = p.outcomes ++ (i, analyse i) ∷ [];
        }
        → Move p q

  abbrev pub Shape : Type 0
  Shape = List Worker × ℕ × List (ℕ × R)

  -- One thread moved, and the others stand where they stood.
  abbrev pub Changed : List Worker → ℕ → List (ℕ × R) → Shape → Type 0
  Changed ws next done r =
      (xs : List Worker) × (ys : List Worker) × (w : Worker) × (s : Worker × ℕ × List (ℕ × R)) × (ws
        ≡ xs ++ w ∷ ys)
      × (advance_worker files analyse w next done ≡ some s)
      × (r ≡ (xs ++ s.0 ∷ ys, s.1, s.2))

  in_front-some :
      (ws : List Worker) (o : Option (Worker × ℕ × List (ℕ × R))) (r : Shape)
      → in_front files analyse ws o ≡ some r
      → (s : Worker × ℕ × List (ℕ × R)) × (o ≡ some s) × (r ≡ (s.0 ∷ ws, s.1, s.2))
  unfolding in_front
  in_front-some ws none r h = absurd (cc)
  in_front-some ws (some (w, next, done)) r h = ((w, next, done), refl, ground arith)

  put_back-some :
      (w : Worker) (o : Option Shape) (r : Shape)
      → put_back files analyse w o ≡ some r
      → (s : Shape) × (o ≡ some s) × (r ≡ (w ∷ s.0, s.1, s.2))
  unfolding put_back
  put_back-some w none r h = absurd (cc)
  put_back-some w (some (ws, next, done)) r h = ((ws, next, done), refl, ground arith)

  grow :
      (w : Worker) (ws : List Worker) (next : ℕ) (done : List (ℕ × R)) (s r : Shape)
      → r ≡ (w ∷ s.0, s.1, s.2)
      → Changed ws next done s
      → Changed (w ∷ ws) next done r
  grow w ws next done s r e (xs, ys, v, t, at, step, out) =
      (w ∷ xs, ys, v, t, ap (λ l. w ∷ l) at, step, e ∙ ap (λ (u : Shape). (w ∷ u.0, u.1, u.2)) out)

  advance_thread-Changed :
      (k : ℕ) (ws : List Worker) (next : ℕ) (done : List (ℕ × R)) (r : Shape)
      → advance_thread files analyse k ws next done ≡ some r
      → Changed ws next done r
  unfolding advance_thread
  advance_thread-Changed k [] next done r h = absurd (cc)
  advance_thread-Changed zero (w ∷ ws) next done r h =
      let found = in_front-some ws (advance_worker files analyse w next done) r h in
      ([], ws, w, found.0, refl, found.1, found.2)
  advance_thread-Changed (suc k) (w ∷ ws) next done r h =
      let found = put_back-some w (advance_thread files analyse k ws next done) r h in
      grow w ws next done found.0 r found.2 (advance_thread-Changed k ws next done found.0 found.1)

  pool_of-some :
      (o : Option Shape) (q : Pool R)
      → pool_of files analyse o ≡ some q
      → (s : Shape) × (o ≡ some s) × (q ≡ record { next = s.1; workers = s.0; outcomes = s.2 })
  unfolding pool_of
  pool_of-some none q h = absurd (cc)
  pool_of-some (some (ws, next, done)) q h = ((ws, next, done), refl, ground arith)

  Changed-Move :
      (p q : Pool R) (s : Shape)
      → q ≡ record { next = s.1; workers = s.0; outcomes = s.2 }
      → Changed p.workers p.next p.outcomes s
      → Move p q
  unfolding advance_worker
  Changed-Move p q s e (xs, ys, stopped, t, at, step, out) = absurd (cc)
  Changed-Move p q s e (xs, ys, holding i, t, at, step, out) = hand_in i xs ys at (ground arith)
  Changed-Move p q s e (xs, ys, ready, t, at, step, out) = elim (Bool-cases (ltb p.next files)) [
    | inl b ↦ claim xs ys at (ground arith) (ground arith)
    | inr b ↦ leave xs ys at (ground arith) (ground arith)
  ]

  pub tick-Move : (k : ℕ) (p q : Pool R) → tick files analyse k p ≡ some q → Move p q
  unfolding tick
  tick-Move k p q h =
      let found = pool_of-some (advance_thread files analyse k p.workers p.next p.outcomes) q h in
      Changed-Move p q found.0 found.2
        (advance_thread-Changed k p.workers p.next p.outcomes found.0 found.1)
