-- ===== src/Analyzer/Paths/Pool.antt =====
-- The threads of `analyze_paths` of soroban-analyzer/src/lib.rs. Each claims the next index by
-- `fetch_add`, analyses that file and pushes the result under the lock, until the indexes run out.
-- One move of one thread is a function, and a run is any sequence of moves.
use soroban_fuzzer.Prelude.{
  ℕ, zero, suc, ◌+◌, max, ◌≡◌, Option, none, some, List, [], ◌∷◌, ◌++◌, ltb, if◌then◌else◌,
}
use soroban_fuzzer.Prelude.Order.{nat_ord}
use soroban_fuzzer.Prelude.Sort.{sort_by}

-- Where a thread stands in its loop.
pub data Worker : Type 0 where
  ready : Worker
  holding : ℕ → Worker
  stopped : Worker

-- What the threads share: the counter and the results, with the threads themselves.
pub record Pool (R : Type 0) : Type 0 where
  pub next : ℕ
  pub workers : List Worker
  pub outcomes : List (ℕ × R)

-- `jobs.clamp(1, files.len().max(1))`
unfoldable pub worker_count : ℕ → ℕ → ℕ
worker_count jobs files =
    if ltb jobs 1 then 1 else if ltb (max files 1) jobs then max files 1 else jobs

abbrev pub replicate {ℓ} : {A : Type ℓ} → ℕ → A → List A
replicate zero a = []
replicate (suc n) a = a ∷ replicate n a

unfoldable pub start_pool : {R : Type 0} → ℕ → Pool R
start_pool count = record { next = 0; workers = replicate count ready; outcomes = [] }

module _ {R : Type 0} (files : ℕ) (analyse : ℕ → R) where
  -- The next move of one thread, with what it leaves in the counter and in the results.
  unfoldable pub advance_worker : Worker → ℕ → List (ℕ × R) → Option (Worker × ℕ × List (ℕ × R))
  advance_worker ready next done =
      some (if ltb next files then (holding next, next + 1, done) else (stopped, next + 1, done))
  advance_worker (holding i) next done = some (ready, next, done ++ (i, analyse i) ∷ [])
  advance_worker stopped next done = none

  unfoldable pub put_back :
      Worker → Option (List Worker × ℕ × List (ℕ × R)) → Option (List Worker × ℕ × List (ℕ × R))
  put_back w none = none
  put_back w (some (ws, next, done)) = some (w ∷ ws, next, done)

  unfoldable pub in_front :
      List Worker → Option (Worker × ℕ × List (ℕ × R)) → Option (List Worker × ℕ × List (ℕ × R))
  in_front ws none = none
  in_front ws (some (w, next, done)) = some (w ∷ ws, next, done)

  -- The move of the thread with a number.
  unfoldable pub advance_thread :
      ℕ → List Worker → ℕ → List (ℕ × R) → Option (List Worker × ℕ × List (ℕ × R))
  unfolding put_back in_front advance_worker
  advance_thread k [] next done = none
  advance_thread zero (w ∷ ws) next done = in_front ws (advance_worker w next done)
  advance_thread (suc k) (w ∷ ws) next done = put_back w (advance_thread k ws next done)

  unfoldable pub pool_of : Option (List Worker × ℕ × List (ℕ × R)) → Option (Pool R)
  pool_of none = none
  pool_of (some (ws, next, done)) = some (record { next = next; workers = ws; outcomes = done })

  unfoldable pub tick : ℕ → Pool R → Option (Pool R)
  unfolding advance_thread pool_of
  tick k p = pool_of (advance_thread k p.workers p.next p.outcomes)

  -- A run of so many moves, in whatever order the threads make them.
  pub data Reaches (p : Pool R) : ℕ → Pool R → Type 0 where
    here : Reaches p 0 p
    moved : {m : ℕ} {q r : Pool R} (k : ℕ) → Reaches p m q → tick k q ≡ some r → Reaches p (suc m) r

-- Every thread has left its loop, as the end of `thread::scope` waits for.
abbrev pub AllStopped : List Worker → Type 0
AllStopped [] = Unit
AllStopped (stopped ∷ ws) = AllStopped ws
AllStopped (ready ∷ ws) = ⊥
AllStopped (holding i ∷ ws) = ⊥

-- `outcomes.sort_by_key(|(index, _)| *index)`
unfoldable pub in_order : {R : Type 0} → List (ℕ × R) → List (ℕ × R)
unfolding sort_by
in_order outcomes = sort_by (λ p q. nat_ord.cmp p.0 q.0) outcomes

-- The loop of a run with one worker.
unfoldable pub one_by_one : {R : Type 0} → (ℕ → R) → List ℕ → List (ℕ × R)
one_by_one analyse [] = []
one_by_one analyse (i ∷ rest) = (i, analyse i) ∷ one_by_one analyse rest
