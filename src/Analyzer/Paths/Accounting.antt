-- ===== src/Analyzer/Paths/Accounting.antt =====
-- The indexes that the threads of `analyze_paths` of soroban-analyzer/src/lib.rs claim, hold and
-- answer.
use mathlib.Core.List.{append_assoc, map-append}
use soroban_fuzzer.Prelude.{
  ℕ, zero, suc, ◌+◌, ◌≤◌, ◌<◌, min, ◌≡◌, refl, sym, ap, ◌∙◌, subst, some, List, [], ◌∷◌, ◌++◌, map,
  arith,
}
use soroban_fuzzer.Prelude.Order.{nat_ord}
use soroban_fuzzer.Prelude.Sort.{insert_by, sort_by, sort, sort_middle, upto, insert-from}
use soroban_fuzzer.Analyzer.Paths.Pool.{
  Worker, ready, holding, stopped, Pool, tick, start_pool, replicate, Reaches, here, moved,
}
use soroban_fuzzer.Analyzer.Paths.Moves.{Move, claim, leave, hand_in, tick-Move}

abbrev pub held : List Worker → List ℕ
held [] = []
held (ready ∷ ws) = held ws
held (holding i ∷ ws) = i ∷ held ws
held (stopped ∷ ws) = held ws

-- How many threads have left their loop.
abbrev pub left : List Worker → ℕ
left [] = 0
left (ready ∷ ws) = left ws
left (holding i ∷ ws) = left ws
left (stopped ∷ ws) = suc (left ws)

held-append : (xs ys : List Worker) → held (xs ++ ys) ≡ held xs ++ held ys
held-append [] ys = refl
held-append (ready ∷ xs) ys = held-append xs ys
held-append (holding i ∷ xs) ys = ap (λ l. i ∷ l) (held-append xs ys)
held-append (stopped ∷ xs) ys = held-append xs ys

left-append : (xs ys : List Worker) → left (xs ++ ys) ≡ left xs + left ys
left-append [] ys = omega arith
left-append (ready ∷ xs) ys = left-append xs ys
left-append (holding i ∷ xs) ys = left-append xs ys
left-append (stopped ∷ xs) ys = omega (arith, left-append xs ys)

insert_last : (n : ℕ) → insert_by nat_ord.cmp n (upto n) ≡ upto (suc n)
insert_last n = ap (λ k. insert_by nat_ord.cmp k (upto n)) (omega arith) ∙ insert-from 0 n

none_out : (files : ℕ) → [] ≡ upto (min 0 files)
none_out files = let e : 0 ≡ min 0 files = omega arith in ap upto e

module _ {R : Type 0} where
  abbrev pub indexes : List (ℕ × R) → List ℕ
  indexes done = map (λ o. o.0) done

  -- An index that a thread holds stands in the middle of all that are out.
  out_holding :
      (done : List (ℕ × R)) (i : ℕ) (xs ys : List Worker)
      → sort (indexes done ++ held (xs ++ holding i ∷ ys))
        ≡ insert_by nat_ord.cmp i (sort (indexes done ++ (held xs ++ held ys)))
  out_holding done i xs ys =
      ap (λ l. sort (indexes done ++ l)) (held-append xs (holding i ∷ ys))
      ∙ ap sort (sym (append_assoc (indexes done) (held xs) (i ∷ held ys)))
      ∙ sort_middle (indexes done ++ held xs) i (held ys)
      ∙ ap (λ l. insert_by nat_ord.cmp i (sort l)) (append_assoc (indexes done) (held xs) (held ys))

  out_idle :
      (done : List (ℕ × R)) (xs ys : List Worker)
      → sort (indexes done ++ held (xs ++ ready ∷ ys)) ≡ sort (indexes done ++ (held xs ++ held ys))
  out_idle done xs ys = ap (λ l. sort (indexes done ++ l)) (held-append xs (ready ∷ ys))

  out_stopped :
      (done : List (ℕ × R)) (xs ys : List Worker)
      → sort (indexes done ++ held (xs ++ stopped ∷ ys))
        ≡ sort (indexes done ++ (held xs ++ held ys))
  out_stopped done xs ys = ap (λ l. sort (indexes done ++ l)) (held-append xs (stopped ∷ ys))

  out_done :
      (done : List (ℕ × R)) (i : ℕ) (r : R) (xs ys : List Worker)
      → sort (indexes (done ++ (i, r) ∷ []) ++ held (xs ++ ready ∷ ys))
        ≡ insert_by nat_ord.cmp i (sort (indexes done ++ (held xs ++ held ys)))
  out_done done i r xs ys =
      ap (λ l. sort (indexes (done ++ (i, r) ∷ []) ++ l)) (held-append xs (ready ∷ ys))
      ∙ ap (λ l. sort (l ++ (held xs ++ held ys)))
          (map-append (λ (o : ℕ × R). o.0) done ((i, r) ∷ []))
      ∙ ap sort (append_assoc (indexes done) (i ∷ []) (held xs ++ held ys))
      ∙ sort_middle (indexes done) i (held xs ++ held ys)

module _ {R : Type 0} (files : ℕ) (analyse : ℕ → R) where
  -- The claimed indexes are out once each, the results are the analyses, and a thread leaves only
  -- when the indexes have run out.
  pub record IsAccounted (p : Pool R) : Type 0 where
    pub out : sort (indexes p.outcomes ++ held p.workers) ≡ upto (min p.next files)
    pub analysed : p.outcomes ≡ map (λ i. (i, analyse i)) (indexes p.outcomes)
    pub ran_out : 0 < left p.workers → files ≤ p.next

  -- The fields, for a pool that is written out.
  abbrev pub Accounts : ℕ → List Worker → List (ℕ × R) → Type 0
  Accounts next ws done =
      (sort (indexes done ++ held ws) ≡ upto (min next files))
      × (done ≡ map (λ i. (i, analyse i)) (indexes done))
      × (0 < left ws → files ≤ next)

  claim-Accounts :
      (next : ℕ) (xs ys : List Worker) (done : List (ℕ × R))
      → next < files
      → Accounts next (xs ++ ready ∷ ys) done
      → Accounts (next + 1) (xs ++ holding next ∷ ys) done
  claim-Accounts next xs ys done lt (out, analysed, ran_out) = (
    out_holding done next xs ys
        ∙ ap (insert_by nat_ord.cmp next) (sym (out_idle done xs ys) ∙ out ∙ ap upto (omega arith))
        ∙ insert_last next
        ∙ ap upto {x = suc next} (omega arith),
    analysed,
    λ h. absurd (
        omega (
          arith,
          ran_out (omega (arith, left-append xs (ready ∷ ys), left-append xs (holding next ∷ ys))),
        )),
  )

  leave-Accounts :
      (next : ℕ) (xs ys : List Worker) (done : List (ℕ × R))
      → files ≤ next
      → Accounts next (xs ++ ready ∷ ys) done
      → Accounts (next + 1) (xs ++ stopped ∷ ys) done
  leave-Accounts next xs ys done le (out, analysed, ran_out) = (
    out_stopped done xs ys ∙ sym (out_idle done xs ys) ∙ out ∙ ap upto (omega arith),
    analysed,
    λ h. omega arith,
  )

  hand_in-Accounts :
      (next i : ℕ) (xs ys : List Worker) (done : List (ℕ × R))
      → Accounts next (xs ++ holding i ∷ ys) done
      → Accounts next (xs ++ ready ∷ ys) (done ++ (i, analyse i) ∷ [])
  hand_in-Accounts next i xs ys done (out, analysed, ran_out) = (
    out_done done i (analyse i) xs ys ∙ sym (out_holding done i xs ys) ∙ out,
    ap (λ l. l ++ (i, analyse i) ∷ []) analysed
        ∙ sym (map-append (λ (j : ℕ). (j, analyse j)) (indexes done) (i ∷ []))
        ∙ ap (map (λ j. (j, analyse j)))
            (sym (map-append (λ (o : ℕ × R). o.0) done ((i, analyse i) ∷ []))),
    λ h. ran_out (omega (arith, left-append xs (ready ∷ ys), left-append xs (holding i ∷ ys))),
  )

  abbrev AccountsOf : Pool R → Type 0
  AccountsOf p = Accounts p.next p.workers p.outcomes

  at_workers :
      (p : Pool R) (ws : List Worker)
      → p.workers ≡ ws
      → AccountsOf p
      → Accounts p.next ws p.outcomes
  at_workers p ws e a = subst (λ l. Accounts p.next l p.outcomes) e a

  Move-AccountsOf : (p q : Pool R) → Move files analyse p q → AccountsOf p → AccountsOf q
  Move-AccountsOf p q (claim xs ys at lt e) a =
      subst AccountsOf (sym e)
        (claim-Accounts p.next xs ys p.outcomes lt (at_workers p (xs ++ ready ∷ ys) at a))
  Move-AccountsOf p q (leave xs ys at le e) a =
      subst AccountsOf (sym e)
        (leave-Accounts p.next xs ys p.outcomes le (at_workers p (xs ++ ready ∷ ys) at a))
  Move-AccountsOf p q (hand_in i xs ys at e) a =
      subst AccountsOf (sym e)
        (hand_in-Accounts p.next i xs ys p.outcomes (at_workers p (xs ++ holding i ∷ ys) at a))

  -- Every move of every thread keeps the account.
  pub tick-IsAccounted :
      (k : ℕ) (p q : Pool R) → tick files analyse k p ≡ some q → IsAccounted p → IsAccounted q
  tick-IsAccounted k p q h a =
      let b =
        Move-AccountsOf p q (tick-Move files analyse k p q h) (a.out, a.analysed, a.ran_out) in
      record { out = b.0; analysed = b.1; ran_out = b.2 }

  held-replicate : (count : ℕ) → held (replicate count ready) ≡ []
  held-replicate zero = refl
  held-replicate (suc count) = held-replicate count

  left-replicate : (count : ℕ) → left (replicate count ready) ≡ 0
  left-replicate zero = refl
  left-replicate (suc count) = left-replicate count

  pub start_pool-IsAccounted : (count : ℕ) → IsAccounted (start_pool count)
  unfolding start_pool sort_by
  start_pool-IsAccounted count = record {
    out = ap (sort_by nat_ord.cmp) (held-replicate count) ∙ none_out files;
    analysed = refl;
    ran_out = λ h. absurd (omega (arith, left-replicate count));
  }

  pub Reaches-IsAccounted :
      (count m : ℕ) (p : Pool R) → Reaches files analyse (start_pool count) m p → IsAccounted p
  Reaches-IsAccounted count m p here = start_pool-IsAccounted count
  Reaches-IsAccounted count m p (moved k r step) =
      tick-IsAccounted k _ p step (Reaches-IsAccounted count _ _ r)
