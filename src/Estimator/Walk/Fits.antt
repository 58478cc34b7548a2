-- ===== src/Estimator/Walk/Fits.antt =====
-- The depth guard and the path of `walk` in soroban-budget/src/estimate.rs.
use soroban_fuzzer.Prelude.{
  ℕ, zero, suc, ◌+◌, ◌<◌, ◌≡◌, refl, ◌↔◌, inl, inr, true, false, Option, none, some, List, [], ◌∷◌,
  foldl, arith, ◌==◌, ==_iff, any, All-imp, Bool-cases, Option-cases, All, In, All-In, String,
  subst, sym,
}
use soroban_fuzzer.Prelude.BTree.{set_contains}
use soroban_fuzzer.Estimator.Module.Facts.{FunctionFacts, Module, function}
use soroban_fuzzer.Estimator.Estimate.{
  in_recursion, unbounded_ord, Walked, flag, visit, walk, start, max_depth, estimate_entry,
}
use soroban_fuzzer.Estimator.Walk.Invariant.{
  flagged, flagged-flag, walk_keeps_flag, visit_recursion, attribute_recursion, reports,
}
use soroban_fuzzer.Prelude.{foldl_inv}

-- `P` of everything that a body calls.
abbrev pub AllCalls : (ℕ → Type 0) → Option FunctionFacts → Type 0
AllCalls P none = Unit
AllCalls P (some facts) = All P facts.calls

-- Every chain of static calls from function `i` has at most `room` functions on it.
abbrev pub Fits : Module → ℕ → ℕ → Type 0
Fits m zero i = ⊥
Fits m (suc room) i = AllCalls (Fits m room) (function m i)

-- One static call, and chains of at least one.
abbrev pub Calls : Module → ℕ → ℕ → Type 0
Calls m i j = (facts : FunctionFacts) × (function m i ≡ some facts) × In j facts.calls

pub data Reaches (m : Module) (i : ℕ) : ℕ → Type 0 where
  direct : {j : ℕ} → Calls m i j → Reaches m i j
  further : {j k : ℕ} → Reaches m i j → Calls m j k → Reaches m i k

pub Fits-Calls : (m : Module) (room i j : ℕ) → Fits m (suc room) i → Calls m i j → Fits m room j
Fits-Calls m room i j h (facts, e, c) =
    All-In (Fits m room) facts.calls (subst (AllCalls (Fits m room)) e h) c

-- A callee, however far, has less room.
pub Fits-Reaches :
    (m : Module) (room i j : ℕ) → Fits m room i → Reaches m i j → (r : ℕ) × (r < room) × Fits m r j
Fits-Reaches m zero i j h r = absurd h
Fits-Reaches m (suc room) i j h (direct c) = (room, omega arith, Fits-Calls m room i j h c)
Fits-Reaches m (suc room) i k h (further {j} r c) =
    let (q, lt, f) = Fits-Reaches m (suc room) i j h r in less q lt f
  where
    less : (q : ℕ) → q < suc room → Fits m q j → (r' : ℕ) × (r' < suc room) × Fits m r' k
    less zero lt f = absurd f
    less (suc q) lt f = (q, omega arith, Fits-Calls m q j k f c)

no_cycle_below : (m : Module) (bound room i : ℕ) → room < bound → Fits m room i → ¬ Reaches m i i
no_cycle_below m zero room i lt h r = elim lt [ ]
no_cycle_below m (suc bound) room i lt h r =
    let (q, less, f) = Fits-Reaches m room i i h r in no_cycle_below m bound q i (omega arith) f r

-- A function whose calls fit is on no cycle.
pub Fits-acyclic : (m : Module) (room i : ℕ) → Fits m room i → ¬ Reaches m i i
Fits-acyclic m room i = no_cycle_below m (suc room) room i (omega arith)

-- The functions on the path reach the one that is walked.
abbrev pub AllReach : Module → List ℕ → ℕ → Type 0
AllReach m path index = All (λ p. Reaches m p index) path

-- If all of them reach it and it is on no cycle, it is not on the path.
pub not_on_path :
    (m : Module) (index : ℕ) (path : List ℕ)
    → ¬ Reaches m index index
    → AllReach m path index
    → any (λ i. i == index) path ≡ false
not_on_path m index [] acyclic h = refl
not_on_path m index (p ∷ path) acyclic h = elim (Bool-cases (p == index)) [
  | inl e ↦ absurd (acyclic (subst (λ q. Reaches m q index) ((==_iff p index).0 e) h.0))
  | inr e ↦ rw e (not_on_path m index path acyclic h.1)
]

pub extend_path :
    (m : Module) (index c : ℕ) (path : List ℕ)
    → Calls m index c
    → AllReach m path index
    → AllReach m (index ∷ path) c
extend_path m index c path call h = (direct call, All-imp (λ p r. further r call) path h)

-- The calls of one body, each walked in turn.
abbrev pub walk_calls : Module → ℕ → List ℕ → List ℕ → Walked → Walked
walk_calls m room path cs w = foldl (λ w' c. walk m room path c w') w cs

calls_unflagged :
    (m : Module) (room : ℕ) (path cs : List ℕ)
    → ((c : ℕ)
        → In c cs
        → (w : Walked) → flagged in_recursion w ≡ false
        → flagged in_recursion (walk m room path c w) ≡ false)
    → (w : Walked) → flagged in_recursion w ≡ false
    → flagged in_recursion (walk_calls m room path cs w) ≡ false
calls_unflagged m room path [] step w h = h
calls_unflagged m room path (c ∷ cs) step w h =
    calls_unflagged m room path cs (λ c' i. step c' (inr i)) _ (step c (inl refl) w h)

-- A walk that fits reports no recursion.
Fits-unflagged :
    (m : Module) (room : ℕ) (path : List ℕ) (index : ℕ) (w : Walked)
    → Fits m room index
    → AllReach m path index
    → flagged in_recursion w ≡ false
    → flagged in_recursion (walk m room path index w) ≡ false
unfolding walk
Fits-unflagged m zero path index w f r h = absurd f
Fits-unflagged m (suc room) path index w f r h =
    rw (not_on_path m index path (Fits-acyclic m (suc room) index f) r)
      (elim (Option-cases (function m index)) [
        | inl e ↦ rw e (attribute_recursion m false index w h)
        | inr (facts, e) ↦ rw e (
            calls_unflagged m room (index ∷ path) facts.calls
              (λ c i w' h'.
                Fits-unflagged m room (index ∷ path) c w'
                  (Fits-Calls m room index c f (facts, e, i))
                  (extend_path m index c path (facts, e, i) r) h')
              _ (visit_recursion m false index facts w e h))
      ])

calls_keep_flag :
    (m : Module) (room : ℕ) (path cs : List ℕ) (w : Walked)
    → flagged in_recursion w ≡ true
    → flagged in_recursion (walk_calls m room path cs w) ≡ true
calls_keep_flag m room path =
    foldl_inv (λ w. flagged in_recursion w ≡ true) (λ w' c. walk m room path c w')
      (λ w' c. walk_keeps_flag m in_recursion room path c w')

-- So, if nothing is flagged in the end, nothing was before.
calls_unflagged_before :
    (m : Module) (room : ℕ) (path cs : List ℕ) (w : Walked)
    → flagged in_recursion (walk_calls m room path cs w) ≡ false
    → flagged in_recursion w ≡ false
calls_unflagged_before m room path cs w h = ground (arith, calls_keep_flag m room path cs w)

calls-Fits :
    (m : Module) (room : ℕ) (path cs : List ℕ)
    → ((c : ℕ) (w : Walked) → flagged in_recursion (walk m room path c w) ≡ false → Fits m room c)
    → (w : Walked) → flagged in_recursion (walk_calls m room path cs w) ≡ false
    → All (Fits m room) cs
calls-Fits m room path [] step w h = tt
calls-Fits m room path (c ∷ cs) step w h = (
  step c w (calls_unflagged_before m room path cs (walk m room path c w) h),
  calls-Fits m room path cs step _ h,
)

flag_recursion : (w : Walked) → flagged in_recursion (flag in_recursion w) ≡ true
flag_recursion w = ground (arith, flagged-flag in_recursion in_recursion w)

-- A walk that reports no recursion fits.
unflagged-Fits :
    (m : Module) (room : ℕ) (path : List ℕ) (index : ℕ) (w : Walked)
    → flagged in_recursion (walk m room path index w) ≡ false
    → Fits m room index
unfolding walk
unflagged-Fits m zero path index w h = cc (flag_recursion w)
unflagged-Fits m (suc room) path index w h = elim (Bool-cases (any (λ i. i == index) path)) [
  | inl e ↦ let h' = rw e at h in cc (flag_recursion w, h')
  | inr e ↦
      let h' = rw e at h in
      elim (Option-cases (function m index)) [
        | inl e' ↦ subst (AllCalls (Fits m room)) (sym e') tt
        | inr (facts, e') ↦ subst (AllCalls (Fits m room)) (sym e') (
            calls-Fits m room (index ∷ path) facts.calls
              (λ c w'. unflagged-Fits m room (index ∷ path) c w') (visit m index facts w)
              (rw e' at h'))
      ]
]

-- `Recursion` is missing from an entrypoint's estimate exactly when every chain of static calls from
-- it has at most `MAX_DEPTH + 1` functions: a finite tree that deep is never blamed, a deeper one or
-- a cycle always is.
pub recursion_iff :
    (m : Module) (name : String) (root : ℕ)
    → (reports in_recursion (estimate_entry m name root) ≡ false) ↔ Fits m (max_depth + 1) root
unfolding estimate_entry
recursion_iff m name root = (
  unflagged-Fits m (max_depth + 1) [] root (start name),
  λ f. Fits-unflagged m (max_depth + 1) [] root (start name) f tt (unfold set_contains in refl),
)
