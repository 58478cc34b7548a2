-- ===== src/Fuzzer/Runtime/Classified.antt =====
-- `measure` and `call_requiring_auth` of soroban-fuzzer/src/runtime.rs: the classification of a
-- call.
use soroban_fuzzer.Prelude.{
  ◌≡◌, ◌↔◌, refl, String, Bool, true, false, Option, none, some, List, [], ◌∷◌, ◌&&◌, arith,
  if◌then◌else◌, inl, inr, Bool-cases, In, any, sym,
}
use soroban_fuzzer.Prelude.Order.{Ord, pair_ord, same, same_iff}
use soroban_fuzzer.Prelude.Float.{Float}
use soroban_fuzzer.Fuzzer.Storage.Xdr.{Xdr, ScVal}
use soroban_fuzzer.Fuzzer.Resources.{first_breach, LimitBreach}
use soroban_fuzzer.Fuzzer.Resources.Limits.{Within, breaches_exact}
use soroban_fuzzer.Fuzzer.Runtime.Outcome.{
  CallResult, returned, refused, failed, limit_exceeded, over_limit, is_ok, went_ok,
}
use soroban_fuzzer.Fuzzer.Runtime.Call.{
  Host, Session, Runtime, Invocation, Reply, value, ResourcePolicy, enforce, record_only, sdk,
  enforces, usage_of, breach_of, call_result, classify, measure, call_requiring_auth, judge_auth,
}

-- A breach passes the policy's gate only where limits are enforced.
gate-none :
    (enforced : Bool) (p : ResourcePolicy) (o : Option LimitBreach)
    → ((if enforced && enforces p then o else none) ≡ none)
      ↔ ((enforced ≡ true) × (p ≡ enforce) → o ≡ none)
gate-none true enforce o = (λ e q. e, λ e. e (refl, refl))
gate-none true record_only o = (λ e q. cc, λ e. refl)
gate-none true sdk o = (λ e q. cc, λ e. refl)
gate-none false p o = (λ e q. cc, λ e. refl)

module _ (x : Xdr) (h : Host x) (f : Float) ⦃a : Ord x.Address⦄ ⦃v : Ord (ScVal x)⦄ where
  over_limit-call_result :
      {V : Type 0} (label : String) (b : Option LimitBreach) (r : Reply V)
      → (over_limit (call_result x h f label b r) ≡ false) ↔ (b ≡ none)
  unfolding call_result classify
  over_limit-call_result label none r = (λ e. refl, λ e. ground arith)
  over_limit-call_result label (some b) r = (λ e. cc, λ e. cc)

  returned-call_result :
      {V : Type 0} (label : String) (b : Option LimitBreach) (r : Reply V) (w : V)
      → (call_result x h f label b r ≡ returned w) ↔ ((b ≡ none) × (r ≡ value w))
  unfolding call_result classify
  returned-call_result label none r w = (λ e. ground arith, λ e. ground arith)
  returned-call_result label (some b) r w = (λ e. cc, λ e. cc)

  breach_of-none :
      (rt : Runtime x h) (enforced : Bool) (env : h.Env)
      → (breach_of x h f rt enforced env ≡ none)
        ↔ ((enforced ≡ true) × (rt.policy ≡ enforce) → Within (usage_of x h f env) rt.limits)
  unfolding breach_of
  breach_of-none rt enforced env =
      let b = (breaches_exact (usage_of x h f env) rt.limits).1 in
      let g = gate-none enforced rt.policy (first_breach (usage_of x h f env) rt.limits) in
      (λ e q. b.0 (g.0 e q), λ w. g.1 (λ q. b.1 (w q)))

  -- Whatever a call does: it is not reported to exceed a limit exactly when, if this call and the
  -- run enforce limits, its measured use is within all of them; and it is reported as returning a
  -- value exactly when it did return that value and is not reported to exceed a limit.
  pub measure_classifies :
      {V : Type 0} (rt : Runtime x h) (label : String) (enforced : Bool) (call : Invocation x h V)
      (s : Session x h)
      → let result = (measure x h f rt label enforced call s).1 in
        ((over_limit result ≡ false) ↔ (
          (enforced ≡ true) × (rt.policy ≡ enforce)
          → Within (usage_of x h f (call s.env).0) rt.limits))
        × ((w : V)
            → (result ≡ returned w) ↔ ((over_limit result ≡ false) × ((call s.env).1 ≡ value w)))
  unfolding measure
  measure_classifies {V} rt label enforced call s =
      let b = breach_of x h f rt enforced (call s.env).0 in
      let none_iff = breach_of-none rt enforced (call s.env).0 in
      let o = over_limit-call_result label b (call s.env).1 in
      let r = λ (w : V). returned-call_result label b (call s.env).1 w in
      (
        (λ e. none_iff.0 (o.0 e), λ w. o.1 (none_iff.1 w)),
        λ w. (λ e. (o.1 ((r w).0 e).0, ((r w).0 e).1), λ q. (r w).1 (o.0 q.0, q.1)),
      )

  any-In :
      (address : x.Address) (demanded : List x.Address)
      → (any (λ who. same who address) demanded ≡ true) ↔ In address demanded
  any-In address [] = (λ e. cc, λ i. absurd i)
  any-In address (who ∷ rest) =
      let ih = any-In address rest in
      let e = same_iff who address in
      (
        λ q. elim (Bool-cases (same who address)) [
          | inl t ↦ inl (sym (e.0 t))
          | inr t ↦ inr (ih.0 (ground arith))
        ],
        λ i. elim i [ inl p ↦ rw (e.1 (sym p)) refl | inr j ↦ ground (arith, ih.1 j) ],
      )

  returned_of_ok : {V : Type 0} (r : CallResult V) → is_ok r ≡ true → (w : V) × (r ≡ returned w)
  unfolding is_ok
  returned_of_ok (returned w) e = (w, refl)
  returned_of_ok (refused reason) e = cc
  returned_of_ok (failed reason) e = cc
  returned_of_ok (limit_exceeded reason) e = cc

  judge_auth_lem :
      {V : Type 0} (label : String) (address : x.Address) (r : CallResult V)
      (demanded : List x.Address)
      → (judge_auth x h f label address r demanded ≡ went_ok)
        ↔ ((is_ok r ≡ true) × In address demanded)
  unfolding judge_auth is_ok
  judge_auth_lem label address (returned w) demanded =
      let i = any-In address demanded in
      (λ e. (refl, i.0 (ground arith)), λ q. ground (arith, i.1 q.1))
  judge_auth_lem label address (refused reason) demanded = (λ e. cc, λ q. cc)
  judge_auth_lem label address (failed reason) demanded = (λ e. cc, λ q. cc)
  judge_auth_lem label address (limit_exceeded reason) demanded = (λ e. cc, λ q. cc)

  -- The strict test of authorization passes exactly when the contract returned a value under
  -- recorded authorization, within the limits where they are enforced, and demanded the
  -- authorization of the address: a contract that demands nothing, or only that of others, never
  -- passes, and neither does a call that failed before.
  pub call_requiring_auth_iff :
      {V : Type 0} (rt : Runtime x h) (label : String) (address : x.Address)
      (invoke : Invocation x h V) (s : Session x h)
      → let done = invoke (h.mock_all_auths s.env) in
        ((call_requiring_auth x h f rt label address invoke s).1 ≡ went_ok) ↔ (
          ((w : V) × (done.1 ≡ value w))
          × (rt.policy ≡ enforce → Within (usage_of x h f done.0) rt.limits)
          × In address (h.auths done.0))
  unfolding call_requiring_auth measure
  call_requiring_auth_iff rt label address invoke s =
      let s' : Session x h = record s { env = h.mock_all_auths s.env } in
      let result = (measure x h f rt label true invoke s').1 in
      let c = measure_classifies rt label true invoke s' in
      let j = judge_auth_lem label address result (h.auths (invoke s'.env).0) in
      (
        λ e.
            let (w, r) = returned_of_ok result (j.0 e).0 in
            let (within, replied) = (c.1 w).0 r in
            ((w, replied), λ p. c.0.0 within (refl, p), (j.0 e).1),
        λ q.
            let r = (c.1 q.0.0).1 (c.0.1 (λ p. q.1 p.1), q.0.1) in
            j.1 (rw r (unfold is_ok in refl), q.2),
      )
