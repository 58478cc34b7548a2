-- ===== src/Fuzzer/Runner/ReadOnly.antt =====
-- `check_invariants` of soroban-fuzzer/src/runner.rs, with its guard against checks that write.
use soroban_fuzzer.Prelude.{
  ◌≡◌, ◌↔◌, refl, true, false, ◌⊎◌, none, Option-cases, String, [], Option, List, ◌∷◌, arith, ◌||◌,
  inl, inr, Bool-cases, subst, sym,
}
use soroban_fuzzer.Prelude.Order.{Ord, pair_ord}
use soroban_fuzzer.Fuzzer.Storage.Xdr.{Xdr, ScVal, Stored}
use soroban_fuzzer.Fuzzer.Storage.Snapshot.{
  Snapshot, EntryKey, instance_store, persistent_store, temporary_store, entries, capture_scoped,
  filter_for,
}
use soroban_fuzzer.Fuzzer.Storage.Diff.{
  StorageDelta, diff, is_empty, writes, delta_is_empty, delta_writes,
}
use soroban_fuzzer.Fuzzer.Storage.Unchanged.{value_at, is_empty-diff_kind}
use soroban_fuzzer.Fuzzer.Storage.Captured.{capture-IsSorted}
use soroban_fuzzer.Fuzzer.Storage.Fresh.{AtMostGone, fresh_iff}
use soroban_fuzzer.Fuzzer.Runtime.Call.{Host, Session}
use soroban_fuzzer.Fuzzer.Runner.Case.{
  Ended, done, panicked, Verdict, holds, broken, judge, skips, Target, CheckCtx, Invariant,
  fail_case, check_each, host_reclaimed, check_read_only, delta_between, then_read_only,
  check_invariants,
}

module _ (x : Xdr) (h : Host x) (t : Target x h) where
  guard_iff :
      (d : StorageDelta)
      → ((delta_is_empty d || host_reclaimed x h t d) ≡ true) ↔ (
          (is_empty d.in_instance ≡ true)
          × (is_empty d.in_persistent ≡ true)
          × (d.in_temporary.added ≡ 0)
          × (d.in_temporary.updated ≡ 0))
  unfolding delta_is_empty delta_writes is_empty host_reclaimed writes
  guard_iff d = (λ q. ground arith, λ q. ground arith)

module _ (x : Xdr) (h : Host x) (t : Target x h) (ctx : CheckCtx x h t) where
  -- Before the first action an invariant may stay out.
  abbrev pub LeftOut : Invariant x h t → Type 0
  LeftOut i = (ctx.action ≡ none) × (i.check_initial ≡ false)

  -- The invariants that are not left out hold one after the other, each in the session that the one
  -- before it leaves, from `s` to `s'`.
  abbrev pub AllHold : List (Invariant x h t) → Session x h → Session x h → Type 0
  AllHold [] s s' = s ≡ s'
  AllHold (i ∷ is) s s' =
      (LeftOut i × AllHold is s s')
      ⊎ ((¬ LeftOut i) × (s1 : Session x h) × (i.check ctx s ≡ done s1 holds) × AllHold is s1 s')

  skips_iff : (i : Invariant x h t) → (skips x h t ctx i ≡ true) ↔ LeftOut i
  unfolding skips
  skips_iff i = elim (Option-cases ctx.action) [
    | inl e ↦ rw e ((λ q. (refl, ground arith)), λ q. ground arith)
    | inr (action, e) ↦ rw e ((λ q. cc), λ q. cc)
  ]

  judged_iff :
      (name : String) (next : Session x h → Ended (Session x h) (Unit {0}))
      (P : Session x h → Type 0) (s' : Session x h)
      → ((s : Session x h) → (next s ≡ done s' tt) ↔ P s)
      → (r : Ended (Session x h) Verdict)
      → (elim (judge x h t name r) [ done s1 _ ↦ next s1 | panicked j message ↦ panicked j message ]
          ≡ done s' tt)
        ↔ ((s1 : Session x h) × (r ≡ done s1 holds) × P s1)
  unfolding judge fail_case
  judged_iff name next P s' rest (done s holds) = (
    λ q. (s, refl, (rest s).0 q),
    λ q. let (s1, e, held) = q in let e' : s ≡ s1 = cc e in rw e' ((rest s1).1 held),
  )
  judged_iff name next P s' rest (done s (broken detail)) =
      ((λ q. cc), λ q. let (s1, e, held) = q in cc e)
  judged_iff name next P s' rest (panicked j message) =
      ((λ q. cc), λ q. let (s1, e, held) = q in cc e)

  check_each_iff :
      (is : List (Invariant x h t)) (s s' : Session x h)
      → (check_each x h t is ctx s ≡ done s' tt) ↔ AllHold is s s'
  unfolding check_each
  check_each_iff [] s s' = ((λ q. cc), λ q. cc)
  check_each_iff (i ∷ is) s s' = elim (Bool-cases (skips x h t ctx i)) [
    | inl e ↦
        let out = (skips_iff i).0 e in
        let rest = check_each_iff is s s' in
        rw e (
          (λ q. inl (out, rest.0 q)),
          λ q. elim q [ inl y ↦ rest.1 y.1 | inr y ↦ absurd (y.0 out) ],
        )
    | inr e ↦
        let kept : ¬ LeftOut i = λ out. cc ((skips_iff i).1 out, e) in
        let rest =
          judged_iff i.name (λ s1. check_each x h t is ctx s1) (λ s1. AllHold is s1 s') s'
            (λ s1. check_each_iff is s1 s') (i.check ctx s) in
        rw e (
          (λ q. let (s1, e1, r1) = rest.0 q in inr (kept, s1, e1, r1)),
          λ q. elim q [
            | inl y ↦ absurd (kept y.0)
            | inr y ↦ let (k, s1, e1, r1) = y in rest.1 (s1, e1, r1)
          ],
        )
  ]

module _ (x : Xdr) (h : Host x) (t : Target x h) ⦃a : Ord x.Address⦄ ⦃v : Ord (ScVal x)⦄ where
  -- Between two snapshots the instance and persistent entries keep their values, and whatever is in
  -- temporary storage was there before.
  pub record ReadOnly (s s' : Snapshot x) : Type 0 where
    pub instance_kept :
        (k : EntryKey x)
        → value_at x k (entries x instance_store s) ≡ value_at x k (entries x instance_store s')
    pub persistent_kept :
        (k : EntryKey x)
        → value_at x k (entries x persistent_store s) ≡ value_at x k (entries x persistent_store s')
    pub temporary_kept : AtMostGone x (entries x temporary_store s) (entries x temporary_store s')

  diff-ReadOnly :
      (b c : Option (List (Stored x))) (scoped : List x.Address)
      → let s = capture_scoped x b scoped in
        let s' = capture_scoped x c scoped in
        ((delta_is_empty (diff x s s') || host_reclaimed x h t (diff x s s')) ≡ true)
        ↔ ReadOnly s s'
  unfolding diff capture_scoped
  diff-ReadOnly b c scoped =
      let s = capture_scoped x b scoped in
      let s' = capture_scoped x c scoped in
      let f = filter_for x scoped in
      let g = guard_iff x h t (diff x s s') in
      let i =
        is_empty-diff_kind x (entries x instance_store s) (entries x instance_store s')
          (capture-IsSorted x b f instance_store) (capture-IsSorted x c f instance_store) in
      let p =
        is_empty-diff_kind x (entries x persistent_store s) (entries x persistent_store s')
          (capture-IsSorted x b f persistent_store) (capture-IsSorted x c f persistent_store) in
      let m =
        fresh_iff x (entries x temporary_store s) (entries x temporary_store s')
          (capture-IsSorted x c f temporary_store) in
      (
        λ q.
            let (q1, q2, q3, q4) = g.0 q in
            record {
              instance_kept = i.0 q1;
              persistent_kept = p.0 q2;
              temporary_kept = m.0 (q3, q4);
            },
        λ r.
            let (z1, z2) = m.1 r.temporary_kept in
            g.1 (i.1 r.instance_kept, p.1 r.persistent_kept, z1, z2),
      )

  check_read_only_iff :
      (d : StorageDelta) (s s' : Session x h)
      → (◌≡◌ {A = Ended (Session x h) (Unit {0})} (check_read_only x h t d s) (done s' tt))
        ↔ (((delta_is_empty d || host_reclaimed x h t d) ≡ true) × (s ≡ s'))
  unfolding check_read_only fail_case
  check_read_only_iff d s s' = elim (Bool-cases (delta_is_empty d || host_reclaimed x h t d)) [
    | inl e ↦ rw e ((λ q. (refl, cc)), λ q. cc)
    | inr e ↦ rw e ((λ q. cc), λ q. cc)
  ]

  -- The two snapshots that the guard compares.
  abbrev pub KeptBetween : List x.Address → h.Env → h.Env → Type 0
  KeptBetween scoped env env' =
      ReadOnly (capture_scoped x (h.stored env) scoped) (capture_scoped x (h.stored env') scoped)

  then_read_only_iff :
      (scoped : List x.Address) (before : h.Env) (r : Ended (Session x h) (Unit {0}))
      (s' : Session x h)
      → (then_read_only x h t scoped before r ≡ done s' tt)
        ↔ ((r ≡ done s' tt) × KeptBetween scoped before s'.env)
  unfolding then_read_only
  then_read_only_iff scoped before (done s u) s' =
      let c = check_read_only_iff (delta_between x h t scoped before s.env) s s' in
      let d = diff-ReadOnly (h.stored before) (h.stored s.env) scoped in
      (
        λ q.
            let (guard, e) = c.0 q in
            (cc, subst (λ (z : Session x h). KeptBetween scoped before z.env) e (d.0 guard)),
        λ q.
            let e : s ≡ s' = cc q.0 in
            c.1 (d.1 (subst (λ (z : Session x h). KeptBetween scoped before z.env) (sym e) q.1), e),
      )
  then_read_only_iff scoped before (panicked j message) s' = ((λ q. cc), λ q. cc)

  -- The checks of at least one invariant come to their end exactly when each invariant that is not
  -- left out in turn comes to its end and holds and, in the tracked storage, they changed nothing
  -- but that temporary entries may be gone: the instance and persistent entries have their values,
  -- and no temporary entry is new or changed. Left out are, before the first action, the invariants
  -- that do not ask to be checked there.
  pub check_invariants_iff :
      (i : Invariant x h t) (is : List (Invariant x h t)) (scoped : List x.Address)
      (ctx : CheckCtx x h t) (s s' : Session x h)
      → (check_invariants x h t (i ∷ is) scoped ctx s ≡ done s' tt) ↔ (
          AllHold x h t ctx (i ∷ is) s s'
          × ReadOnly
              (capture_scoped x (h.stored s.env) scoped)
              (capture_scoped x (h.stored s'.env) scoped))
  unfolding check_invariants
  check_invariants_iff i is scoped ctx s s' =
      let r = then_read_only_iff scoped s.env (check_each x h t (i ∷ is) ctx s) s' in
      let c = check_each_iff x h t ctx (i ∷ is) s s' in
      (λ q. (c.0 (r.0 q).0, (r.0 q).1), λ q. r.1 (c.1 q.0, q.1))
