-- ===== src/Fuzzer/Runtime/Recorded.antt =====
-- `measure` of soroban-fuzzer/src/runtime.rs and the journal.
use soroban_fuzzer.Prelude.{◌+◌, ◌≡◌, refl, String, Bool}
use soroban_fuzzer.Prelude.Order.{Ord, pair_ord}
use soroban_fuzzer.Prelude.Float.{Float}
use soroban_fuzzer.Fuzzer.Storage.Xdr.{Xdr, ScVal}
use soroban_fuzzer.Fuzzer.Storage.Snapshot.{total_entries}
use soroban_fuzzer.Fuzzer.Storage.Diff.{diff, delta_writes}
use soroban_fuzzer.Fuzzer.Journal.{CallRecord, total_writes, call_writes}
use soroban_fuzzer.Fuzzer.Journal.Totals.{AddsCall, push_call-AddsCall, writes-push_call}
use soroban_fuzzer.Fuzzer.Runtime.Call.{
  Host, Session, Runtime, Invocation, storage, call_record, measure,
}

module _ (x : Xdr) (h : Host x) (f : Float) ⦃a : Ord x.Address⦄ ⦃v : Ord (ScVal x)⦄ where
  -- Every call that returns, whatever it returns, is recorded once, behind the calls of the current
  -- step, or in a step of its own where there is none; the earlier steps, the rest of the current
  -- one and the note of a failure stay as they are. The record has the call's label, and the
  -- difference between the tracked storage before and after the call and its entries after it. So
  -- the journal's total of writes grows by that difference.
  pub measure_is_recorded :
      {V : Type 0} (rt : Runtime x h) (label : String) (enforced : Bool) (call : Invocation x h V)
      (s : Session x h)
      → let after = (measure x h f rt label enforced call s).0 in
        let delta = diff x (storage x h f rt s.env) (storage x h f rt after.env) in
        ((c : CallRecord) × AddsCall c s.journal after.journal
          × (c.label ≡ label)
          × (c.delta ≡ delta)
          × (c.entries_after ≡ total_entries x (storage x h f rt after.env)))
        × (total_writes after.journal ≡ total_writes s.journal + delta_writes delta)
  unfolding measure call_writes call_record
  measure_is_recorded rt label enforced call s =
      let c = call_record x h f rt label enforced s.env (call s.env).0 (call s.env).1 in
      ((c, push_call-AddsCall c s.journal, refl, refl, refl), writes-push_call c s.journal)
