-- ===== src/Fuzzer/Runtime/Call.antt =====
-- soroban-fuzzer/src/runtime.rs: `Runtime` and its calls. The test environment of the third-party
-- SDK is the parameter `Host`; reading the stored entries, the metering and the authorizations of
-- the last call leaves it as it is.
use soroban_fuzzer.Prelude.{
  ℕ, String, Bool, true, false, Option, none, some, List, ◌&&◌, map, any, if◌then◌else◌, length,
  ◌==◌,
}
use soroban_fuzzer.Prelude.Order.{Ord, same, pair_ord}
use soroban_fuzzer.Prelude.Text.{◌<>◌, join}
use soroban_fuzzer.Prelude.Float.{Float}
use soroban_fuzzer.Fuzzer.Storage.Xdr.{Xdr, ScVal, Stored}
use soroban_fuzzer.Fuzzer.Storage.Snapshot.{Snapshot, capture_scoped, total_entries}
use soroban_fuzzer.Fuzzer.Storage.Diff.{diff}
use soroban_fuzzer.Fuzzer.Resources.{
  ResourceUsage, no_usage, ResourceLimits, LimitBreach, first_breach, show_breach,
}
use soroban_fuzzer.Fuzzer.Journal.{Journal, CallRecord, push_call, bare_call}
use soroban_fuzzer.Fuzzer.Runtime.Outcome.{
  StepOutcome, went_ok, violation, CallResult, returned, refused, failed, limit_exceeded,
}

-- `ResourcePolicy`: with `sdk` the enforcement is the SDK's own, by a panic inside the host.
pub data ResourcePolicy : Type 0 where
  enforce record_only sdk : ResourcePolicy

abbrev pub enforces : ResourcePolicy → Bool
enforces enforce = true
enforces _ = false

-- What a generated client's `try_*` method returns; the errors stand as their `Debug` text.
pub data Reply (V : Type 0) : Type 0 where
  value : V → Reply V
  unreadable : String → Reply V
  declared_error : String → Reply V
  invoke_error : String → Reply V

pub record Host (x : Xdr) : Type 1 where
  pub Env : Type 0
  -- `env.host().get_stored_entries()`
  pub stored : Env → Option (List (Stored x))
  -- `ResourceUsage::capture`
  pub metered : Env → Option ResourceUsage
  -- the addresses of `env.auths()`
  pub auths : Env → List x.Address
  -- `env.set_auths(&[])`
  pub clear_auths : Env → Env
  pub mock_all_auths : Env → Env
  pub sequence : Env → ℕ
  pub timestamp : Env → ℕ
  pub set_sequence_number : ℕ → Env → Env
  pub set_timestamp : ℕ → Env → Env

module _ (x : Xdr) (h : Host x) where
  -- What the calls change: the environment, and the journal that they share with the runner.
  pub record Session : Type 0 where
    pub env : h.Env
    pub journal : Journal

  pub record Runtime : Type 0 where
    pub limits : ResourceLimits
    pub policy : ResourcePolicy
    pub step : ℕ
    pub scoped : List x.Address

  -- The closure that makes a call, where it returns. Where it panics, nothing of `measure` follows,
  -- and the panic is that of the action, `execute`.
  abbrev pub Invocation : Type 0 → Type 0
  Invocation V = h.Env → h.Env × Reply V

unfoldable pub reply_text : {V : Type 0} → Reply V → String
reply_text (value v) = "ok"
reply_text (unreadable error) = "unreadable result: " <> error
reply_text (declared_error error) = "rejected: " <> error
reply_text (invoke_error error) = "error: " <> error

-- The last `match` of `measure`.
unfoldable pub classify : {V : Type 0} → Reply V → CallResult V
classify (value v) = returned v
classify (unreadable error) = failed ("return value could not be converted: " <> error)
classify (declared_error error) = refused error
classify (invoke_error error) = failed error

abbrev pub not_shown : String → String → String → String
not_shown label who reason =
    "call `" <> label <> "` had to succeed under recorded authorization, to show that " <> who
    <> " gates it, but it did not: " <> reason
    <> " — it is likely failing on its input or on an earlier check rather than on authorization"

module _ (x : Xdr) (h : Host x) (f : Float) ⦃a : Ord x.Address⦄ ⦃v : Ord (ScVal x)⦄ where
  unfoldable pub storage : Runtime x h → h.Env → Snapshot x
  unfolding capture_scoped
  storage rt env = capture_scoped x (h.stored env) rt.scoped

  -- `ResourceUsage::capture(env).unwrap_or_default()`
  abbrev pub usage_of : h.Env → ResourceUsage
  usage_of env = elim (h.metered env) [ none ↦ no_usage | some u ↦ u ]

  unfoldable pub breach_of : Runtime x h → Bool → h.Env → Option LimitBreach
  unfolding first_breach
  breach_of rt enforced env =
      if enforced && enforces rt.policy then first_breach (usage_of env) rt.limits else none

  unfoldable pub call_record :
      {V : Type 0} → Runtime x h → String → Bool → h.Env → h.Env → Reply V → CallRecord
  unfolding reply_text storage diff total_entries breach_of
  call_record rt label enforced env env' reply = record {
    label = label;
    outcome = reply_text reply;
    usage = usage_of env';
    delta = diff x (storage rt env) (storage rt env');
    entries_after = total_entries x (storage rt env');
    breach = breach_of rt enforced env';
  }

  -- A breach goes before what the call returned.
  unfoldable pub call_result : {V : Type 0} → String → Option LimitBreach → Reply V → CallResult V
  unfolding classify show_breach
  call_result label (some breach) reply =
      limit_exceeded ("call `" <> label <> "` exceeded a network limit: " <> show_breach f breach)
  call_result label none reply = classify reply

  unfoldable pub measure :
      {V : Type 0}
      → Runtime x h
      → String
      → Bool
      → Invocation x h V
      → Session x h
      → Session x h × CallResult V
  unfolding call_record push_call breach_of call_result
  measure rt label enforced call s =
      let done = call s.env in
      (
        record {
          env = done.0;
          journal = push_call (call_record rt label enforced s.env done.0 done.1) s.journal;
        },
        call_result label (breach_of rt enforced done.0) done.1,
      )

  unfoldable pub call :
      {V : Type 0}
      → Runtime x h
      → String
      → Invocation x h V
      → Session x h
      → Session x h × CallResult V
  unfolding measure
  call rt label invoke s = measure rt label true invoke s

  unfoldable pub call_unchecked :
      {V : Type 0}
      → Runtime x h
      → String
      → Invocation x h V
      → Session x h
      → Session x h × CallResult V
  unfolding measure
  call_unchecked rt label invoke s = measure rt label false invoke s

  unfoldable pub call_without_auth :
      {V : Type 0}
      → Runtime x h
      → String
      → Invocation x h V
      → Session x h
      → Session x h × CallResult V
  unfolding measure
  call_without_auth rt label invoke s =
      measure rt label true invoke (record s { env = h.clear_auths s.env })

  -- What the call shows about `address`, from its result and the authorizations it demanded.
  unfoldable pub judge_auth :
      {V : Type 0} → String → x.Address → CallResult V → List x.Address → StepOutcome
  judge_auth label address (returned val) demanded =
      if any (λ who. same who address) demanded
      then went_ok
      else violation (
          "call `"
          <> label
          <> "` succeeded under recorded authorization but never demanded authorization from "
          <> x.show_address address
          <> "; it demanded "
          <> (if length demanded == 0 then "nothing" else join ", " (map x.show_address demanded))
          <> ". A privileged entrypoint that does not require authorization can be called by anyone.")
  judge_auth label address (limit_exceeded reason) demanded = violation reason
  judge_auth label address (refused reason) demanded =
      violation (not_shown label (x.show_address address) reason)
  judge_auth label address (failed reason) demanded =
      violation (not_shown label (x.show_address address) reason)

  unfoldable pub call_requiring_auth :
      {V : Type 0}
      → Runtime x h
      → String
      → x.Address
      → Invocation x h V
      → Session x h
      → Session x h × StepOutcome
  unfolding measure judge_auth
  call_requiring_auth rt label address invoke s =
      let done = measure rt label true invoke (record s { env = h.mock_all_auths s.env }) in
      (done.0, judge_auth label address done.1 (h.auths done.0.env))

  -- `note`
  unfoldable pub note : String → Session x h → Session x h
  unfolding push_call
  note message s = record s { journal = push_call (bare_call "<note>" message) s.journal }
