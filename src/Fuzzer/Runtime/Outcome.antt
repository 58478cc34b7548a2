-- ===== src/Fuzzer/Runtime/Outcome.antt =====
-- soroban-fuzzer/src/runtime.rs: `StepOutcome`, and `CallResult` with its conversions.
use soroban_fuzzer.Prelude.{String, Bool, true, false, Option, none, some, ◌≡◌, refl, not}
use soroban_fuzzer.Prelude.Text.{◌<>◌}

pub data StepOutcome : Type 0 where
  went_ok : StepOutcome
  rejected : String → StepOutcome
  violation : String → StepOutcome

unfoldable pub is_violation : StepOutcome → Bool
is_violation (violation reason) = true
is_violation _ = false

unfoldable pub describe_outcome : StepOutcome → String
describe_outcome went_ok = "ok"
describe_outcome (rejected reason) = "rejected: " <> reason
describe_outcome (violation reason) = "violation: " <> reason

pub data CallResult (V : Type 0) : Type 0 where
  returned : V → CallResult V
  refused : String → CallResult V
  failed : String → CallResult V
  limit_exceeded : String → CallResult V

module _ {V : Type 0} where
  unfoldable pub into_step : CallResult V → StepOutcome
  into_step (returned value) = went_ok
  into_step (refused reason) = rejected reason
  into_step (failed reason) = rejected ("trapped: " <> reason)
  into_step (limit_exceeded reason) = violation reason

  unfoldable pub expect_ok : CallResult V → StepOutcome
  expect_ok (returned value) = went_ok
  expect_ok (refused reason) = violation ("call was rejected but must succeed: " <> reason)
  expect_ok (failed reason) = violation ("call trapped but must succeed: " <> reason)
  expect_ok (limit_exceeded reason) = violation reason

  unfoldable pub expect_rejected : CallResult V → StepOutcome
  expect_rejected (returned value) = violation (
      "call succeeded but must have been refused: a privileged entrypoint may be "
      <> "missing require_auth, or an input check may be missing")
  expect_rejected (refused reason) = rejected reason
  expect_rejected (failed reason) = rejected ("trapped: " <> reason)
  expect_rejected (limit_exceeded reason) = violation reason

  unfoldable pub expect_contract_error : CallResult V → StepOutcome
  expect_contract_error (returned value) =
      violation "call succeeded but was expected to return a contract error"
  expect_contract_error (refused reason) = rejected reason
  expect_contract_error (failed reason) =
      violation ("expected a contract error but the call trapped: " <> reason)
  expect_contract_error (limit_exceeded reason) = violation reason

  unfoldable pub is_ok : CallResult V → Bool
  is_ok (returned value) = true
  is_ok _ = false

  unfoldable pub is_failure : CallResult V → Bool
  is_failure (failed reason) = true
  is_failure (limit_exceeded reason) = true
  is_failure _ = false

  unfoldable pub value_of : CallResult V → Option V
  value_of (returned value) = some value
  value_of _ = none

  unfoldable pub reason_of : CallResult V → Option String
  reason_of (returned value) = none
  reason_of (refused reason) = some reason
  reason_of (failed reason) = some reason
  reason_of (limit_exceeded reason) = some reason

  abbrev pub over_limit : CallResult V → Bool
  over_limit (limit_exceeded reason) = true
  over_limit _ = false

  -- A call over a limit is a violation under every conversion. Of any other call, exactly one of
  -- `expect_ok` and `expect_rejected` makes a violation; `into_step` never does; and a violation
  -- under `expect_rejected` is one under `expect_contract_error`.
  pub conversions_judge :
      (r : CallResult V)
      → (is_violation (into_step r) ≡ over_limit r)
        × (over_limit r ≡ false
            → is_violation (expect_ok r) ≡ not (is_violation (expect_rejected r)))
        × (over_limit r ≡ true
            → (is_violation (expect_ok r) ≡ true) × (is_violation (expect_rejected r) ≡ true))
        × (is_violation (expect_rejected r) ≡ true → is_violation (expect_contract_error r) ≡ true)
  unfolding is_violation into_step expect_ok expect_rejected expect_contract_error
  conversions_judge (returned value) = (refl, λ h. refl, λ h. cc, λ h. refl)
  conversions_judge (refused reason) = (refl, λ h. refl, λ h. cc, λ h. cc)
  conversions_judge (failed reason) = (refl, λ h. refl, λ h. cc, λ h. refl)
  conversions_judge (limit_exceeded reason) = (refl, λ h. cc, λ h. (refl, refl), λ h. refl)
