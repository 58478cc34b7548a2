-- ===== src/Fuzzer/Runner/Case/Parts.antt =====
-- What soroban-fuzzer/src/runner.rs runs: the target of soroban-fuzzer/src/target.rs and the
-- invariants of soroban-fuzzer/src/invariant.rs, and how their parts end.
use soroban_fuzzer.Prelude.{ℕ, String, Bool, Option, List}
use soroban_fuzzer.Prelude.Order.{pair_ord}
use soroban_fuzzer.Fuzzer.Storage.Xdr.{Xdr}
use soroban_fuzzer.Fuzzer.Resources.{ResourceLimits}
use soroban_fuzzer.Fuzzer.Journal.{Journal}
use soroban_fuzzer.Fuzzer.Runtime.Outcome.{StepOutcome}
use soroban_fuzzer.Fuzzer.Runtime.Call.{Host, Session, Runtime, ResourcePolicy}

-- `AuthPolicy`
pub data AuthPolicy : Type 0 where
  strict mock_all : AuthPolicy

-- What `run_case` reads of the configuration, `FuzzConfig`.
pub record CaseConfig : Type 0 where
  pub auth : AuthPolicy
  pub resources : ResourcePolicy
  pub limits : ResourceLimits

-- How a part of a case ended: with a value, or by a panic with its message.
pub data Ended (S A : Type 0) : Type 0 where
  done : S → A → Ended S A
  panicked : Journal → String → Ended S A

-- What a function that may panic yields: a value, or the message of its panic.
pub data Attempt (A : Type 0) : Type 0 where
  returns : A → Attempt A
  panics : String → Attempt A

infixl 5 ◌>>=◌
abbrev pub ◌>>=◌ : {A B : Type 0} → Attempt A → (A → Attempt B) → Attempt B
returns a >>= f = f a
panics message >>= f = panics message

-- What an invariant says.
pub data Verdict : Type 0 where
  holds : Verdict
  broken : String → Verdict

module _ (x : Xdr) (h : Host x) where
  -- `Target`: every method may panic. `setup` and `execute` change the environment; a panic of
  -- `execute` keeps the journal, which the others cannot reach.
  pub record Target : Type 1 where
    pub State : Type 0
    pub World : Type 0
    pub Action : Type 0
    pub setup : h.Env → State → Attempt (h.Env × World)
    pub next_state : State → Action → Attempt State
    pub execute : Runtime x h → World → Action → Session x h → Ended (Session x h) StepOutcome
    pub describe : Action → Attempt String
    pub expects_rejection : Action → Attempt Bool
    pub action_kind : Action → Attempt String
    pub tracked_contracts : World → Attempt (List x.Address)

module _ (x : Xdr) (h : Host x) (t : Target x h) where
  -- `CheckCtx`, but for the environment
  pub record CheckCtx : Type 0 where
    pub world : t.World
    pub model : t.State
    pub action : Option t.Action
    pub step : ℕ

  -- The check may change the environment, and may panic; the name and `check_initial` are values.
  pub record Invariant : Type 0 where
    pub name : String
    pub check_initial : Bool
    pub check : CheckCtx → Session x h → Ended (Session x h) Verdict

  -- A panic of a method leaves the journal as it is.
  unfoldable pub attempt : {A : Type 0} → Attempt A → Session x h → Ended (Session x h) A
  attempt (returns a) s = done s a
  attempt (panics message) s = panicked s.journal message
