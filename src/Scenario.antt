-- ===== src/Scenario.antt =====
-- include/lincheck/lincheck.hpp: `Actor`, `OperationOptions`, `OperationInterval`,
-- `ExecutionScenario`, `Operation`, `TestSpec` and `ExecutionResult`.
pub mod Validate
pub mod Constraints
pub mod Resolve
pub mod Valid
mod Tests
use lincheck_cpp.Prelude.{ℕ, Bool, true, false, not, ◌||◌, Option, List, [], ◌∷◌}
use lincheck_cpp.Value.{Str, Payloads, OperationException, Value}

pub record Actor (P : Payloads) : Type 0 where
  pub operation_index : ℕ
  pub name : Str
  pub group : Str
  pub non_parallel : Bool
  pub one_shot : Bool
  pub exception_results : Bool
  pub arguments : List (Value P)

pub record OperationOptions : Type 0 where
  pub group : Str
  pub independence_group : Str
  pub non_parallel : Bool
  pub one_shot : Bool
  pub exception_results : Bool

-- `thread_id` and `actor_index` are left out: the functions modelled here find an interval by its
-- place. A clock of 0 says that the event was not observed.
pub record OperationInterval (P : Payloads) : Type 0 where
  pub invocation_clock : ℕ
  pub response_clock : ℕ
  pub result : Value P

pub record ExecutionScenario (P : Payloads) : Type 0 where
  pub init : List (Actor P)
  pub parallel : List (List (Actor P))
  pub post : List (Actor P)

abbrev is_empty {ℓ} : {A : Type ℓ} → List A → Bool
is_empty [] = true
is_empty (_ ∷ _) = false

any_actor {ℓ} : {A : Type ℓ} → List (List A) → Bool
any_actor [] = false
any_actor (actors ∷ rest) = not (is_empty actors) || any_actor rest

-- `ExecutionScenario::valid`: some thread has an actor.
unfoldable pub valid : {P : Payloads} → ExecutionScenario P → Bool
unfolding any_actor
valid scenario = any_actor scenario.parallel

pub record ExecutionResult (P : Payloads) : Type 0 where
  pub init_results : List (Value P)
  pub parallel_results : List (List (Value P))
  pub post_results : List (Value P)
  pub init_intervals : List (OperationInterval P)
  pub parallel_intervals : List (List (OperationInterval P))
  pub post_intervals : List (OperationInterval P)

-- How a call of an operation ends: with a value, or by an exception as `describe_exception` sees it.
pub data Ran (P : Payloads) : Type 0 where
  returned : Value P → Ran P
  raised : OperationException → Ran P

-- A call on the sequential model changes the model, also where it ends by an exception.
-- `generators` and `run_concurrent` are left out.
pub record Operation (P : Payloads) (State : Type 0) : Type 0 where
  pub name : Str
  pub options : OperationOptions
  pub argument_count : ℕ
  pub run_sequential : State → List (Value P) → State × Ran P

-- The user's test: the state of the sequential model with its factory, copy and, if it was given,
-- key. The members about the concurrent object are left out.
pub record TestSpec (P : Payloads) : Type 1 where
  pub State : Type 0
  pub operations : List (Operation P State)
  pub make_sequential : State
  pub clone_sequential : State → State
  pub sequential_state_key : Option (State → Value P)
