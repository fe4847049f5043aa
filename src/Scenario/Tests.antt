-- ===== src/Scenario/Tests.antt =====
-- Sample scenarios.
use lincheck_cpp.Prelude.{ℕ, ◌≡◌, ◌↔◌, refl, Bool, true, false, none, List, [], ◌∷◌, ok, err}
use lincheck_cpp.Sample.{plain, actor}
use lincheck_cpp.Value.{Str, int64}
use lincheck_cpp.Scenario.{Actor, ExecutionScenario, Operation, TestSpec, returned}
use lincheck_cpp.Scenario.Validate.{
  repeated_one_shot, split_non_parallel, parallel_actor, validate_scenario_against_spec,
  validate_sections, validate_threads, validate_actors, validate_actor, validate_actor_against_spec,
  validate_constraints, check_one_shot, check_parallel, check_group, non_parallel_key_for_operation,
}
use lincheck_cpp.Scenario.Valid.{IsValid, validate-IsValid}

abbrev operation : Str → Bool → Bool → Operation plain ℕ
operation name one_shot non_parallel = record {
  name = name;
  options = record {
    group = [];
    independence_group = [];
    non_parallel = non_parallel;
    one_shot = one_shot;
    exception_results = false;
  };
  argument_count = 0;
  run_sequential = λ n args. (n, returned (int64 n));
}

-- `close` may be called once, and `push` in one thread only.
abbrev spec : TestSpec plain
spec = record {
  State = ℕ;
  operations = operation (b'c' ∷ []) true false ∷ operation (b'p' ∷ []) false true ∷ [];
  make_sequential = 0;
  clone_sequential = λ n. n;
  sequential_state_key = none;
}

abbrev scenario : List (Actor plain) → List (Actor plain) → ExecutionScenario plain
scenario first second = record { init = []; parallel = first ∷ second ∷ []; post = [] }

abbrev good : ExecutionScenario plain
good = scenario (actor 1 ∷ actor 0 ∷ actor 1 ∷ []) []

closed_twice :
    validate_scenario_against_spec spec (scenario (actor 0 ∷ []) (actor 0 ∷ []))
    ≡ err (repeated_one_shot (parallel_actor 1 0))
unfolding validate_scenario_against_spec validate_sections validate_threads validate_actors
    validate_actor validate_actor_against_spec validate_constraints check_one_shot check_parallel
    check_group non_parallel_key_for_operation
closed_twice = refl

pushed_by_two :
    validate_scenario_against_spec spec (scenario (actor 1 ∷ []) (actor 0 ∷ actor 1 ∷ []))
    ≡ err (split_non_parallel (parallel_actor 1 1))
unfolding validate_scenario_against_spec validate_sections validate_threads validate_actors
    validate_actor validate_actor_against_spec validate_constraints check_one_shot check_parallel
    check_group non_parallel_key_for_operation
pushed_by_two = refl

validate-IsValid_example : (validate_scenario_against_spec spec good ≡ ok tt) ↔ IsValid spec good
validate-IsValid_example = validate-IsValid spec good
