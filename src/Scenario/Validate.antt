-- ===== src/Scenario/Validate.antt =====
-- include/lincheck/lincheck.hpp, `validate_scenario_against_spec`: the checks that the verifier
-- makes before it runs the sequential model.
use lincheck_cpp.Prelude.{
  ℕ, suc, Bool, false, ◌||◌, ◌==◌, if◌then◌else◌, Option, none, some, List, [], ◌∷◌, length,
  get_elem?, list_eq, Result, ok, err, ◌>>=◌,
}
use lincheck_cpp.Value.{Str, Payloads}
use lincheck_cpp.Scenario.{Actor, ExecutionScenario, Operation, TestSpec}

-- Where an actor stands, as the messages say it.
pub data Location : Type 0 where
  init_actor : ℕ → Location
  parallel_actor : ℕ → ℕ → Location
  post_actor : ℕ → Location

-- The `std::invalid_argument` exceptions, by their messages.
pub data Invalid : Type 0 where
  no_operations : Invalid
  unknown_operation : Location → Invalid
  wrong_argument_count : Location → Invalid
  repeated_one_shot : Location → Invalid
  split_non_parallel : Location → Invalid

abbrev pub Check : Type 0 → Type 0
Check A = Result Invalid A

-- `used_one_shot_operations` and `non_parallel_group_thread`.
pub record Seen : Type 0 where
  pub one_shots : List ℕ
  pub groups : List (Str × ℕ)

abbrev pub contains : ℕ → List ℕ → Bool
contains a [] = false
contains a (x ∷ xs) = a == x || contains a xs

abbrev pub find_group : Str → List (Str × ℕ) → Option ℕ
find_group key [] = none
find_group key ((k, t) ∷ rest) = if list_eq k key then some t else find_group key rest

abbrev group_key : Str → Str → Str
group_key name [] = name
group_key name (c ∷ s) = c ∷ s

module _ {P : Payloads} where
  unfoldable pub non_parallel_key_for_operation : {S : Type 0} → Operation P S → Str
  non_parallel_key_for_operation operation = group_key operation.name operation.options.group

  -- The second `if` of `validate_constraints`.
  unfoldable pub check_group : {S : Type 0} → Operation P S → Location → ℕ → Seen → Check Seen
  check_group operation location thread seen =
      let key = non_parallel_key_for_operation operation in
      elim (find_group key seen.groups) [
        | none ↦ ok (record seen { groups = (key, thread) ∷ seen.groups })
        | some t ↦ if t == thread then ok seen else err (split_non_parallel location)
      ]

  unfoldable pub check_one_shot : {S : Type 0} → Operation P S → ℕ → Location → Seen → Check Seen
  check_one_shot operation index location seen =
      if operation.options.one_shot
      then if contains index seen.one_shots
        then err (repeated_one_shot location)
        else ok (record seen { one_shots = index ∷ seen.one_shots })
      else ok seen

  unfoldable pub check_parallel :
      {S : Type 0} → Operation P S → Location → Option ℕ → Seen → Check Seen
  unfolding check_group
  check_parallel operation location none seen = ok seen
  check_parallel operation location (some thread) seen =
      if operation.options.non_parallel then check_group operation location thread seen else ok seen

  -- The lambda `validate_constraints`.
  unfoldable pub validate_constraints :
      {S : Type 0} → Operation P S → ℕ → Location → Option ℕ → Seen → Check Seen
  unfolding check_one_shot check_parallel
  validate_constraints operation index location thread seen = do
    seen' ← check_one_shot operation index location seen
    check_parallel operation location thread seen'

  -- Finds the actor's operation, and checks its number of arguments.
  unfoldable pub validate_actor_against_spec :
      {S : Type 0} → List (Operation P S) → Actor P → Location → Check (Operation P S)
  validate_actor_against_spec operations actor location =
      elim (get_elem? operations actor.operation_index) [
        | none ↦ err (unknown_operation location)
        | some operation ↦
            if length actor.arguments == operation.argument_count
            then ok operation
            else err (wrong_argument_count location)
      ]

  -- The body of each of the three loops.
  unfoldable pub validate_actor :
      {S : Type 0} → List (Operation P S) → Actor P → Location → Option ℕ → Seen → Check Seen
  unfolding validate_actor_against_spec validate_constraints
  validate_actor operations actor location thread seen = do
    operation ← validate_actor_against_spec operations actor location
    validate_constraints operation actor.operation_index location thread seen

  -- A loop over the actors of one section, from index `i` on.
  unfoldable pub validate_actors :
      {S : Type 0}
      → List (Operation P S)
      → (ℕ → Location)
      → Option ℕ
      → ℕ
      → List (Actor P)
      → Seen
      → Check Seen
  unfolding validate_actor
  validate_actors operations location thread i [] seen = ok seen
  validate_actors operations location thread i (actor ∷ actors) seen = do
    seen' ← validate_actor operations actor (location i) thread seen
    validate_actors operations location thread (suc i) actors seen'

  unfoldable pub validate_threads :
      {S : Type 0} → List (Operation P S) → ℕ → List (List (Actor P)) → Seen → Check Seen
  unfolding validate_actors
  validate_threads operations t [] seen = ok seen
  validate_threads operations t (actors ∷ threads) seen = do
    seen' ← validate_actors operations (parallel_actor t) (some t) 0 actors seen
    validate_threads operations (suc t) threads seen'

  unfoldable pub validate_sections :
      {S : Type 0} → List (Operation P S) → ExecutionScenario P → Check (Unit {0})
  unfolding validate_threads validate_actors
  validate_sections [] scenario = err no_operations
  validate_sections (operation ∷ operations) scenario = do
    let registered = operation ∷ operations
    a ←
        validate_actors registered init_actor none 0 scenario.init
          (record { one_shots = []; groups = [] })
    b ← validate_threads registered 0 scenario.parallel a
    c ← validate_actors registered post_actor none 0 scenario.post b
    ok tt

  unfoldable pub validate_scenario_against_spec :
      TestSpec P → ExecutionScenario P → Check (Unit {0})
  unfolding validate_sections
  validate_scenario_against_spec spec scenario = validate_sections spec.operations scenario
