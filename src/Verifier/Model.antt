-- ===== src/Verifier/Model.antt =====
-- include/lincheck/lincheck.hpp, `LinearizabilityVerifier`: the calls on the sequential model.
use lincheck_cpp.Prelude.{
  Bool, true, false, ◌==◌, if◌then◌else◌, none, some, List, [], ◌∷◌, length, get_elem?,
}
use lincheck_cpp.Value.{Payloads, OperationException, Value, value_eq, exception_result_value}
use lincheck_cpp.Scenario.{Actor, Ran, returned, raised, TestSpec}

-- What a call on the sequential model throws: the `std::out_of_range` of `operations.at`, or the
-- operation's own exception, told by its type and message as `describe_exception` sees them.
pub data Thrown : Type 0 where
  out_of_range : Thrown
  rethrown : OperationException → Thrown

-- How `run_sequential` of the verifier ends.
pub data Called (S V : Type 0) : Type 0 where
  answered : S → V → Called S V
  threw : Thrown → Called S V

-- How `apply_sequence` ends.
pub data Applied (S : Type 0) : Type 0 where
  accepted : S → Applied S
  rejected : Applied S
  threw : Thrown → Applied S

module _ {P : Payloads} where
  -- The `catch` of `run_sequential`.
  unfoldable pub settle : {S : Type 0} → Bool → S × Ran P → Called S (Value P)
  settle exception_results (model, returned v) = answered model v
  settle true (model, raised e) = answered model (exception_result_value e)
  settle false (model, raised e) = Called.threw (rethrown e)

  -- `operations.at` throws on an index out of range.
  unfoldable pub run_sequential :
      (spec : TestSpec P) → spec.State → Actor P → Called spec.State (Value P)
  unfolding settle
  run_sequential spec model actor = elim (get_elem? spec.operations actor.operation_index) [
    | none ↦ Called.threw out_of_range
    | some op ↦ settle op.options.exception_results (op.run_sequential model actor.arguments)
  ]

  -- The loop of `apply_sequence`, after the test that the two sizes are equal.
  unfoldable pub apply_loop :
      (spec : TestSpec P) → spec.State → List (Actor P) → List (Value P) → Applied spec.State
  apply_loop spec model [] expected = accepted model
  apply_loop spec model (actor ∷ actors) [] = rejected
  apply_loop spec model (actor ∷ actors) (v ∷ expected) = elim (run_sequential spec model actor) [
    | threw x ↦ Applied.threw x
    | answered model' actual ↦ elim (value_eq actual v) [
      | true ↦ apply_loop spec model' actors expected
      | false ↦ rejected
    ]
  ]

  unfoldable pub apply_sequence :
      (spec : TestSpec P) → spec.State → List (Actor P) → List (Value P) → Applied spec.State
  apply_sequence spec model actors expected =
      if length actors == length expected then apply_loop spec model actors expected else rejected
