-- ===== src/Verifier/Search.antt =====
-- include/lincheck/lincheck.hpp, `LinearizabilityVerifier`: `verify_parallel` with its cache, and the
-- two entry points. A report's text is not modelled, only whether one is asked for (`explain`).
-- Both entry points ask for the final model, so `final_model` is never null here.
use lincheck_cpp.Prelude.{
  ℕ, zero, suc, Bool, true, false, if◌then◌else◌, none, some, List, [], ◌∷◌, get_elem?,
  total_length, Result, ok, err,
}
use lincheck_cpp.Value.{Payloads, Value, value_eq}
use lincheck_cpp.Scenario.{ExecutionScenario, ExecutionResult, TestSpec}
use lincheck_cpp.Scenario.Validate.{Invalid, validate_scenario_against_spec}
use lincheck_cpp.Verifier.Model.{
  Thrown, Called, answered, Applied, accepted, rejected, run_sequential, apply_sequence,
}
use lincheck_cpp.Verifier.Intervals.{
  position, advanced, row, threads, start_positions, all_done, observed, real_time_blocker,
}
use lincheck_cpp.Verifier.Cache.{
  Verdict, linearized, refuted, out_of_fuel, VerifierCache, empty_cache, Search, make_cache_key,
  consult, remember, otherwise,
}

-- What one round of the loop over the threads finds about its candidate.
pub data Candidate (S : Type 0) : Type 0 where
  advance : S → Candidate S
  skip : Candidate S
  stop : Thrown → Candidate S

pub data VerifierError : Type 0 where
  invalid : Invalid → VerifierError
  operation_threw : Thrown → VerifierError
  no_fuel : VerifierError

abbrev pub has_post : {A B : Type 0} → List A → List B → Bool
has_post [] [] = false
has_post [] (_ ∷ _) = true
has_post (_ ∷ _) _ = true

unfoldable pub verdict_result : {S : Type 0} → Verdict S → Result VerifierError Bool
verdict_result (linearized model) = ok true
verdict_result refuted = ok false
verdict_result (Verdict.threw x) = err (operation_threw x)
verdict_result out_of_fuel = err no_fuel

abbrev pub finish_with : {S : Type 0} → Applied S → Verdict S
finish_with (accepted model) = linearized model
finish_with rejected = refuted
finish_with (Applied.threw x) = Verdict.threw x

-- The model after the call, if its result is the one observed.
abbrev pub compare_result : {P : Payloads} {S : Type 0} → Value P → Called S (Value P) → Candidate S
compare_result v (Called.threw x) = stop x
compare_result v (answered model actual) = if value_eq actual v then advance model else skip

module _ {P : Payloads} (spec : TestSpec P) (scenario : ExecutionScenario P)
    (results : ExecutionResult P) where
  -- The branch `if (complete)`.
  unfoldable pub finish : spec.State → Verdict spec.State
  finish model =
      if has_post scenario.post results.post_results
      then finish_with
          (apply_sequence spec (spec.clone_sequential model) scenario.post results.post_results)
      else linearized model

  -- One round of the loop over the threads, up to the recursive call.
  unfoldable pub try_candidate : spec.State → List ℕ → ℕ → Candidate spec.State
  try_candidate model positions t =
      let p = position positions t in
      elim (get_elem? (row scenario t) p) [
        | none ↦ skip
        | some actor ↦ elim (observed scenario results t p) [
          | none ↦ skip
          | some v ↦ elim (real_time_blocker scenario results positions t p) [
            | some _ ↦ skip
            | none ↦ compare_result v (run_sequential spec (spec.clone_sequential model) actor)
          ]
        ]
      ]

  -- The loop over the threads; `verify` is the recursive call.
  unfoldable pub try_threads :
      (spec.State → List ℕ → VerifierCache P spec.State → Search spec)
      → spec.State
      → List ℕ
      → List ℕ
      → VerifierCache P spec.State
      → Search spec
  try_threads verify model positions [] cache = (refuted, cache)
  try_threads verify model positions (t ∷ ts) cache = elim (try_candidate model positions t) [
    | skip ↦ try_threads verify model positions ts cache
    | stop x ↦ (Verdict.threw x, cache)
    | advance model' ↦
        otherwise spec (verify model' (advanced positions t) cache)
          (λ cache'. try_threads verify model positions ts cache')
  ]

module _ {P : Payloads} (spec : TestSpec P) (scenario : ExecutionScenario P)
    (results : ExecutionResult P) (explain : Bool) where
  unfoldable pub verify_parallel :
      ℕ → spec.State → List ℕ → VerifierCache P spec.State → Search spec
  verify_parallel zero model positions cache = (out_of_fuel, cache)
  verify_parallel (suc fuel) model positions cache =
      elim (all_done scenario positions (threads scenario)) [
        | true ↦ (finish spec scenario results model, cache)
        | false ↦
            let key = make_cache_key spec model positions in
            elim (consult spec explain key cache) [
              | some verdict ↦ (verdict, cache)
              | none ↦ remember spec key (
                  try_threads spec scenario results (verify_parallel fuel) model positions
                    (threads scenario) cache)
            ]
      ]

  -- After the `init` section. Each recursive call linearizes one operation.
  unfoldable pub verify_from : Applied spec.State → Result VerifierError Bool
  unfolding verdict_result
  verify_from (accepted model) =
      verdict_result
        (verify_parallel (suc (total_length scenario.parallel)) model (start_positions scenario)
          empty_cache).0
  verify_from rejected = ok false
  verify_from (Applied.threw x) = err (operation_threw x)

  -- The common body of `verify` (without `explain`) and `verify_with_report` (with it).
  unfoldable pub verify_scenario : Result VerifierError Bool
  unfolding verify_from
  verify_scenario = elim (validate_scenario_against_spec spec scenario) [
    | err e ↦ err (invalid e)
    | ok _ ↦
        verify_from (apply_sequence spec spec.make_sequential scenario.init results.init_results)
  ]

module _ {P : Payloads} (spec : TestSpec P) (scenario : ExecutionScenario P)
    (results : ExecutionResult P) where
  unfoldable pub verify : Result VerifierError Bool
  unfolding verify_scenario
  verify = verify_scenario spec scenario results false

  -- The field `success` of the report.
  unfoldable pub verify_with_report : Result VerifierError Bool
  unfolding verify_scenario
  verify_with_report = verify_scenario spec scenario results true
