-- ===== src/Verifier/Verdict.antt =====
-- `verify` and `verify_with_report`: what their answers say of the history.
use lincheck_cpp.Prelude.{
  suc, ◌≡◌, refl, subst, ◌↔◌, Bool, true, false, length, length-replicate, total_length, Result, ok,
  err, arith,
}
use lincheck_cpp.Value.{Payloads, OperationException}
use lincheck_cpp.Scenario.{ExecutionScenario, ExecutionResult, TestSpec}
use lincheck_cpp.Scenario.Validate.{Check, validate_scenario_against_spec}
use lincheck_cpp.Verifier.Model.{rethrown, Applied, accepted, rejected, apply_sequence}
use lincheck_cpp.Verifier.Intervals.{start_positions}
use lincheck_cpp.Verifier.Cache.{Verdict, linearized, refuted, out_of_fuel, Search, empty_cache}
use lincheck_cpp.Verifier.Search.{
  VerifierError, invalid, operation_threw, no_fuel, verdict_result, verify_parallel, verify_from,
  verify_scenario, verify, verify_with_report,
}
use lincheck_cpp.Verifier.Linearization.{Throws, IsQuiet, in_init, IsFaithful, Replays, Linearizes}
use lincheck_cpp.Verifier.Replay.{AppliedCorrect, Replays-unique, apply_sequence_lem}
use lincheck_cpp.Verifier.Memo.{SearchCorrect, empty_cache-Ok}
use lincheck_cpp.Verifier.Remaining.{remaining-start}
use lincheck_cpp.Verifier.Decide.{verify_parallel_lem}
use lincheck_cpp.Verifier.Named.{valid-rethrown}
use lincheck_cpp.Verifier.Classical.{HasOrder, Linearizable_iff_order}

module _ {P : Payloads} (spec : TestSpec P) (scenario : ExecutionScenario P)
    (results : ExecutionResult P) where
  -- What each answer of the verifier means.
  abbrev pub AnswerCorrect : Result VerifierError Bool → Type 0
  AnswerCorrect (ok true) = HasOrder spec scenario results
  AnswerCorrect (ok false) = ¬ HasOrder spec scenario results
  AnswerCorrect (err (invalid e)) = validate_scenario_against_spec spec scenario ≡ err e
  AnswerCorrect (err (operation_threw x)) = Throws spec scenario x
  AnswerCorrect (err no_fuel) = ⊥

  -- What each answer says to the caller: an exception is the one that the validation throws, or an
  -- operation's own.
  abbrev pub Explains : Result VerifierError Bool → Type 0
  Explains (ok true) = HasOrder spec scenario results
  Explains (ok false) = ¬ HasOrder spec scenario results
  Explains (err (invalid e)) = validate_scenario_against_spec spec scenario ≡ err e
  Explains (err (operation_threw x)) =
      (validate_scenario_against_spec spec scenario ≡ ok tt)
      × (e : OperationException) × (x ≡ rethrown e)
      × Throws spec scenario x
  Explains (err no_fuel) = ⊥

  module _ (faithful : IsFaithful spec) where
    search_lem :
        (explain : Bool) (m : spec.State)
        → SearchCorrect spec scenario results faithful m (start_positions scenario) (
            verify_parallel spec scenario results explain
              (suc (total_length scenario.parallel))
              m
              (start_positions scenario)
              empty_cache)
    search_lem explain m =
        verify_parallel_lem spec scenario results faithful explain _ m (start_positions scenario)
          empty_cache (length-replicate (length scenario.parallel) 0)
          (omega (arith, remaining-start scenario.parallel))
          (empty_cache-Ok spec scenario results faithful)

    -- The answer for the parallel section, from a model that the `init` section leads to.
    search_answer :
        {m : spec.State} (search : Search spec)
        → Replays spec scenario.init results.init_results spec.make_sequential m
        → SearchCorrect spec scenario results faithful m (start_positions scenario) search
        → AnswerCorrect (verdict_result search.0)
    unfolding verdict_result
    search_answer {m} (linearized m', cache) r l =
        (Linearizable_iff_order spec scenario results).0
          (record { started = m; ended = m'; init = r; parallel = l })
    search_answer (refuted, cache) r (cannot, _) = λ o.
        let l = (Linearizable_iff_order spec scenario results).1 o in
        cannot l.ended (
          subst (λ m. Linearizes spec scenario results m (start_positions scenario) l.ended)
            (Replays-unique spec r l.init) l.parallel)
    search_answer (Verdict.threw x, cache) r throws = throws
    search_answer (out_of_fuel, cache) r h = h

    start_answer :
        (explain : Bool) (applied : Applied spec.State)
        → AppliedCorrect spec spec.make_sequential scenario.init results.init_results applied
        → AnswerCorrect (verify_from spec scenario results explain applied)
    unfolding verify_from
    start_answer explain (accepted m) r = search_answer _ r (search_lem explain m)
    start_answer explain rejected no_replay = λ o. no_replay o.started o.init
    start_answer explain (Applied.threw x) throws = in_init throws

    scenario_answer :
        (explain : Bool) → AnswerCorrect (verify_scenario spec scenario results explain)
    unfolding verify_scenario
    scenario_answer explain = go (validate_scenario_against_spec spec scenario) refl
      where
        go :
            (v : Check (Unit {0}))
            → validate_scenario_against_spec spec scenario ≡ v
            → AnswerCorrect (verify_scenario spec scenario results explain)
        go (err e) h = rw (h, verify_scenario) h
        go (ok _) h =
            rw (h, verify_scenario)
              (start_answer explain _
                (apply_sequence_lem spec spec.make_sequential scenario.init results.init_results))

    explain_answer :
        (x : Result VerifierError Bool)
        → validate_scenario_against_spec spec scenario ≡ ok tt
        → AnswerCorrect x
        → Explains x
    explain_answer (ok true) good h = h
    explain_answer (ok false) good h = h
    explain_answer (err (invalid e)) good h = h
    explain_answer (err (operation_threw x)) good h =
        let (e, own) = valid-rethrown spec scenario x good h in (good, e, own, h)
    explain_answer (err no_fuel) good h = h

    -- For a faithful specification `verify` returns or throws within its fuel: it returns true only
    -- if the history has a linearization, and false only if it has none. It throws what the
    -- validation of the scenario throws; or, where the scenario is valid, an operation's own
    -- exception, by its type and message, that the call of some actor of the scenario throws in
    -- some state and that is not taken for a result. A call of `operations.at` in a valid scenario
    -- never throws.
    pub verify_correct : Explains (verify spec scenario results)
    unfolding verify verify_scenario
    verify_correct = go (validate_scenario_against_spec spec scenario) refl
      where
        go :
            (v : Check (Unit {0}))
            → validate_scenario_against_spec spec scenario ≡ v
            → Explains (verify_scenario spec scenario results false)
        go (ok _) good = explain_answer _ good (scenario_answer false)
        go (err e) h = rw (h, verify_scenario) h

  module _ (faithful : IsFaithful spec) (quiet : IsQuiet spec scenario) where
    same_verdict :
        (m : spec.State) (x y : Search spec)
        → SearchCorrect spec scenario results faithful m (start_positions scenario) x
        → SearchCorrect spec scenario results faithful m (start_positions scenario) y
        → verdict_result x.0 ≡ verdict_result y.0
    unfolding verdict_result
    same_verdict m (linearized a, _) (linearized b, _) h k = refl
    same_verdict m (refuted, _) (refuted, _) h k = refl
    same_verdict m (linearized a, _) (refuted, _) h (cannot, _) = absurd (cannot a h)
    same_verdict m (refuted, _) (linearized b, _) (cannot, _) k = absurd (cannot b k)
    same_verdict m (Verdict.threw e, _) y h k = absurd (quiet e h)
    same_verdict m (out_of_fuel, _) y h k = absurd h
    same_verdict m x (Verdict.threw e, _) h k = absurd (quiet e k)
    same_verdict m x (out_of_fuel, _) h k = absurd k

    same_start :
        (applied : Applied spec.State)
        → verify_from spec scenario results true applied
          ≡ verify_from spec scenario results false applied
    unfolding verify_from
    same_start (accepted m) =
        same_verdict m _ _ (search_lem faithful true m) (search_lem faithful false m)
    same_start rejected = refl
    same_start (Applied.threw x) = refl

    -- For a faithful specification and actors that throw nothing that is not taken for a result,
    -- the report says the same as `verify`, though only `verify` reads the cache of failures.
    pub report-eq-verify : verify_with_report spec scenario results ≡ verify spec scenario results
    unfolding verify_with_report verify verify_scenario
    report-eq-verify = go (validate_scenario_against_spec spec scenario) refl
      where
        go :
            (v : Check (Unit {0}))
            → validate_scenario_against_spec spec scenario ≡ v
            → verify_scenario spec scenario results true
              ≡ verify_scenario spec scenario results false
        go (err e) h = rw (h, verify_scenario)
        go (ok _) h =
            rw (h, verify_scenario)
              (same_start
                (apply_sequence spec spec.make_sequential scenario.init results.init_results))

    -- For a faithful specification, actors that throw nothing that is not taken for a result, and a
    -- valid scenario, `verify` returns a Boolean, which is true exactly if the history has a
    -- linearization: one order of all parallel operations that keeps each thread's order and the
    -- real-time order, as far as the intervals are complete and record it, between the init and the
    -- post section, that the sequential model replays.
    pub verify_decides :
        validate_scenario_against_spec spec scenario ≡ ok tt
        → (b : Bool) × (verify spec scenario results ≡ ok b)
          × ((b ≡ true) ↔ HasOrder spec scenario results)
    verify_decides good = decided (verify spec scenario results) (verify_correct faithful)
      where
        decided :
            (x : Result VerifierError Bool)
            → Explains x
            → (b : Bool) × (x ≡ ok b) × ((b ≡ true) ↔ HasOrder spec scenario results)
        decided (ok true) o = (true, refl, (λ _. o, λ _. refl))
        decided (ok false) o = (false, refl, (λ h. cc, λ h. absurd (o h)))
        decided (err (invalid e)) h = cc
        decided (err (operation_threw x)) (_, _, _, h) = absurd (quiet x h)
        decided (err no_fuel) h = absurd h
