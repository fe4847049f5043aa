-- ===== src/Verifier/Tests.antt =====
-- The verifier on a counter with the operations `inc` and `get`, and on small histories.
use mathlib.Core.Option.{some_inj}
use lincheck_cpp.Prelude.{
  none, arith, ℕ, zero, suc, ◌≡◌, refl, subst, ◌↔◌, ==_iff, Bool, true, false, some, [], ◌∷◌,
  Result, ok, err, codes,
}
use lincheck_cpp.Value.{OperationException, Value, uint64, value_eq}
use lincheck_cpp.Scenario.{
  Actor, OperationOptions, OperationInterval, ExecutionScenario, ExecutionResult, TestSpec,
  returned, raised,
}
use lincheck_cpp.Scenario.Validate.{validate_scenario_against_spec}
use lincheck_cpp.Verifier.Model.{
  rethrown, Called, answered, threw, rejected, run_sequential, apply_loop, apply_sequence,
}
use lincheck_cpp.Verifier.Intervals.{
  all_done, has_complete_intervals, blocks, scan_positions, scan_threads, real_time_blocker,
}
use lincheck_cpp.Verifier.Cache.{
  empty_cache, make_cache_key, consult, find_successful, contains_failed, remember,
}
use lincheck_cpp.Verifier.Search.{
  VerifierError, operation_threw, finish, verdict_result, try_candidate, try_threads,
  verify_parallel, verify_from, verify_scenario, verify, verify_with_report,
}
use lincheck_cpp.Verifier.Linearization.{
  IsQuiet, in_init, in_thread, in_post, SameCall, Unblocked, IsFaithful,
}
use lincheck_cpp.Sample.{plain}
use lincheck_cpp.Verifier.Replay.{AppliedCorrect, apply_sequence_lem}
use lincheck_cpp.Verifier.RealTime.{real_time_blocker_iff}
use lincheck_cpp.Verifier.Memo.{SearchCorrect, empty_cache-Ok}
use lincheck_cpp.Verifier.Decide.{verify_parallel_lem}
use lincheck_cpp.Verifier.Classical.{HasOrder}
use lincheck_cpp.Verifier.Verdict.{verify_correct, report-eq-verify, verify_decides}

abbrev no_options : OperationOptions
no_options = record {
  group = [];
  independence_group = [];
  non_parallel = false;
  one_shot = false;
  exception_results = false;
}

abbrev counter : TestSpec plain
counter = record {
  State = ℕ;
  operations =
      record {
        name = b'i' ∷ [];
        options = no_options;
        argument_count = 0;
        run_sequential = λ n _. (suc n, returned (uint64 (suc n)));
      }
      ∷ record {
        name = b'g' ∷ [];
        options = no_options;
        argument_count = 0;
        run_sequential = λ n _. (n, returned (uint64 n));
      }
      ∷ [];
  make_sequential = 0;
  clone_sequential = λ n. n;
  sequential_state_key = some uint64;
}

abbrev call_of : ℕ → Actor plain
call_of i = record {
  operation_index = i;
  name = [];
  group = [];
  non_parallel = false;
  one_shot = false;
  exception_results = false;
  arguments = [];
}

abbrev timed : ℕ → ℕ → OperationInterval plain
timed invocation response = record {
  invocation_clock = invocation;
  response_clock = response;
  result = uint64 0;
}

-- Two threads: `inc` and then `get`; and `inc`.
abbrev race : ExecutionScenario plain
race = record {
  init = [];
  parallel = (call_of 0 ∷ call_of 1 ∷ []) ∷ (call_of 0 ∷ []) ∷ [];
  post = call_of 1 ∷ [];
}

-- Thread 0 saw 1 and 2, thread 1 saw the given value, and at the end there were two increments.
abbrev seen : ℕ → ExecutionResult plain
seen n = record {
  init_results = [];
  parallel_results = (uint64 1 ∷ uint64 2 ∷ []) ∷ (uint64 n ∷ []) ∷ [];
  post_results = uint64 2 ∷ [];
  init_intervals = [];
  parallel_intervals = (timed 1 2 ∷ timed 5 6 ∷ []) ∷ (timed 3 4 ∷ []) ∷ [];
  post_intervals = [];
}

-- As `seen`, but the `get` ended before the `inc` of thread 1 began.
abbrev stale : ExecutionResult plain
stale = record (seen 2) {
  parallel_intervals = (timed 1 2 ∷ timed 3 4 ∷ []) ∷ (timed 5 6 ∷ []) ∷ [];
}

-- The functions that a run of the verifier goes through, for the `unfolding` lines below.
run : ExecutionResult plain → Result VerifierError Bool
unfolding verify verify_with_report validate_scenario_against_spec apply_sequence apply_loop
    run_sequential verify_parallel all_done consult make_cache_key find_successful contains_failed
    remember try_threads try_candidate real_time_blocker has_complete_intervals scan_threads
    scan_positions blocks finish verdict_result verify_from verify_scenario
run results = verify counter race results

accepts_race : verify counter race (seen 2) ≡ ok true
unfolding run
accepts_race = refl

rejects_lost_update : verify counter race (seen 1) ≡ ok false
unfolding run
rejects_lost_update = refl

rejects_stale : verify counter race stale ≡ ok false
unfolding run
rejects_stale = refl

-- An operation that throws `std::invalid_argument` itself, in a valid scenario.
abbrev own_exception : OperationException
own_exception = record { type = codes "St16invalid_argument"; message = codes "empty" }

abbrev thrower : TestSpec plain
thrower = record counter {
  operations =
      record {
        name = b'p' ∷ [];
        options = no_options;
        argument_count = 0;
        run_sequential = λ n _. (n, raised own_exception);
      }
      ∷ [];
}

abbrev one_call : ExecutionScenario plain
one_call = record { init = call_of 0 ∷ []; parallel = []; post = [] }

throws_its_own :
    verify thrower one_call (record {
      init_results = uint64 0 ∷ [];
      parallel_results = [];
      post_results = [];
      init_intervals = [];
      post_intervals = [];
      parallel_intervals = [];
    })
    ≡ err (operation_threw (rethrown own_exception))
unfolding run
throws_its_own = refl

race_valid : validate_scenario_against_spec counter race ≡ ok tt
unfolding run
race_valid = refl

same_call : (x : Called ℕ (Value plain)) → SameCall counter uint64 x x
same_call (answered m v) = ((==_iff m m).1 refl, λ u. refl)
same_call (threw x) = tt

counter-IsFaithful : IsFaithful counter
counter-IsFaithful = record {
  copies = λ m. refl;
  keys = λ key keyed m n a same.
      let e : uint64 ≡ key = some_inj.0 keyed in
      subst
        (λ (key : ℕ → Value plain).
          value_eq (key m) (key n) ≡ true
          → SameCall counter key (run_sequential counter m a) (run_sequential counter n a))
        e
        (λ same'.
          subst
            (λ n. SameCall counter uint64 (run_sequential counter m a) (run_sequential counter n a))
            ((==_iff m n).0 same') (same_call (run_sequential counter m a)))
        same;
}

-- Both operations of the counter answer in every state.
counter-IsQuiet : IsQuiet counter race
unfolding run
counter-IsQuiet x (in_init (i, a, m, listed, e)) = cc
counter-IsQuiet x (in_thread zero (zero, a, m, listed, e)) = let same = some_inj.0 listed in cc
counter-IsQuiet x (in_thread zero (suc zero, a, m, listed, e)) = let same = some_inj.0 listed in cc
counter-IsQuiet x (in_thread zero (suc (suc i), a, m, listed, e)) = cc
counter-IsQuiet x (in_thread (suc zero) (zero, a, m, listed, e)) =
    let same = some_inj.0 listed in cc
counter-IsQuiet x (in_thread (suc zero) (suc i, a, m, listed, e)) = cc
counter-IsQuiet x (in_thread (suc (suc t)) (i, a, m, listed, e)) = cc
counter-IsQuiet x (in_post (zero, a, m, listed, e)) = let same = some_inj.0 listed in cc
counter-IsQuiet x (in_post (suc i, a, m, listed, e)) = cc

verify_correct_example : ¬ HasOrder counter race stale
unfolding run
verify_correct_example = verify_correct counter race stale counter-IsFaithful

report-eq-verify_example : verify_with_report counter race stale ≡ verify counter race stale
report-eq-verify_example = report-eq-verify counter race stale counter-IsFaithful counter-IsQuiet

verify_decides_example :
    (b : Bool) × (verify counter race (seen 2) ≡ ok b)
    × ((b ≡ true) ↔ HasOrder counter race (seen 2))
verify_decides_example =
    verify_decides counter race (seen 2) counter-IsFaithful counter-IsQuiet race_valid

apply_sequence_lem_example :
    AppliedCorrect counter 0 (call_of 0 ∷ call_of 1 ∷ []) (uint64 1 ∷ uint64 2 ∷ []) rejected
unfolding run
apply_sequence_lem_example =
    apply_sequence_lem counter 0 (call_of 0 ∷ call_of 1 ∷ []) (uint64 1 ∷ uint64 2 ∷ [])

real_time_blocker_iff_example :
    (real_time_blocker race stale (1 ∷ 0 ∷ []) 1 0 ≡ none) ↔ Unblocked race stale (1 ∷ 0 ∷ []) 1 0
real_time_blocker_iff_example = real_time_blocker_iff race stale (1 ∷ 0 ∷ []) 1 0

-- The `inc` of thread 1 began after the `get` of thread 0 had ended, so the `get` comes first.
stale_blocked : real_time_blocker race stale (1 ∷ 0 ∷ []) 1 0 ≡ some (0, 1)
unfolding run
stale_blocked = refl

verify_parallel_lem_example :
    SearchCorrect counter race
      (seen 1)
      counter-IsFaithful
      0
      (0 ∷ 0 ∷ [])
      (verify_parallel counter race (seen 1) false 4 0 (0 ∷ 0 ∷ []) empty_cache)
verify_parallel_lem_example =
    verify_parallel_lem counter race (seen 1) counter-IsFaithful false 4 0 (0 ∷ 0 ∷ []) empty_cache
      refl (omega arith) (empty_cache-Ok counter race (seen 1) counter-IsFaithful)
