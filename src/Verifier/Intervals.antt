-- ===== src/Verifier/Intervals.antt =====
-- include/lincheck/lincheck.hpp, `LinearizabilityVerifier`: positions in the history, and
-- `real_time_blocker` over the clocks of its operations.
use lincheck_cpp.Prelude.{
  ℕ, suc, ◌-◌, Bool, true, false, not, ◌&&◌, ◌==◌, ltb, if◌then◌else◌, Option, none, some, List, [],
  ◌∷◌, length, get_elem?, get_or, set, replicate, range_from,
}
use lincheck_cpp.Value.{Payloads, Value, monostate}
use lincheck_cpp.Scenario.{Actor, OperationInterval, ExecutionScenario, ExecutionResult}

-- `positions[t]`
abbrev pub position : List ℕ → ℕ → ℕ
position positions t = get_or positions t 0

-- The copy of `positions` for the recursive call.
abbrev pub advanced : List ℕ → ℕ → List ℕ
advanced positions t = set positions t (suc (position positions t))

module _ {P : Payloads} (scenario : ExecutionScenario P) where
  abbrev pub row : ℕ → List (Actor P)
  row t = get_or scenario.parallel t []

  abbrev pub threads : List ℕ
  threads = range_from 0 (length scenario.parallel)

  abbrev pub start_positions : List ℕ
  start_positions = replicate (length scenario.parallel) 0

  -- The loop that computes `complete`.
  unfoldable pub all_done : List ℕ → List ℕ → Bool
  all_done positions [] = true
  all_done positions (t ∷ ts) =
      if ltb (position positions t) (length (row t)) then false else all_done positions ts

-- The history under test, and the reads of its vectors.
module _ {P : Payloads} (scenario : ExecutionScenario P) (results : ExecutionResult P) where
  -- `parallel_results[t][p]`, `none` where there is no result vector or no observed result.
  abbrev pub observed : ℕ → ℕ → Option (Value P)
  observed t p = get_elem? (get_or results.parallel_results t []) p

  -- `parallel_intervals[t][p]`, read only behind `has_complete_intervals`.
  abbrev pub interval : ℕ → ℕ → OperationInterval P
  interval t p =
      get_or (get_or results.parallel_intervals t []) p
        (record { invocation_clock = 0; response_clock = 0; result = monostate })

  rows_complete : List (List (Actor P)) → List (List (OperationInterval P)) → Bool
  rows_complete [] intervals = true
  rows_complete (actors ∷ rest) [] = false
  rows_complete (actors ∷ rest) (is ∷ intervals) =
      length is == length actors && rows_complete rest intervals

  unfoldable pub has_complete_intervals : Bool
  unfolding rows_complete
  has_complete_intervals =
      length results.parallel_intervals == length scenario.parallel
      && rows_complete scenario.parallel results.parallel_intervals

  -- The test of the inner loop of `real_time_blocker` on the pending operation (u, q).
  unfoldable pub blocks : ℕ → ℕ → ℕ → ℕ → Bool
  blocks t p u q =
      not (u == t && q == p)
      && (not ((interval u q).response_clock == 0)
          && ltb (interval u q).response_clock (interval t p).invocation_clock)

  unfoldable pub scan_positions : ℕ → ℕ → ℕ → List ℕ → Option (ℕ × ℕ)
  scan_positions t p u [] = none
  scan_positions t p u (q ∷ qs) = if blocks t p u q then some (u, q) else scan_positions t p u qs

  unfoldable pub scan_threads : List ℕ → ℕ → ℕ → List ℕ → Option (ℕ × ℕ)
  scan_threads positions t p [] = none
  scan_threads positions t p (u ∷ us) =
      elim (scan_positions t p u
        (range_from (position positions u) (length (row scenario u) - position positions u))) [
          | some b ↦ some b
          | none ↦ scan_threads positions t p us
        ]

  -- The first pending operation that responded before the candidate (t, p) was invoked.
  unfoldable pub real_time_blocker : List ℕ → ℕ → ℕ → Option (ℕ × ℕ)
  real_time_blocker positions t p =
      if has_complete_intervals
      then if (interval t p).invocation_clock == 0
        then none
        else scan_threads positions t p (threads scenario)
      else none
