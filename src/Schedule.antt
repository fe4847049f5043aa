-- ===== src/Schedule.antt =====
-- include/lincheck/lincheck.hpp: the schedules that a run replays, and the recorded decisions that
-- they are taken from.
pub mod Replay
mod Tests
use lincheck_cpp.Prelude.{
  ℕ, suc, Bool, true, false, not, ◌||◌, ◌==◌, ltb, if◌then◌else◌, List, [], ◌∷◌, length, Result, ok,
  err, ℤ, pos, negsuc, int_eq, ◌>>=◌, ◌>>◌,
}
use lincheck_cpp.Value.{Str, Payloads}
use lincheck_cpp.Scenario.{ExecutionScenario, valid}

-- The fields that a replay reads.
pub record ScheduleDecision : Type 0 where
  pub switch_position : ℕ
  pub location : Str
  pub runnable_threads : List ℤ
  pub chosen_thread : ℤ

-- The `std::invalid_argument` exceptions, by their messages.
pub data ReplayError : Type 0 where
  no_parallel_actor empty_schedule empty_decisions : ReplayError
  choice_outside : ℤ → ReplayError
  not_contiguous no_location chosen_outside chosen_not_runnable runnable_outside : ReplayError

-- `choice < 0 || static_cast<std::size_t>(choice) >= count`
abbrev pub is_outside : ℕ → ℤ → Bool
is_outside count (pos n) = not (ltb n count)
is_outside count (negsuc n) = true

unfoldable pub validate_choices : ℕ → List ℤ → Result ReplayError (Unit {0})
validate_choices count [] = ok tt
validate_choices count (choice ∷ choices) =
    if is_outside count choice then err (choice_outside choice) else validate_choices count choices

-- `std::find`
abbrev pub is_listed : ℤ → List ℤ → Bool
is_listed thread [] = false
is_listed thread (t ∷ ts) = int_eq t thread || is_listed thread ts

abbrev pub any_outside : ℕ → List ℤ → Bool
any_outside count [] = false
any_outside count (t ∷ ts) = is_outside count t || any_outside count ts

abbrev pub is_blank : Str → Bool
is_blank [] = true
is_blank (_ ∷ _) = false

-- The checks of one decision, at position i.
unfoldable pub validate_decision : ℕ → ℕ → ScheduleDecision → Result ReplayError (Unit {0})
validate_decision count i decision =
    if not (decision.switch_position == i)
    then err not_contiguous
    else if is_blank decision.location
    then err no_location
    else if is_outside count decision.chosen_thread
    then err chosen_outside
    else if not (is_listed decision.chosen_thread decision.runnable_threads)
    then err chosen_not_runnable
    else if any_outside count decision.runnable_threads
    then err runnable_outside
    else ok tt

-- The loop over the decisions, from position i on.
unfoldable pub decisions_loop : ℕ → ℕ → List ScheduleDecision → Result ReplayError (List ℤ)
decisions_loop count i [] = ok []
decisions_loop count i (decision ∷ decisions) = do
  validate_decision count i decision
  schedule ← decisions_loop count (suc i) decisions
  ok (decision.chosen_thread ∷ schedule)

module _ {P : Payloads} (scenario : ExecutionScenario P) where
  unfoldable pub validate_replay_schedule : List ℤ → Result ReplayError (Unit {0})
  validate_replay_schedule [] =
      if not (valid scenario) then err no_parallel_actor else err empty_schedule
  validate_replay_schedule (choice ∷ schedule) =
      if not (valid scenario)
      then err no_parallel_actor
      else validate_choices (length scenario.parallel) (choice ∷ schedule)

  unfoldable pub schedule_from_decisions : List ScheduleDecision → Result ReplayError (List ℤ)
  schedule_from_decisions [] =
      if not (valid scenario) then err no_parallel_actor else err empty_decisions
  schedule_from_decisions (decision ∷ decisions) =
      if not (valid scenario)
      then err no_parallel_actor
      else decisions_loop (length scenario.parallel) 0 (decision ∷ decisions)
