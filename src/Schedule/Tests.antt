-- ===== src/Schedule/Tests.antt =====
-- Sample schedules.
use lincheck_cpp.Prelude.{ℤ, pos, ℕ, ◌≡◌, ◌≢◌, ◌↔◌, refl, true, List, [], ◌∷◌, ok, err}
use lincheck_cpp.Sample.{plain, actor}
use lincheck_cpp.Scenario.{ExecutionScenario, valid}
use lincheck_cpp.Schedule.{
  ScheduleDecision, not_contiguous, validate_decision, decisions_loop, validate_replay_schedule,
  schedule_from_decisions,
}
use lincheck_cpp.Schedule.Replay.{
  AreThreads, AreReplayable, chosen_threads, validate_replay_schedule_iff,
  schedule_from_decisions_iff, from_decisions_replays,
}

abbrev two_threads : ExecutionScenario plain
two_threads = record { init = []; parallel = (actor 0 ∷ []) ∷ (actor 1 ∷ []) ∷ []; post = [] }

abbrev decision : ℕ → ℕ → ScheduleDecision
decision position thread = record {
  switch_position = position;
  location = b'x' ∷ [];
  runnable_threads = pos 0 ∷ pos 1 ∷ [];
  chosen_thread = pos thread;
}

abbrev decisions : List ScheduleDecision
decisions = decision 0 1 ∷ decision 1 0 ∷ []

abbrev schedule : List ℤ
schedule = pos 1 ∷ pos 0 ∷ []

decisions_taken : schedule_from_decisions two_threads decisions ≡ ok schedule
unfolding schedule_from_decisions decisions_loop validate_decision valid
decisions_taken = refl

decision_skipped :
    schedule_from_decisions two_threads (decision 0 1 ∷ decision 2 0 ∷ []) ≡ err not_contiguous
unfolding schedule_from_decisions decisions_loop validate_decision valid
decision_skipped = refl

validate_replay_schedule_iff_example :
    (validate_replay_schedule two_threads schedule ≡ ok tt)
    ↔ (valid two_threads ≡ true) × (schedule ≢ []) × AreThreads 2 schedule
validate_replay_schedule_iff_example = validate_replay_schedule_iff two_threads schedule

schedule_from_decisions_iff_example :
    (schedule_from_decisions two_threads decisions ≡ ok schedule)
    ↔ (valid two_threads ≡ true)
      × (decisions ≢ [])
      × AreReplayable 2 0 decisions
      × (schedule ≡ chosen_threads decisions)
schedule_from_decisions_iff_example = schedule_from_decisions_iff two_threads decisions schedule

from_decisions_replays_example : validate_replay_schedule two_threads schedule ≡ ok tt
from_decisions_replays_example =
    from_decisions_replays two_threads decisions schedule decisions_taken
