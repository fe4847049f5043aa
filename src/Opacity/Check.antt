-- ===== src/Opacity/Check.antt =====
-- include/lincheck/lincheck.hpp, `apply_stm_opacity_check`: the history of a run's STM events is
-- built and judged. Of the result of a check, the fields that the function reads or changes; an
-- explanation is the error of the builder that it names. The verifier's texts and the partial
-- history of a malformed one are left out.
pub mod Decides
mod Tests
use lincheck_cpp.Prelude.{ℕ, Bool, true, false, Option, none, some, List, [], Result, ok, err}
use lincheck_cpp.Value.{Payloads}
use lincheck_cpp.Opacity.Event.{StmEventRecord}
use lincheck_cpp.Opacity.History.{StmOpacityHistory, StmLifetimePolicy}
use lincheck_cpp.Opacity.Builder.{HistoryError, out_of_range}
use lincheck_cpp.Opacity.Builder.Build.{build_stm_opacity_history}
use lincheck_cpp.Opacity.Search.Verify.{
  StmOpacityStatus, malformed_history, violation, search_limit_exceeded,
  StmOpacityVerificationResult, verify_stm_opacity,
}
use lincheck_cpp.Opacity.Search.Verify

pub data FailureKind : Type 0 where
  no_failure invalid_results validation_failure opacity_violation : FailureKind
  unexpected_exception deadlock livelock obstruction_freedom timeout : FailureKind

-- The messages that the function writes, and those that were there before.
pub data CheckMessage : Type 0 where
  earlier malformed_stm_opacity_history stm_opacity_search_limit stm_opacity_violation :
      CheckMessage

pub record CheckResult (P : Payloads) : Type 0 where
  pub success : Bool
  pub failure : FailureKind
  pub message : CheckMessage
  pub opacity_checked : Bool
  pub opacity_history : Option (StmOpacityHistory P)
  pub opacity_result : StmOpacityVerificationResult
  pub opacity_explanation : Option HistoryError
  pub stm_events : List (StmEventRecord P)

-- The answer and the result after the call, or the exception of `at`. `out_of_fuel` belongs to the
-- model only.
pub data CheckOutcome (P : Payloads) : Type 0 where
  returns : Bool → CheckResult P → CheckOutcome P
  throws_out_of_range out_of_fuel : CheckOutcome P

-- `result.opacity_result = {}`, with the status that follows.
abbrev pub malformed_result : StmOpacityVerificationResult
malformed_result = record {
  status = malformed_history;
  committed_order = [];
  committed_transaction_count = 0;
  observer_transaction_count = 0;
  committed_order_search_space_upper_bound = 0;
  committed_order_search_limit = 0;
  committed_orders_explored = 0;
}

-- `StmOpacityVerificationResult::success`
abbrev pub is_ok : StmOpacityStatus → Bool
is_ok Verify.ok = true
is_ok malformed_history = false
is_ok violation = false
is_ok search_limit_exceeded = false

abbrev pub failure_message : StmOpacityStatus → CheckMessage
failure_message search_limit_exceeded = stm_opacity_search_limit
failure_message Verify.ok = stm_opacity_violation
failure_message malformed_history = stm_opacity_violation
failure_message violation = stm_opacity_violation

module _ {P : Payloads} where
  abbrev pub fails : CheckMessage → CheckResult P → CheckResult P
  fails message result = record result {
    success = false;
    failure = opacity_violation;
    message = message;
  }

  abbrev pub malformed : HistoryError → CheckResult P → CheckOutcome P
  malformed out_of_range result = throws_out_of_range
  malformed e result = returns false (
      fails malformed_stm_opacity_history (record result {
        opacity_checked = true;
        opacity_history = none;
        opacity_result = malformed_result;
        opacity_explanation = some e;
      }))

  abbrev pub judged :
      CheckResult P → StmOpacityHistory P → Option StmOpacityVerificationResult → CheckOutcome P
  judged result history none = out_of_fuel
  judged result history (some verdict) =
      let after = record result {
        opacity_checked = true;
        opacity_history = some history;
        opacity_result = verdict;
        opacity_explanation = none;
      } in
      elim (is_ok verdict.status) [
        | true ↦ returns true after
        | false ↦ returns false (fails (failure_message verdict.status) after)
      ]

  unfoldable pub apply_stm_opacity_check : CheckResult P → ℕ → StmLifetimePolicy → CheckOutcome P
  apply_stm_opacity_check result max_committed_orders policy =
      elim (build_stm_opacity_history policy result.stm_events) [
        | err e ↦ malformed e result
        | ok history ↦ judged result history (verify_stm_opacity history max_committed_orders)
      ]
