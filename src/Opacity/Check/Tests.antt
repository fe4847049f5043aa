-- ===== src/Opacity/Check/Tests.antt =====
-- A run of one transaction that reads the initial value of its location.
use lincheck_cpp.Prelude.{
  ℕ, zero, suc, ◌≡◌, sym, subst, ap, ◌∙◌, true, false, none, some, [], ◌∷◌, inl, inr, Bool-cases,
  list_eq, pos, Result, ok, err, find, put, member, add, discard, digits, to_string, int_to_string,
  ==_iff, arith,
}
use mathlib.Core.Option.{some_inj}
use lincheck_cpp.Sample.{plain}
use lincheck_cpp.Value.{Str, Value, int64}
use lincheck_cpp.Value.Symmetric.{EqIsSymmetric}
use lincheck_cpp.Opacity.Event.{
  StmEventRecord, StmEventKind, tx_location_init, tx_begin, tx_read, tx_commit_success,
}
use lincheck_cpp.Opacity.History.{StmOpacityHistory, value_history_only, find_value}
use lincheck_cpp.Opacity.Reads.{stm_opacity_final_writes}
use lincheck_cpp.Opacity.History
use lincheck_cpp.Opacity.Reads
use lincheck_cpp.Opacity.Builder
use lincheck_cpp.Opacity.Builder.Locations
use lincheck_cpp.Opacity.Builder.Places
use lincheck_cpp.Opacity.Builder.Handlers
use lincheck_cpp.Opacity.Builder.Build
use lincheck_cpp.Opacity.Builder.{HistoryError}
use lincheck_cpp.Opacity.Builder.Build.{build_stm_opacity_history}
use lincheck_cpp.Opacity.Search.Keys.{MayHold, HashesDiffer}
use lincheck_cpp.Opacity.Search.Verify
use lincheck_cpp.Opacity.Search.Verify.{committed_of}
use lincheck_cpp.Opacity.Check.{
  CheckResult, no_failure, earlier, malformed_result, apply_stm_opacity_check,
}
use lincheck_cpp.Opacity.Check.Decides.{Judges, apply-Judges}

abbrev x : Str
x = b'x' ∷ []

abbrev event : StmEventKind → ℕ → StmEventRecord plain
event kind index = record {
  sequence = index;
  event_index = index;
  thread_id = pos 0;
  operation = none;
  kind = kind;
  address_id = x;
  location_handle_id = [];
  object_lifetime_id = [];
  object_lifetime_generation = 0;
  has_object_lifetime_generation = false;
  field_id = [];
  read_only = false;
  has_read_only = false;
  lock_slot = 0;
  has_lock_slot = false;
  version = 0;
  has_version = false;
  attempt = pos 0;
  transaction_id = 7;
  logical_transaction_id = 0;
  label = [];
  type_name = [];
  value = int64 5;
  has_value = true;
  value_supported = true;
}

abbrev run : CheckResult plain
run = record {
  success = true;
  failure = no_failure;
  message = earlier;
  opacity_checked = false;
  opacity_history = none;
  opacity_result = malformed_result;
  opacity_explanation = none;
  stm_events =
      event tx_location_init 0
      ∷ event tx_begin 1
      ∷ event tx_read 2
      ∷ event tx_commit_success 3
      ∷ [];
}

abbrev built_history : Result HistoryError (StmOpacityHistory plain) → StmOpacityHistory plain
built_history (ok history) = history
built_history (err e) = record {
  locations = [];
  transactions = [];
  lifetime_policy = value_history_only;
  ignored_lifetime_anomalies = 0;
}

abbrev history : StmOpacityHistory plain
history = built_history (build_stm_opacity_history value_history_only run.stm_events)

-- Only the value 5 is ever held.
held-5 : (k : Str) (v : Value plain) → MayHold history (committed_of history) k v → v ≡ int64 5
unfolding build_stm_opacity_history Builder.find_tx Builder.require_tx Builder.anomaly_if
    Builder.store_tx Builder.store_location Builder.require_supported_value Builder.tx_key
    Builder.location_key Builder.empty_state Locations.ensure_active_location
    Locations.check_raw_address Locations.open_raw_location Locations.location_at
    Places.init_location Places.revive Handlers.begin_transaction Handlers.access_transaction
    Handlers.locate_access Handlers.locate_raw_access Handlers.end_transaction Handlers.handle_event
    Handlers.handle_kind Build.handle_events Build.check_transactions Build.check_accesses
    Build.is_initialised Build.sort_transactions Build.insert_transaction find put member add
    discard digits to_string int_to_string History.make_initial_stm_opacity_state
    History.initial_loop History.emplace History.find_value Verify.select
    Reads.stm_opacity_final_writes Reads.final_writes_loop History.insert_or_assign
held-5 k v (inl e) = elim (Bool-cases (list_eq x k)) [
  | inl y ↦ ground (arith, e, y)
  | inr n ↦ absurd (ground (arith, e, n))
]
held-5 k v (inr (zero, w)) =
    let f =
      subst (λ t. find_value k (stm_opacity_final_writes t) ≡ some v) (sym (some_inj.0 w.there))
        w.written in
    cc
held-5 k v (inr (suc s, w)) = let f = w.there in cc

run-HashesDiffer :
    (other : StmOpacityHistory plain)
    → build_stm_opacity_history value_history_only run.stm_events ≡ ok other
    → HashesDiffer other (committed_of other)
run-HashesDiffer other b =
    subst (λ h. HashesDiffer h (committed_of h)) (ap built_history b)
      (λ k v w hv hw e. held-5 k v hv ∙ sym (held-5 k w hw))

plain-EqIsSymmetric : EqIsSymmetric plain
plain-EqIsSymmetric = record {
  doubles = λ a b e. ground (arith, ==_iff a b, ==_iff b a);
  users = λ a b e. ground (arith, ==_iff a b, ==_iff b a);
  exceptions = λ u e. (λ h. cc, λ h. cc);
}

apply-Judges_example :
    Judges run 1 value_history_only (apply_stm_opacity_check run 1 value_history_only)
apply-Judges_example = apply-Judges run 1 value_history_only plain-EqIsSymmetric run-HashesDiffer
