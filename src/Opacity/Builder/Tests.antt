-- ===== src/Opacity/Builder/Tests.antt =====
-- Events of two transactions on one location, and the states and histories that they lead to.
use lincheck_cpp.Prelude.{
  ℕ, ◌≡◌, ◌≢◌, ◌↔◌, refl, subst, true, false, none, List, [], ◌∷◌, map, member, find, put, add, pos,
  Result, ok, err, arith, digits, to_string, int_to_string, discard,
}
use lincheck_cpp.Sample.{plain}
use lincheck_cpp.Value.{Str, monostate, int64}
use lincheck_cpp.Opacity.Event.{
  StmEventRecord, StmEventKind, tx_location_init, tx_begin, tx_read, tx_write, tx_commit_success,
  tx_abort,
}
use lincheck_cpp.Opacity.History.{
  StmOpacityHistory, StmOpacityTransactionAttempt, value_history_only, strict_lifetimes,
}
use lincheck_cpp.Opacity.Builder
use lincheck_cpp.Opacity.Builder.Locations
use lincheck_cpp.Opacity.Builder.Places
use lincheck_cpp.Opacity.Builder.Handlers
use lincheck_cpp.Opacity.Builder.Build
use lincheck_cpp.Opacity.Builder.{
  BuildState, HistoryError, empty_state, no_initial_value, reused_while_live, ended_twice,
  destroyed_while_live,
}
use lincheck_cpp.Opacity.Builder.Handlers.{
  handle_event, handle_kind, begin_transaction, end_transaction, event_key, begun, ended,
}
use lincheck_cpp.Opacity.Builder.Build.{
  build_stm_opacity_history, handle_events, check_transactions, sort_transactions,
}
use lincheck_cpp.Opacity.Builder.Table.{Gives}
use lincheck_cpp.Opacity.Builder.Sorted.{All}
use lincheck_cpp.Opacity.Builder.Consistent.{IsConsistent}
use lincheck_cpp.Opacity.Builder.Events.{handle_event-IsConsistent}
use lincheck_cpp.Opacity.Builder.WellFormed.{IsWellFormed, build-IsWellFormed, empty-IsConsistent}
use lincheck_cpp.Opacity.Builder.Initial.{HasInitialValue, build-HasInitialValue}
use lincheck_cpp.Opacity.Builder.Ends.{Accepts, end_transaction_iff, end_transaction_once}

abbrev x : Str
x = b'x' ∷ []

abbrev event : StmEventKind → ℕ → ℕ → StmEventRecord plain
event kind index id = record {
  sequence = index;
  event_index = index;
  thread_id = pos 0;
  operation = none;
  kind = kind;
  address_id = [];
  location_handle_id = [];
  object_lifetime_id = [];
  object_lifetime_generation = 0;
  has_object_lifetime_generation = false;
  field_id = [];
  read_only = false;
  has_read_only = false;
  lock_slot = 0;
  has_lock_slot = false;
  version = 0;
  has_version = false;
  attempt = pos 0;
  transaction_id = id;
  logical_transaction_id = 0;
  label = [];
  type_name = [];
  value = monostate;
  has_value = false;
  value_supported = true;
}

abbrev access : StmEventKind → ℕ → ℕ → ℕ → StmEventRecord plain
access kind index id n = record (event kind index id) {
  address_id = x;
  value = int64 n;
  has_value = true;
}

abbrev events : List (StmEventRecord plain)
events =
    access tx_location_init 0 0 5
    ∷ event tx_begin 1 7
    ∷ access tx_read 2 7 5
    ∷ access tx_write 3 7 4
    ∷ event tx_commit_success 4 7
    ∷ event tx_begin 5 8
    ∷ access tx_read 6 8 4
    ∷ event tx_abort 7 8
    ∷ []

abbrev ids : Result HistoryError (StmOpacityHistory plain) → List ℕ
ids (ok history) =
    map (λ (tx : StmOpacityTransactionAttempt plain). tx.transaction_id) history.transactions
ids (err e) = []

-- Whether the first is accepted, and a history whose location has no initial value is not.
ids_of_events :
    (ids (build_stm_opacity_history value_history_only events) ≡ 7 ∷ 8 ∷ [])
    × (build_stm_opacity_history value_history_only (event tx_begin 1 7 ∷ access tx_read 2 7 5 ∷ [])
        ≡ err (no_initial_value x))
unfolding build_stm_opacity_history Builder.find_tx Builder.require_tx Builder.anomaly_if
    Builder.store_tx Builder.store_location Builder.require_supported_value Builder.tx_key
    Builder.location_key Builder.empty_state Locations.ensure_active_location
    Locations.check_raw_address Locations.open_raw_location Locations.location_at
    Places.init_location Places.revive Handlers.begin_transaction Handlers.access_transaction
    Handlers.locate_access Handlers.locate_raw_access Handlers.end_transaction Handlers.handle_event
    Handlers.handle_kind Build.handle_events Build.check_transactions Build.check_accesses
    Build.is_initialised Build.sort_transactions Build.insert_transaction find put member add
    discard digits to_string int_to_string
ids_of_events = (refl, refl)

-- The state after the begin of transaction 7.
abbrev started : BuildState plain
started = record empty_state {
  transactions = begun (event tx_begin 1 7) ∷ [];
  tx_index_by_id = (event_key (event tx_begin 1 7), 0) ∷ [];
  live_transactions = event_key (event tx_begin 1 7) ∷ [];
}

begin-eq-started : handle_event false (event tx_begin 1 7) empty_state ≡ ok started
unfolding Builder.find_tx Builder.empty_state Handlers.begin_transaction Handlers.handle_event
    Handlers.handle_kind find put add
begin-eq-started = refl

started-IsConsistent : IsConsistent started
started-IsConsistent =
    subst (Gives IsConsistent) begin-eq-started
      (handle_event-IsConsistent false (event tx_begin 1 7) empty_state empty-IsConsistent)

handle_event-IsConsistent_example :
    Gives IsConsistent (handle_event true (event tx_commit_success 4 7) started)
handle_event-IsConsistent_example =
    handle_event-IsConsistent true (event tx_commit_success 4 7) started started-IsConsistent

build-IsWellFormed_example :
    Gives IsWellFormed (build_stm_opacity_history value_history_only events)
build-IsWellFormed_example = build-IsWellFormed value_history_only events

build-HasInitialValue_example :
    Gives
      (λ history. All (λ tx. All (HasInitialValue history) tx.accesses) history.transactions)
      (build_stm_opacity_history strict_lifetimes events)
build-HasInitialValue_example = build-HasInitialValue strict_lifetimes events

end_transaction_iff_example : Accepts (end_transaction (event tx_abort 4 7) started) ↔ (
    (◌≢◌ {A = ℕ} 7 0) × (member (event_key (event tx_abort 4 7)) started.live_transactions ≡ true))
end_transaction_iff_example = end_transaction_iff (event tx_abort 4 7) started started-IsConsistent

abbrev finished : BuildState plain
finished = record started {
  transactions = ended (event tx_abort 4 7) (begun (event tx_begin 1 7)) ∷ [];
  live_transactions = [];
}

end-eq-finished : end_transaction (event tx_abort 4 7) started ≡ ok finished
unfolding Builder.find_tx Builder.require_tx Builder.empty_state Builder.store_tx Builder.tx_key
    Handlers.end_transaction find discard digits to_string int_to_string
end-eq-finished = refl

end_transaction_once_example :
    end_transaction (event tx_commit_success 6 7) finished ≡ err (ended_twice 6)
end_transaction_once_example =
    end_transaction_once (event tx_abort 4 7) (event tx_commit_success 6 7) started finished
      started-IsConsistent end-eq-finished refl (λ e. omega arith)
