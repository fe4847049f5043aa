-- ===== src/Opacity/Builder.antt =====
-- include/lincheck/lincheck.hpp: the state and the errors of `build_stm_opacity_history`. Its
-- children hold the location tables, the handlers of the events, and the whole function.
pub mod Locations
pub mod Places
pub mod Handlers
pub mod Build
pub mod Table
pub mod Located
pub mod Explicit
pub mod Steps
pub mod Destroys
pub mod Consistent
pub mod Attempts
pub mod Begins
pub mod Events
pub mod Sorted
pub mod WellFormed
pub mod Initial
pub mod Ends
mod Tests
use lincheck_cpp.Prelude.{
  ℕ, ◌+◌, ◌%◌, ◌^◌, Bool, Option, none, some, List, [], ◌∷◌, ◌++◌, ◌==◌, if◌then◌else◌, get_elem?,
  set, find, put, is_empty, to_string, int_to_string, ℤ, Result, ok, err,
}
use lincheck_cpp.Value.{Str, Payloads, Value}
use lincheck_cpp.Opacity.Event.{StmEventRecord, StmEventKind}
use lincheck_cpp.Opacity.History.{StmOpacityLocation, StmOpacityTransactionAttempt}

-- The explanations of a malformed history, with the event index or the texts that they name, and
-- `out_of_range` for the exception of `locations.at`.
pub data HistoryError : Type 0 where
  register_without_address init_without_address destroy_without_address : ℕ → HistoryError
  raw_overlaps_explicit raw_after_explicit_while_live reused_while_live : Str → HistoryError
  conflicting_addresses conflicting_lifetimes conflicting_generations : Str → HistoryError
  conflicting_fields : Str → HistoryError
  event_without_handle : ℕ → HistoryError
  destroyed_handle_used : Str → ℕ → HistoryError
  explicit_overlaps_raw : Str → Str → HistoryError
  init_missing_value init_unsupported_value : ℕ → HistoryError
  conflicting_initial_values : Str → HistoryError
  already_destroyed not_active destroyed_while_live : Str → ℕ → HistoryError
  begin_without_id duplicate_begin metadata_outside : ℕ → HistoryError
  access_outside access_missing_value access_unsupported_value : ℕ → HistoryError
  access_without_address : ℕ → HistoryError
  access_to_destroyed : Str → HistoryError
  end_outside ended_twice retry_without_abort : ℕ → HistoryError
  no_begin : ℕ → HistoryError
  no_initial_value : Str → HistoryError
  out_of_range : HistoryError

-- The local variables, with those parts of `history` that grow.
pub record BuildState (P : Payloads) : Type 0 where
  pub locations : List (Str × StmOpacityLocation P)
  pub transactions : List (StmOpacityTransactionAttempt P)
  pub ignored_lifetime_anomalies : ℕ
  pub tx_index_by_id : List (Str × ℕ)
  pub active_location_by_address : List (Str × Str)
  pub active_location_by_handle : List (Str × Str)
  pub active_explicit_locations_by_address : List (Str × List Str)
  pub next_generation_by_address : List (Str × ℕ)
  pub destroyed_location_handles : List Str
  pub explicit_addresses_seen : List Str
  pub ignored_raw_destroyed_addresses : List Str
  pub live_transactions : List Str

-- `tx_key`, of the identifiers of an event or of an attempt.
unfoldable pub tx_key : ℤ → ℕ → Str
unfolding int_to_string to_string
tx_key thread_id transaction_id = int_to_string thread_id ++ (b':' ∷ to_string transaction_id)

unfoldable pub location_key : Str → ℕ → Str
unfolding to_string
location_key address generation =
    if generation == 0
    then address
    else address ++ (b'#' ∷ b'g' ∷ b'e' ∷ b'n' ∷ to_string generation)

module _ {P : Payloads} where
  unfoldable pub empty_state : BuildState P
  empty_state = record {
    locations = [];
    transactions = [];
    ignored_lifetime_anomalies = 0;
    tx_index_by_id = [];
    active_location_by_address = [];
    active_location_by_handle = [];
    active_explicit_locations_by_address = [];
    next_generation_by_address = [];
    destroyed_location_handles = [];
    explicit_addresses_seen = [];
    ignored_raw_destroyed_addresses = [];
    live_transactions = [];
  }

  unfoldable pub ignore_lifetime_anomaly : BuildState P → BuildState P
  ignore_lifetime_anomaly s = record s {
    ignored_lifetime_anomalies = (s.ignored_lifetime_anomalies + 1) % 2 ^ 64;
  }

  -- What the handlers do with an anomaly of lifetimes: an error under strict lifetimes, otherwise
  -- one more ignored anomaly.
  unfoldable pub anomaly : Bool → HistoryError → BuildState P → Result HistoryError (BuildState P)
  unfolding ignore_lifetime_anomaly
  anomaly strict e s = if strict then err e else ok (ignore_lifetime_anomaly s)

  unfoldable pub anomaly_if :
      Bool → Bool → HistoryError → BuildState P → Result HistoryError (BuildState P)
  unfolding anomaly
  anomaly_if test strict e s = if test then anomaly strict e s else ok s

  -- The attempt that `find_tx` points to, with its index.
  unfoldable pub find_tx :
      StmEventRecord P → BuildState P → Option (ℕ × StmOpacityTransactionAttempt P)
  find_tx event s = elim (find (tx_key event.thread_id event.transaction_id) s.tx_index_by_id) [
    | none ↦ none
    | some i ↦ elim (get_elem? s.transactions i) [ none ↦ none | some tx ↦ some (i, tx) ]
  ]

  unfoldable pub require_tx :
      StmEventRecord P → BuildState P → Option (ℕ × StmOpacityTransactionAttempt P)
  unfolding find_tx
  require_tx event s = if event.transaction_id == 0 then none else find_tx event s

  -- A write through the pointer to an attempt, and to a location.
  unfoldable pub store_tx : ℕ → StmOpacityTransactionAttempt P → BuildState P → BuildState P
  store_tx i tx s = record s { transactions = set s.transactions i tx }

  unfoldable pub store_location : Str → StmOpacityLocation P → BuildState P → BuildState P
  store_location key location s = record s { locations = put key location s.locations }

  unfoldable pub require_supported_value : StmEventRecord P → Option (Value P)
  require_supported_value event =
      if event.value_supported then (if event.has_value then some event.value else none) else none
