-- ===== src/Opacity/Builder/Handlers.antt =====
-- include/lincheck/lincheck.hpp, `build_stm_opacity_history`: what the loop does with the events of
-- a transaction, and with an event of each kind.
use lincheck_cpp.Prelude.{
  ℕ, Bool, true, false, not, ◌&&◌, none, some, [], ◌∷◌, ◌++◌, ◌==◌, if◌then◌else◌, length, find,
  put, member, add, discard, is_empty, pos, int_eq, Result, ok, err, ◌>>=◌,
}
use lincheck_cpp.Value.{Str, Payloads, Value}
use lincheck_cpp.Opacity.Event.{
  StmEventRecord, StmEventKind, tx_location_register, tx_location_init, tx_location_destroy,
  tx_begin, tx_attempt_metadata, tx_read, tx_write, tx_commit_success, tx_abort, tx_retry, other,
}
use lincheck_cpp.Opacity.History.{
  StmOpacityLocation, StmOpacityAccess, StmOpacityTransactionAttempt, committed, aborted,
  default_attempt, StmOpacityTransactionOutcome,
}
use lincheck_cpp.Opacity.Builder.{
  BuildState, HistoryError, begin_without_id, duplicate_begin, metadata_outside, access_outside,
  access_missing_value, access_unsupported_value, access_without_address, access_to_destroyed,
  end_outside, ended_twice, retry_without_abort, tx_key, ignore_lifetime_anomaly, anomaly_if,
  find_tx, require_tx, store_tx, require_supported_value,
}
use lincheck_cpp.Opacity.Builder.Locations.{
  Located, address_was_destroyed, location_at, ensure_active_location, ensure_explicit_location,
}
use lincheck_cpp.Opacity.Builder.Places.{register_location, init_location, destroy_location}

abbrev pub is_write : StmEventKind → Bool
is_write tx_write = true
is_write _ = false

abbrev pub outcome_of : StmEventKind → StmOpacityTransactionOutcome
outcome_of tx_commit_success = committed
outcome_of _ = aborted

abbrev pub is_aborted : StmOpacityTransactionOutcome → Bool
is_aborted aborted = true
is_aborted _ = false

module _ {P : Payloads} where
  abbrev pub begun : StmEventRecord P → StmOpacityTransactionAttempt P
  begun event = record default_attempt {
    transaction_id = event.transaction_id;
    logical_transaction_id = event.logical_transaction_id;
    attempt = event.attempt;
    thread_id = event.thread_id;
    operation = event.operation;
    read_only = event.read_only;
    has_read_only = event.has_read_only;
    has_begin = true;
    begin_sequence = event.sequence;
    begin_event_index = event.event_index;
  }

  abbrev pub event_key : StmEventRecord P → Str
  event_key event = tx_key event.thread_id event.transaction_id

  -- "tx_begin"
  unfoldable pub begin_transaction :
      StmEventRecord P → BuildState P → Result HistoryError (BuildState P)
  begin_transaction event s =
      if event.transaction_id == 0
      then err (begin_without_id event.event_index)
      else elim (find_tx event s) [
        | some _ ↦ err (duplicate_begin event.event_index)
        | none ↦ ok (record s {
          transactions = s.transactions ++ begun event ∷ [];
          tx_index_by_id = put (event_key event) (length s.transactions) s.tx_index_by_id;
          live_transactions = add (event_key event) s.live_transactions;
        })
      ]

  -- "tx_attempt_metadata"
  unfoldable pub attempt_metadata :
      StmEventRecord P → BuildState P → Result HistoryError (BuildState P)
  attempt_metadata event s = elim (require_tx event s) [
    | none ↦ err (metadata_outside event.event_index)
    | some (i, tx) ↦ ok (
        store_tx i
          (record tx {
            logical_transaction_id = event.logical_transaction_id;
            attempt = event.attempt;
          })
          s)
  ]

  abbrev pub access_of :
      StmEventRecord P → Value P → Str → StmOpacityLocation P → StmOpacityAccess P
  access_of event value address location = record {
    write = is_write event.kind;
    sequence = event.sequence;
    event_index = event.event_index;
    address_id = address;
    location_id = location.location_id;
    identity_kind = location.identity_kind;
    location_handle_id = location.location_handle_id;
    object_lifetime_id = location.object_lifetime_id;
    object_lifetime_generation = location.object_lifetime_generation;
    has_object_lifetime_generation = location.has_object_lifetime_generation;
    field_id = location.field_id;
    location_generation = location.generation;
    value = value;
    lock_slot = event.lock_slot;
    has_lock_slot = event.has_lock_slot;
    version = event.version;
    has_version = event.has_version;
  }

  -- The location of an access through a handle, or at a raw address.
  abbrev pub is_inactive : Str → BuildState P → Bool
  is_inactive address s = elim (find address s.active_location_by_address) [
    | some _ ↦ false
    | none ↦ true
  ]

  abbrev pub find_or_ensure_raw :
      Bool → StmEventRecord P → BuildState P → Result HistoryError (Located P)
  find_or_ensure_raw strict event s = elim (find event.address_id s.active_location_by_address) [
    | some key ↦ location_at key s
    | none ↦ ensure_active_location strict event event.address_id s
  ]

  abbrev pub mark_destroyed_access : Bool → StmEventRecord P → BuildState P → BuildState P
  mark_destroyed_access strict event s =
      if not strict && member event.address_id s.ignored_raw_destroyed_addresses
      then ignore_lifetime_anomaly s
      else s

  unfoldable pub locate_raw_access :
      Bool → StmEventRecord P → BuildState P → Result HistoryError (Located P)
  locate_raw_access strict event s =
      if is_empty event.address_id
      then err (access_without_address event.event_index)
      else anomaly_if (is_inactive event.address_id s && address_was_destroyed event.address_id s)
          strict (access_to_destroyed event.address_id) (mark_destroyed_access strict event s)
        >>= find_or_ensure_raw strict event

  unfoldable pub locate_access :
      Bool → StmEventRecord P → BuildState P → Result HistoryError (Located P)
  locate_access strict event s =
      if not (is_empty event.location_handle_id)
      then ensure_explicit_location strict event s
      else locate_raw_access strict event s

  abbrev pub access_address : StmEventRecord P → StmOpacityLocation P → Str
  access_address event location =
      if is_empty event.address_id then location.address_id else event.address_id

  abbrev pub append_access :
      StmEventRecord P
      → ℕ
      → StmOpacityTransactionAttempt P
      → Value P
      → Located P
      → Result HistoryError (BuildState P)
  append_access event i tx value (key, location, s) = ok (
      store_tx i
        (record tx {
          accesses =
              tx.accesses ++ access_of event value (access_address event location) location ∷ [];
        })
        s)

  abbrev pub access_error : StmEventRecord P → HistoryError
  access_error event =
      if event.value_supported
      then access_missing_value event.event_index
      else access_unsupported_value event.event_index

  abbrev pub access_in :
      Bool
      → StmEventRecord P
      → BuildState P
      → ℕ
      → StmOpacityTransactionAttempt P
      → Result HistoryError (BuildState P)
  access_in strict event s i tx = elim (require_supported_value event) [
    | none ↦ err (access_error event)
    | some value ↦ locate_access strict event s >>= append_access event i tx value
  ]

  -- "tx_read" and "tx_write"
  unfoldable pub access_transaction :
      Bool → StmEventRecord P → BuildState P → Result HistoryError (BuildState P)
  access_transaction strict event s = elim (require_tx event s) [
    | none ↦ err (access_outside event.event_index)
    | some (i, tx) ↦
        if not tx.has_begin
        then err (access_outside event.event_index)
        else access_in strict event s i tx
  ]

  abbrev pub ended :
      StmEventRecord P → StmOpacityTransactionAttempt P → StmOpacityTransactionAttempt P
  ended event tx = record tx {
    outcome = outcome_of event.kind;
    has_end = true;
    end_sequence = event.sequence;
    end_event_index = event.event_index;
    logical_transaction_id =
        if event.logical_transaction_id == 0
        then tx.logical_transaction_id
        else event.logical_transaction_id;
    attempt = if int_eq event.attempt (pos 0) then tx.attempt else event.attempt;
  }

  -- "tx_commit_success" and "tx_abort"
  unfoldable pub end_transaction :
      StmEventRecord P → BuildState P → Result HistoryError (BuildState P)
  end_transaction event s = elim (require_tx event s) [
    | none ↦ err (end_outside event.event_index)
    | some (i, tx) ↦
        if not tx.has_begin
        then err (end_outside event.event_index)
        else if tx.has_end
        then err (ended_twice event.event_index)
        else ok (record (store_tx i (ended event tx) s) {
          live_transactions = discard (event_key event) s.live_transactions;
        })
  ]

  -- "tx_retry"
  unfoldable pub retry_transaction :
      StmEventRecord P → BuildState P → Result HistoryError (BuildState P)
  retry_transaction event s = if event.transaction_id == 0 then ok s else elim (find_tx event s) [
    | none ↦ err (retry_without_abort event.event_index)
    | some (i, tx) ↦
        if is_aborted tx.outcome then ok s else err (retry_without_abort event.event_index)
  ]

  unfoldable pub handle_kind :
      StmEventKind → Bool → StmEventRecord P → BuildState P → Result HistoryError (BuildState P)
  handle_kind tx_location_register strict event s = register_location strict event s
  handle_kind tx_location_init strict event s = init_location strict event s
  handle_kind tx_location_destroy strict event s = destroy_location strict event s
  handle_kind tx_begin strict event s = begin_transaction event s
  handle_kind tx_attempt_metadata strict event s = attempt_metadata event s
  handle_kind tx_read strict event s = access_transaction strict event s
  handle_kind tx_write strict event s = access_transaction strict event s
  handle_kind tx_commit_success strict event s = end_transaction event s
  handle_kind tx_abort strict event s = end_transaction event s
  handle_kind tx_retry strict event s = retry_transaction event s
  handle_kind other strict event s = ok s

  -- One round of the loop.
  unfoldable pub handle_event :
      Bool → StmEventRecord P → BuildState P → Result HistoryError (BuildState P)
  unfolding handle_kind
  handle_event strict event s = handle_kind event.kind strict event s
