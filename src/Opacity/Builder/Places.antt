-- ===== src/Opacity/Builder/Places.antt =====
-- include/lincheck/lincheck.hpp, `build_stm_opacity_history`: what the loop does with the events that
-- register, initialise and destroy a location.
use lincheck_cpp.Prelude.{
  ◌+◌, ◌%◌, ◌^◌, Bool, true, false, not, ◌&&◌, none, some, if◌then◌else◌, find, put, remove, member,
  add, discard, is_empty, Result, ok, err, ◌>>=◌,
}
use lincheck_cpp.Value.{Str, Payloads, Value, value_eq}
use lincheck_cpp.Opacity.Event.{StmEventRecord}
use lincheck_cpp.Opacity.History.{StmOpacityLocation}
use lincheck_cpp.Opacity.Builder.{
  BuildState, HistoryError, register_without_address, init_without_address, destroy_without_address,
  init_missing_value, init_unsupported_value, conflicting_initial_values, already_destroyed,
  not_active, destroyed_while_live, out_of_range, ignore_lifetime_anomaly, anomaly, anomaly_if,
  store_location, require_supported_value,
}
use lincheck_cpp.Opacity.Builder.Locations.{
  Located, address_was_destroyed, ensure_active_location, merge_explicit_location_metadata,
  ensure_explicit_location,
}

module _ {P : Payloads} where
  abbrev pub relabelled : StmEventRecord P → StmOpacityLocation P → StmOpacityLocation P
  relabelled event location = record location {
    label = if is_empty event.label then location.label else event.label;
    type_name = if is_empty event.type_name then location.type_name else event.type_name;
  }

  -- An address that was destroyed and is registered or initialised again.
  unfoldable pub revive : Bool → Str → BuildState P → BuildState P
  revive strict address s =
      if not strict && member address s.ignored_raw_destroyed_addresses
      then ignore_lifetime_anomaly (record s {
        ignored_raw_destroyed_addresses = discard address s.ignored_raw_destroyed_addresses;
      })
      else s

  abbrev pub registered : StmEventRecord P → Located P → Result HistoryError (BuildState P)
  registered event (key, location, s) = ok (
      store_location key
        (record (relabelled event location) {
          register_event_index = event.event_index;
          destroyed = false;
        })
        s)

  -- "tx_location_register"
  unfoldable pub register_location :
      Bool → StmEventRecord P → BuildState P → Result HistoryError (BuildState P)
  register_location strict event s =
      if not (is_empty event.location_handle_id)
      then ensure_explicit_location strict event s >>= registered event
      else if is_empty event.address_id
      then err (register_without_address event.event_index)
      else ensure_active_location strict event event.address_id (revive strict event.address_id s)
        >>= registered event

  abbrev pub value_error : StmEventRecord P → HistoryError
  value_error event =
      if event.value_supported
      then init_missing_value event.event_index
      else init_unsupported_value event.event_index

  abbrev pub initialised : StmEventRecord P → Value P → StmOpacityLocation P → StmOpacityLocation P
  initialised event value location = record location {
    initial_value = value;
    has_initial_value = true;
    init_event_index = event.event_index;
    destroyed = false;
  }

  abbrev pub conflicts_with_initial : Value P → StmOpacityLocation P → Bool
  conflicts_with_initial value location =
      location.has_initial_value && not (value_eq location.initial_value value)

  abbrev pub init_explicit :
      StmEventRecord P → Value P → Located P → Result HistoryError (BuildState P)
  init_explicit event value (key, location, s) =
      if conflicts_with_initial value location
      then err (conflicting_initial_values event.location_handle_id)
      else ok (store_location key (initialised event value (relabelled event location)) s)

  -- A conflict at a raw address keeps the first value, where it is not an error.
  abbrev pub init_raw :
      Bool → StmEventRecord P → Value P → Located P → Result HistoryError (BuildState P)
  init_raw strict event value (key, location, s) =
      if conflicts_with_initial value location
      then anomaly strict (conflicting_initial_values event.address_id)
          (store_location key (record (relabelled event location) { destroyed = false }) s)
      else ok (store_location key (initialised event value (relabelled event location)) s)

  -- "tx_location_init"
  unfoldable pub init_location :
      Bool → StmEventRecord P → BuildState P → Result HistoryError (BuildState P)
  init_location strict event s =
      if not (is_empty event.location_handle_id)
      then elim (require_supported_value event) [
        | none ↦ err (value_error event)
        | some value ↦ ensure_explicit_location strict event s >>= init_explicit event value
      ]
      else if is_empty event.address_id
      then err (init_without_address event.event_index)
      else elim (require_supported_value event) [
        | none ↦ err (value_error event)
        | some value ↦
            ensure_active_location strict event event.address_id (revive strict event.address_id s)
            >>= init_raw strict event value
      ]

  abbrev pub destroyed_location : StmEventRecord P → StmOpacityLocation P → StmOpacityLocation P
  destroyed_location event location = record location {
    destroyed = true;
    destroy_event_index = event.event_index;
  }

  -- The handle is no longer active, nor active at its address.
  abbrev pub retire_handle :
      StmEventRecord P → Str → StmOpacityLocation P → BuildState P → BuildState P
  retire_handle event key location s = record s {
    locations = put key (destroyed_location event location) s.locations;
    active_location_by_handle = remove event.location_handle_id s.active_location_by_handle;
    active_explicit_locations_by_address =
        if is_empty location.address_id
        then s.active_explicit_locations_by_address
        else elim (find location.address_id s.active_explicit_locations_by_address) [
          | none ↦ s.active_explicit_locations_by_address
          | some handles ↦
              put location.address_id (discard event.location_handle_id handles)
                s.active_explicit_locations_by_address
        ];
    destroyed_location_handles = add event.location_handle_id s.destroyed_location_handles;
  }

  unfoldable pub destroy_explicit :
      StmEventRecord P → BuildState P → Result HistoryError (BuildState P)
  destroy_explicit event s = elim (find event.location_handle_id s.active_location_by_handle) [
    | none ↦ err (
        if member event.location_handle_id s.destroyed_location_handles
        then already_destroyed event.location_handle_id event.event_index
        else not_active event.location_handle_id event.event_index)
    | some key ↦ elim (find key s.locations) [
      | none ↦ err out_of_range
      | some location ↦ merge_explicit_location_metadata event location >>= λ merged.
          ok (retire_handle event key merged s)
    ]
  ]

  -- The address loses its location under strict lifetimes only.
  abbrev pub retire_raw :
      Bool → StmEventRecord P → Str → StmOpacityLocation P → BuildState P → BuildState P
  retire_raw strict event key location s =
      let s1 = store_location key (destroyed_location event location) s in
      if strict
      then record s1 {
        active_location_by_address = remove event.address_id s.active_location_by_address;
        next_generation_by_address =
            put event.address_id ((location.generation + 1) % 2 ^ 64) s.next_generation_by_address;
      }
      else record s1 {
        ignored_raw_destroyed_addresses = add event.address_id s.ignored_raw_destroyed_addresses;
      }

  unfoldable pub destroy_unknown :
      Bool → StmEventRecord P → BuildState P → Result HistoryError (BuildState P)
  destroy_unknown strict event s =
      anomaly strict
        (if address_was_destroyed event.address_id s
          then already_destroyed event.address_id event.event_index
          else not_active event.address_id event.event_index)
        s
      >>= λ s1. ok (record s1 {
        ignored_raw_destroyed_addresses = add event.address_id s1.ignored_raw_destroyed_addresses;
      })

  unfoldable pub destroy_raw :
      Bool → StmEventRecord P → BuildState P → Result HistoryError (BuildState P)
  destroy_raw strict event s = elim (find event.address_id s.active_location_by_address) [
    | none ↦ destroy_unknown strict event s
    | some key ↦ elim (find key s.locations) [
      | none ↦ err out_of_range
      | some location ↦
          anomaly_if (not (is_empty s.live_transactions)) strict
            (destroyed_while_live event.address_id event.event_index) s
          >>= λ s1. ok (retire_raw strict event key location s1)
    ]
  ]

  -- "tx_location_destroy"
  unfoldable pub destroy_location :
      Bool → StmEventRecord P → BuildState P → Result HistoryError (BuildState P)
  destroy_location strict event s =
      if not (is_empty event.location_handle_id)
      then destroy_explicit event s
      else if is_empty event.address_id
      then err (destroy_without_address event.event_index)
      else destroy_raw strict event s
