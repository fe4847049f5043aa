-- ===== src/Opacity/Builder/Locations.antt =====
-- include/lincheck/lincheck.hpp, `build_stm_opacity_history`: the lambdas that find and open the
-- location of an event. A pointer to a location is its key, with the location.
use lincheck_cpp.Prelude.{
  ℕ, Bool, true, false, not, ◌&&◌, none, some, [], ◌==◌, ltb, if◌then◌else◌, list_eq, find, put,
  find_or, member, add, is_empty, Result, ok, err, ◌>>=◌,
}
use lincheck_cpp.Value.{Str, Payloads}
use lincheck_cpp.Opacity.Event.{StmEventRecord}
use lincheck_cpp.Opacity.History.{
  StmOpacityLocation, IdentityKind, raw_address_generation, explicit_handle, object_lifetime_field,
  default_location,
}
use lincheck_cpp.Opacity.Builder.{
  BuildState, HistoryError, raw_overlaps_explicit, raw_after_explicit_while_live, reused_while_live,
  conflicting_addresses, conflicting_lifetimes, conflicting_generations, conflicting_fields,
  event_without_handle, destroyed_handle_used, explicit_overlaps_raw, out_of_range, location_key,
  anomaly_if, store_location,
}

-- The location that an event refers to, and the state after it was found or opened.
abbrev pub Located : Payloads → Type 0
Located P = Str × StmOpacityLocation P × BuildState P

module _ {P : Payloads} where
  abbrev pub explicit_location_identity_kind : StmEventRecord P → IdentityKind
  explicit_location_identity_kind event =
      if is_empty event.object_lifetime_id then explicit_handle else object_lifetime_field

  -- Whether an address has a raw-address location, and is not empty.
  abbrev pub overlaps_raw : Str → BuildState P → Bool
  overlaps_raw address s =
      not (is_empty address)
      && elim (find address s.active_location_by_address) [ some _ ↦ true | none ↦ false ]

  abbrev pub address_was_destroyed : Str → BuildState P → Bool
  address_was_destroyed address s = ltb 0 (find_or address s.next_generation_by_address 0)

  -- `history.locations.at(key)`
  unfoldable pub location_at : Str → BuildState P → Result HistoryError (Located P)
  location_at key s = elim (find key s.locations) [
    | none ↦ err out_of_range
    | some location ↦ ok (key, location, s)
  ]

  -- A new location at an address, in the place of what its key maps to.
  abbrev pub raw_location :
      StmEventRecord P → Str → Str → ℕ → StmOpacityLocation P → StmOpacityLocation P
  raw_location event address key generation old = record old {
    location_id = key;
    address_id = address;
    identity_kind = raw_address_generation;
    generation = generation;
    destroyed = false;
    register_event_index = if ltb 0 generation then event.event_index else old.register_event_index;
  }

  -- `next_generation_by_address[address]` also enters the key.
  abbrev pub activate_raw : Bool → Str → Str → ℕ → StmOpacityLocation P → BuildState P → Located P
  activate_raw strict address key generation location s = (
    key,
    location,
    record s {
      locations = put key location s.locations;
      active_location_by_address = put address key s.active_location_by_address;
      next_generation_by_address =
          if strict
          then put address generation s.next_generation_by_address
          else s.next_generation_by_address;
    },
  )

  abbrev pub raw_generation : Bool → Str → BuildState P → ℕ
  raw_generation strict address s =
      if strict then find_or address s.next_generation_by_address 0 else 0

  -- The end of `ensure_active_location`: a location of the address' next generation.
  unfoldable pub open_raw_location :
      Bool → StmEventRecord P → Str → BuildState P → Result HistoryError (Located P)
  open_raw_location strict event address s =
      let generation = raw_generation strict address s in
      let key = location_key address generation in
      let old = find_or key s.locations default_location in
      if strict && (ltb 0 generation && not (is_empty s.live_transactions))
      then err (reused_while_live address)
      else ok (
          activate_raw strict address key generation (raw_location event address key generation old)
            s)

  -- The first two tests of `ensure_active_location`.
  unfoldable pub check_raw_address : Bool → Str → BuildState P → Result HistoryError (BuildState P)
  check_raw_address strict address s = do
    s1 ←
        anomaly_if (not (is_empty (find_or address s.active_explicit_locations_by_address [])))
          strict (raw_overlaps_explicit address) s
    anomaly_if (not (is_empty s1.live_transactions) && member address s1.explicit_addresses_seen)
        strict (raw_after_explicit_while_live address) s1

  abbrev pub find_or_open_raw :
      Bool → StmEventRecord P → Str → BuildState P → Result HistoryError (Located P)
  find_or_open_raw strict event address s = elim (find address s.active_location_by_address) [
    | some key ↦ location_at key s
    | none ↦ open_raw_location strict event address s
  ]

  unfoldable pub ensure_active_location :
      Bool → StmEventRecord P → Str → BuildState P → Result HistoryError (Located P)
  ensure_active_location strict event address s =
      check_raw_address strict address s >>= find_or_open_raw strict event address

  -- The four blocks of `merge_explicit_location_metadata`.
  unfoldable pub merge_address :
      StmEventRecord P → StmOpacityLocation P → Result HistoryError (StmOpacityLocation P)
  merge_address event location =
      if is_empty event.address_id
      then ok location
      else if not (is_empty location.address_id)
          && not (list_eq location.address_id event.address_id)
      then err (conflicting_addresses event.location_handle_id)
      else ok (record location { address_id = event.address_id })

  unfoldable pub merge_object_lifetime :
      StmEventRecord P → StmOpacityLocation P → Result HistoryError (StmOpacityLocation P)
  merge_object_lifetime event location =
      if is_empty event.object_lifetime_id
      then ok location
      else if not (is_empty location.object_lifetime_id)
          && not (list_eq location.object_lifetime_id event.object_lifetime_id)
      then err (conflicting_lifetimes event.location_handle_id)
      else ok (record location { object_lifetime_id = event.object_lifetime_id })

  unfoldable pub merge_generation :
      StmEventRecord P → StmOpacityLocation P → Result HistoryError (StmOpacityLocation P)
  merge_generation event location =
      if not event.has_object_lifetime_generation
      then ok location
      else if location.has_object_lifetime_generation
          && not (location.object_lifetime_generation == event.object_lifetime_generation)
      then err (conflicting_generations event.location_handle_id)
      else ok (record location {
        object_lifetime_generation = event.object_lifetime_generation;
        has_object_lifetime_generation = true;
      })

  unfoldable pub merge_field :
      StmEventRecord P → StmOpacityLocation P → Result HistoryError (StmOpacityLocation P)
  merge_field event location =
      if is_empty event.field_id
      then ok location
      else if not (is_empty location.field_id) && not (list_eq location.field_id event.field_id)
      then err (conflicting_fields event.location_handle_id)
      else ok (record location { field_id = event.field_id })

  abbrev pub identified : StmEventRecord P → StmOpacityLocation P → StmOpacityLocation P
  identified event location = record location {
    identity_kind = explicit_location_identity_kind event;
    location_handle_id = event.location_handle_id;
  }

  unfoldable pub merge_explicit_location_metadata :
      StmEventRecord P → StmOpacityLocation P → Result HistoryError (StmOpacityLocation P)
  merge_explicit_location_metadata event location = do
    l1 ← merge_address event location
    l2 ← merge_object_lifetime event l1
    l3 ← merge_generation event l2
    l4 ← merge_field event l3
    ok (identified event l4)

  -- A handle is in use at an address.
  unfoldable pub note_explicit : Str → Str → BuildState P → BuildState P
  note_explicit handle address s = if is_empty address then s else record s {
    explicit_addresses_seen = add address s.explicit_addresses_seen;
    active_explicit_locations_by_address =
        put address (add handle (find_or address s.active_explicit_locations_by_address []))
          s.active_explicit_locations_by_address;
  }

  -- What both branches of `ensure_explicit_location` do with a location: its metadata are merged,
  -- and an overlap with a raw-address location is an anomaly.
  unfoldable pub merge_location :
      Bool
      → StmEventRecord P
      → Str
      → StmOpacityLocation P
      → BuildState P
      → Result HistoryError (Located P)
  merge_location strict event key location s = do
    merged ← merge_explicit_location_metadata event location
    s1 ←
        anomaly_if (overlaps_raw merged.address_id s) strict
          (explicit_overlaps_raw event.location_handle_id merged.address_id)
          (store_location key merged s)
    ok (key, merged, s1)

  abbrev pub fresh_explicit : StmEventRecord P → StmOpacityLocation P → StmOpacityLocation P
  fresh_explicit event old = record old {
    location_id = event.location_handle_id;
    identity_kind = explicit_location_identity_kind event;
    location_handle_id = event.location_handle_id;
    generation = 0;
    destroyed = false;
  }

  abbrev pub note_located : StmEventRecord P → Located P → Result HistoryError (Located P)
  note_located event (key, location, s) =
      ok (key, location, note_explicit event.location_handle_id location.address_id s)

  abbrev pub activate_handle : StmEventRecord P → Located P → Result HistoryError (Located P)
  activate_handle event (key, location, s) = ok (
    key,
    location,
    record s {
      active_location_by_handle = put event.location_handle_id key s.active_location_by_handle;
    },
  )

  -- The two branches of `ensure_explicit_location`, on a handle that is or is not active.
  unfoldable pub reuse_handle :
      Bool → StmEventRecord P → Str → BuildState P → Result HistoryError (Located P)
  reuse_handle strict event key s = elim (find key s.locations) [
    | none ↦ err out_of_range
    | some location ↦ merge_location strict event key location s >>= note_located event
  ]

  unfoldable pub open_handle :
      Bool → StmEventRecord P → BuildState P → Result HistoryError (Located P)
  open_handle strict event s =
      let old = find_or event.location_handle_id s.locations default_location in
      merge_location strict event event.location_handle_id (fresh_explicit event old) s
      >>= activate_handle event
      >>= note_located event

  unfoldable pub ensure_explicit_location :
      Bool → StmEventRecord P → BuildState P → Result HistoryError (Located P)
  ensure_explicit_location strict event s =
      if is_empty event.location_handle_id
      then err (event_without_handle event.event_index)
      else if member event.location_handle_id s.destroyed_location_handles
      then err (destroyed_handle_used event.location_handle_id event.event_index)
      else elim (find event.location_handle_id s.active_location_by_handle) [
        | some key ↦ reuse_handle strict event key s
        | none ↦ open_handle strict event s
      ]
