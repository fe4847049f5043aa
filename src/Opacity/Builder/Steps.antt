-- ===== src/Opacity/Builder/Steps.antt =====
-- include/lincheck/lincheck.hpp, `build_stm_opacity_history`: the handlers of events on locations
-- keep the tables together and leave the attempts alone.
use lincheck_cpp.Prelude.{
  ◌≡◌, refl, ◌∙◌, Bool, false, not, ◌&&◌, inl, inr, Bool-cases, Option-cases, member, is_empty,
  arith,
}
use lincheck_cpp.Value.{Str, Payloads, Value}
use lincheck_cpp.Opacity.Event.{StmEventRecord}
use lincheck_cpp.Opacity.History.{StmOpacityLocation}
use lincheck_cpp.Opacity.Builder.{
  BuildState, conflicting_initial_values, ignore_lifetime_anomaly, store_location,
  require_supported_value,
}
use lincheck_cpp.Opacity.Builder.Locations.{Located, ensure_active_location}
use lincheck_cpp.Opacity.Builder.Places.{
  relabelled, revive, registered, register_location, conflicts_with_initial, init_explicit,
  init_raw, init_location, value_error,
}
use lincheck_cpp.Opacity.Builder.Table.{
  Gives, Gives-bind, Gives-weaken, Gives-unless, is_out_of_range, IsTable, LocationStep, step_trans,
  stay, store-LocationStep, anomaly-LocationStep,
}
use lincheck_cpp.Opacity.Builder.Located.{
  IsLocated, LocatedFrom, located_after, ensure_active_location-LocatedFrom,
}
use lincheck_cpp.Opacity.Builder.Explicit.{ensure_explicit_location-LocatedFrom}

module _ {P : Payloads} where
  -- A write through the pointer to a location that was found.
  store_located :
      (s : BuildState P) (key : Str) (location new : StmOpacityLocation P) (t : BuildState P)
      → IsLocated s key location t
      → new.location_id ≡ location.location_id
      → LocationStep s (store_location key new t)
  store_located s key location new t h e =
      step_trans s t (store_location key new t) h.step
        (store-LocationStep t key new h.step.table (e ∙ h.step.table.named key location h.found))

  revive-LocationStep :
      (strict : Bool) (address : Str) (s : BuildState P)
      → IsTable s
      → LocationStep s (revive strict address s)
  unfolding revive ignore_lifetime_anomaly
  revive-LocationStep strict address s t =
      elim (Bool-cases (not strict && member address s.ignored_raw_destroyed_addresses)) [
        | inl e ↦
            rw (e, revive)
              (record {
                transactions = refl;
                indices = refl;
                live_ids = refl;
                extends = λ key h. h;
                table = record {
                  named = t.named;
                  by_address = t.by_address;
                  by_handle = t.by_handle;
                };
              })
        | inr e ↦ rw (e, revive) (stay s t)
      ]

  -- The location of an event at a raw address, where a destroyed address is revived first.
  revived-LocatedFrom :
      (strict : Bool) (event : StmEventRecord P) (address : Str) (s : BuildState P)
      → IsTable s
      → Gives
          (LocatedFrom s)
          (ensure_active_location strict event address (revive strict address s))
  revived-LocatedFrom strict event address s t =
      let a = revive-LocationStep strict address s t in
      Gives-weaken (LocatedFrom (revive strict address s)) (LocatedFrom s) _
        (ensure_active_location-LocatedFrom strict event address (revive strict address s) a.table)
        (λ found. located_after s (revive strict address s) found a)

  registered-LocationStep :
      (event : StmEventRecord P) (s : BuildState P) (found : Located P)
      → LocatedFrom s found
      → Gives (LocationStep s) (registered event found)
  registered-LocationStep event s (key, location, t) h = store_located s key location _ t h refl

  pub register_location-LocationStep :
      (strict : Bool) (event : StmEventRecord P) (s : BuildState P)
      → IsTable s
      → Gives (LocationStep s) (register_location strict event s)
  unfolding register_location
  register_location-LocationStep strict event s t =
      elim (Bool-cases (is_empty event.location_handle_id)) [
        | inr e ↦ rw e (
            Gives-bind (LocatedFrom s) (LocationStep s) _ _
              (ensure_explicit_location-LocatedFrom strict event s t)
              (registered-LocationStep event s))
        | inl e ↦ elim (Bool-cases (is_empty event.address_id)) [
          | inl a ↦ rw (e, a) refl
          | inr a ↦
              rw (e, a)
                (Gives-bind (LocatedFrom s) (LocationStep s) _ _
                  (revived-LocatedFrom strict event event.address_id s t)
                  (registered-LocationStep event s))
        ]
      ]

  init_explicit-LocationStep :
      (event : StmEventRecord P) (value : Value P) (s : BuildState P) (found : Located P)
      → LocatedFrom s found
      → Gives (LocationStep s) (init_explicit event value found)
  init_explicit-LocationStep event value s (key, location, t) h =
      Gives-unless (LocationStep s) (conflicts_with_initial value location) _ _ refl
        (store_located s key location _ t h refl)

  init_raw-LocationStep :
      (strict : Bool) (event : StmEventRecord P) (value : Value P) (s : BuildState P)
      (found : Located P)
      → LocatedFrom s found
      → Gives (LocationStep s) (init_raw strict event value found)
  init_raw-LocationStep strict event value s (key, location, t) h =
      let kept = record (relabelled event location) { destroyed = false } in
      let u = store_location key kept t in
      let a = store_located s key location kept t h refl in
      elim (Bool-cases (conflicts_with_initial value location)) [
        | inl e ↦ rw e (
            Gives-weaken (LocationStep u) (LocationStep s) _
              (anomaly-LocationStep strict (conflicting_initial_values event.address_id) u a.table
                refl)
              (λ v b. step_trans s u v a b))
        | inr e ↦ rw e (store_located s key location _ t h refl)
      ]

  value_error_in_range : (event : StmEventRecord P) → is_out_of_range (value_error event) ≡ false
  value_error_in_range event = ground arith

  pub init_location-LocationStep :
      (strict : Bool) (event : StmEventRecord P) (s : BuildState P)
      → IsTable s
      → Gives (LocationStep s) (init_location strict event s)
  unfolding init_location
  init_location-LocationStep strict event s t =
      elim (Bool-cases (is_empty event.location_handle_id)) [
        | inr e ↦ elim (Option-cases (require_supported_value event)) [
          | inl o ↦ rw (e, o, init_location) (value_error_in_range event)
          | inr (value, o) ↦
              rw (e, o, init_location)
                (Gives-bind (LocatedFrom s) (LocationStep s) _ _
                  (ensure_explicit_location-LocatedFrom strict event s t)
                  (init_explicit-LocationStep event value s))
        ]
        | inl e ↦ elim (Bool-cases (is_empty event.address_id)) [
          | inl a ↦ rw (e, a) refl
          | inr a ↦ elim (Option-cases (require_supported_value event)) [
            | inl o ↦ rw (e, a, o, init_location) (value_error_in_range event)
            | inr (value, o) ↦
                rw (e, a, o, init_location)
                  (Gives-bind (LocatedFrom s) (LocationStep s) _ _
                    (revived-LocatedFrom strict event event.address_id s t)
                    (init_raw-LocationStep strict event value s))
          ]
        ]
      ]
