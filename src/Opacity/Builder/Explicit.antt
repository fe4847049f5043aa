-- ===== src/Opacity/Builder/Explicit.antt =====
-- include/lincheck/lincheck.hpp, `build_stm_opacity_history`: the same of events that carry a handle.
use lincheck_cpp.Prelude.{
  ◌≡◌, refl, ap, ◌∙◌, Bool, true, [], ◌∷◌, inl, inr, Bool-cases, Option-cases, find, find_or,
  member, is_empty, arith,
}
use lincheck_cpp.Value.{Str, Payloads}
use lincheck_cpp.Opacity.Event.{StmEventRecord}
use lincheck_cpp.Opacity.History.{StmOpacityLocation, default_location}
use lincheck_cpp.Opacity.Builder.{BuildState, explicit_overlaps_raw, store_location}
use lincheck_cpp.Opacity.Builder.Locations.{
  Located, merge_address, merge_object_lifetime, merge_generation, merge_field,
  merge_explicit_location_metadata, note_explicit, merge_location, fresh_explicit, note_located,
  activate_handle, reuse_handle, open_handle, ensure_explicit_location,
}
use lincheck_cpp.Opacity.Builder.Table.{
  Gives, Gives-bind, IsTable, LocationStep, step_trans, stay, known_of_find, PointsInto-put,
  store-LocationStep, AtMostIgnores, anomaly_if-AtMostIgnores, ignores-LocationStep,
  locations_of_ignores, is_known,
}
use lincheck_cpp.Opacity.Builder.Located.{LocatedFrom, find-put_self}

module _ {P : Payloads} where
  -- The blocks that merge metadata leave the id alone.
  abbrev SameId : StmOpacityLocation P → StmOpacityLocation P → Type 0
  SameId old new = new.location_id ≡ old.location_id

  merge_address-SameId :
      (event : StmEventRecord P) (location : StmOpacityLocation P)
      → Gives (SameId location) (merge_address event location)
  unfolding merge_address
  merge_address-SameId event location = ground arith

  merge_object_lifetime-SameId :
      (event : StmEventRecord P) (location : StmOpacityLocation P)
      → Gives (SameId location) (merge_object_lifetime event location)
  unfolding merge_object_lifetime
  merge_object_lifetime-SameId event location = ground arith

  merge_generation-SameId :
      (event : StmEventRecord P) (location : StmOpacityLocation P)
      → Gives (SameId location) (merge_generation event location)
  unfolding merge_generation
  merge_generation-SameId event location = ground arith

  merge_field-SameId :
      (event : StmEventRecord P) (location : StmOpacityLocation P)
      → Gives (SameId location) (merge_field event location)
  unfolding merge_field
  merge_field-SameId event location = ground arith

  pub merge_metadata-SameId :
      (event : StmEventRecord P) (location : StmOpacityLocation P)
      → Gives (SameId location) (merge_explicit_location_metadata event location)
  unfolding merge_explicit_location_metadata
  merge_metadata-SameId event location =
      Gives-bind (SameId location) (SameId location) _ _ (merge_address-SameId event location)
        λ l1 e1.
          Gives-bind (SameId l1) (SameId location) _ _ (merge_object_lifetime-SameId event l1)
            λ l2 e2.
              Gives-bind (SameId l2) (SameId location) _ _ (merge_generation-SameId event l2)
                λ l3 e3.
                  Gives-bind (SameId l3) (SameId location) _ _ (merge_field-SameId event l3)
                    λ l4 e4. e4 ∙ (e3 ∙ (e2 ∙ e1))

  merge_location-LocatedFrom :
      (strict : Bool) (event : StmEventRecord P) (key : Str) (location : StmOpacityLocation P)
      (s : BuildState P)
      → IsTable s
      → location.location_id ≡ key
      → Gives (LocatedFrom s) (merge_location strict event key location s)
  unfolding merge_location store_location
  merge_location-LocatedFrom strict event key location s t e =
      Gives-bind (SameId location) (LocatedFrom s) _ _ (merge_metadata-SameId event location)
        λ merged same.
          let s1 = store_location key merged s in
          let stored : LocationStep s s1 = store-LocationStep s key merged t (same ∙ e) in
          Gives-bind (AtMostIgnores s1) (LocatedFrom s) _ _
            (anomaly_if-AtMostIgnores _ strict
              (explicit_overlaps_raw event.location_handle_id merged.address_id) s1 refl)
            λ s2 a. record {
              step = step_trans s s1 s2 stored (ignores-LocationStep s1 s2 stored.table a);
              found =
                  ap (find key) (locations_of_ignores s1 s2 a)
                  ∙ find-put_self key merged s.locations;
            }

  note_explicit-LocationStep :
      (handle address : Str) (s : BuildState P)
      → IsTable s
      → LocationStep s (note_explicit handle address s)
  unfolding note_explicit
  note_explicit-LocationStep handle [] s t = stay s t
  note_explicit-LocationStep handle (c ∷ address) s t = record {
    transactions = refl;
    indices = refl;
    live_ids = refl;
    extends = λ key h. h;
    table = record { named = t.named; by_address = t.by_address; by_handle = t.by_handle };
  }

  note_explicit-locations :
      (handle address : Str) (s : BuildState P)
      → (note_explicit handle address s).locations ≡ s.locations
  unfolding note_explicit
  note_explicit-locations handle [] s = refl
  note_explicit-locations handle (c ∷ address) s = refl

  note_located-LocatedFrom :
      (event : StmEventRecord P) (s : BuildState P) (found : Located P)
      → LocatedFrom s found
      → Gives (LocatedFrom s) (note_located event found)
  note_located-LocatedFrom event s (key, location, t) h =
      let handle = event.location_handle_id in
      let address = location.address_id in
      let u = note_explicit handle address t in
      record {
        step = step_trans s t u h.step (note_explicit-LocationStep handle address t h.step.table);
        found = ap (find key) (note_explicit-locations handle address t) ∙ h.found;
      }

  activate_handle-LocatedFrom :
      (event : StmEventRecord P) (s : BuildState P) (found : Located P)
      → LocatedFrom s found
      → Gives (LocatedFrom s) (activate_handle event found)
  activate_handle-LocatedFrom event s (key, location, t) h = record {
    step = record {
      transactions = h.step.transactions;
      indices = h.step.indices;
      live_ids = h.step.live_ids;
      extends = h.step.extends;
      table = record {
        named = h.step.table.named;
        by_address = h.step.table.by_address;
        by_handle =
            PointsInto-put t.active_location_by_handle t.locations event.location_handle_id key
              h.step.table.by_handle (known_of_find t.locations key h.found);
      };
    };
    found = h.found;
  }

  reuse_handle-LocatedFrom :
      (strict : Bool) (event : StmEventRecord P) (key : Str) (s : BuildState P)
      → IsTable s
      → is_known s.locations key ≡ true
      → Gives (LocatedFrom s) (reuse_handle strict event key s)
  unfolding reuse_handle
  reuse_handle-LocatedFrom strict event key s t k = elim (Option-cases (find key s.locations)) [
    | inl e ↦ absurd (ground arith)
    | inr (location, e) ↦
        rw (e, reuse_handle)
          (Gives-bind (LocatedFrom s) (LocatedFrom s) _ _
            (merge_location-LocatedFrom strict event key location s t (t.named key location e))
            (note_located-LocatedFrom event s))
  ]

  open_handle-LocatedFrom :
      (strict : Bool) (event : StmEventRecord P) (s : BuildState P)
      → IsTable s
      → Gives (LocatedFrom s) (open_handle strict event s)
  unfolding open_handle
  open_handle-LocatedFrom strict event s t =
      Gives-bind (LocatedFrom s) (LocatedFrom s) _ _
        (Gives-bind (LocatedFrom s) (LocatedFrom s) _ _
          (merge_location-LocatedFrom strict event event.location_handle_id
            (fresh_explicit event (find_or event.location_handle_id s.locations default_location)) s
            t refl)
          (activate_handle-LocatedFrom event s))
        (note_located-LocatedFrom event s)

  pub ensure_explicit_location-LocatedFrom :
      (strict : Bool) (event : StmEventRecord P) (s : BuildState P)
      → IsTable s
      → Gives (LocatedFrom s) (ensure_explicit_location strict event s)
  unfolding ensure_explicit_location
  ensure_explicit_location-LocatedFrom strict event s t =
      let handle = event.location_handle_id in
      elim (Bool-cases (is_empty handle)) [
        | inl e ↦ rw e refl
        | inr e ↦ elim (Bool-cases (member handle s.destroyed_location_handles)) [
          | inl d ↦ rw (e, d) refl
          | inr d ↦ elim (Option-cases (find handle s.active_location_by_handle)) [
            | inl a ↦
                rw (e, d, a, ensure_explicit_location) (open_handle-LocatedFrom strict event s t)
            | inr (key, a) ↦
                rw (e, d, a, ensure_explicit_location)
                  (reuse_handle-LocatedFrom strict event key s t (t.by_handle handle key a))
          ]
        ]
      ]
