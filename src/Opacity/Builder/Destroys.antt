-- ===== src/Opacity/Builder/Destroys.antt =====
-- include/lincheck/lincheck.hpp, `build_stm_opacity_history`: the end of a location keeps the tables
-- together and leaves the attempts alone.
use lincheck_cpp.Prelude.{
  ◌≡◌, refl, ◌∙◌, Bool, true, false, inl, inr, Bool-cases, Option-cases, find, put, member,
  is_empty, arith,
}
use lincheck_cpp.Value.{Str, Payloads}
use lincheck_cpp.Opacity.Event.{StmEventRecord}
use lincheck_cpp.Opacity.History.{StmOpacityLocation}
use lincheck_cpp.Opacity.Builder.{BuildState, destroyed_while_live, store_location}
use lincheck_cpp.Opacity.Builder.Locations.{address_was_destroyed}
use lincheck_cpp.Opacity.Builder.Places.{
  destroyed_location, retire_handle, destroy_explicit, retire_raw, destroy_unknown, destroy_raw,
  destroy_location,
}
use lincheck_cpp.Opacity.Builder.Table.{
  Gives, Gives-bind, IsTable, LocationStep, step_trans, Extends-put, PointsInto-remove, named-put,
  AtMostIgnores, anomaly_if-AtMostIgnores, ignores-LocationStep, anomaly-LocationStep,
}
use lincheck_cpp.Opacity.Builder.Explicit.{merge_metadata-SameId}

module _ {P : Payloads} where
  retire_handle-LocationStep :
      (event : StmEventRecord P) (key : Str) (location : StmOpacityLocation P) (s : BuildState P)
      → IsTable s
      → location.location_id ≡ key
      → LocationStep s (retire_handle event key location s)
  retire_handle-LocationStep event key location s t e =
      let new = destroyed_location event location in
      let locations = put key new s.locations in
      record {
        transactions = refl;
        indices = refl;
        live_ids = refl;
        extends = Extends-put s.locations key new;
        table = record {
          named = named-put s.locations key new t.named e;
          by_address = λ a j f. Extends-put s.locations key new j (t.by_address a j f);
          by_handle =
              PointsInto-remove s.active_location_by_handle locations event.location_handle_id
                (λ a j f. Extends-put s.locations key new j (t.by_handle a j f));
        };
      }

  destroy_explicit-LocationStep :
      (event : StmEventRecord P) (s : BuildState P)
      → IsTable s
      → Gives (LocationStep s) (destroy_explicit event s)
  unfolding destroy_explicit
  destroy_explicit-LocationStep event s t =
      elim (Option-cases (find event.location_handle_id s.active_location_by_handle)) [
        | inl a ↦
            rw (a, destroy_explicit)
              (elim (Bool-cases (member event.location_handle_id s.destroyed_location_handles)) [
                | inl d ↦ rw d refl
                | inr d ↦ rw d refl
              ])
        | inr (key, a) ↦ elim (Option-cases (find key s.locations)) [
          | inl f ↦ absurd (ground (arith, t.by_handle event.location_handle_id key a))
          | inr (location, f) ↦
              rw (a, f, destroy_explicit)
                (Gives-bind (λ (l : StmOpacityLocation P). l.location_id ≡ location.location_id)
                  (LocationStep s) _ _ (merge_metadata-SameId event location)
                  (λ merged e.
                    retire_handle-LocationStep event key merged s t (e ∙ t.named key location f)))
        ]
      ]

  retire_raw-LocationStep :
      (strict : Bool) (event : StmEventRecord P) (key : Str) (location : StmOpacityLocation P)
      (s : BuildState P)
      → IsTable s
      → location.location_id ≡ key
      → LocationStep s (retire_raw strict event key location s)
  unfolding store_location
  retire_raw-LocationStep true event key location s t e =
      let new = destroyed_location event location in
      let locations = put key new s.locations in
      record {
        transactions = refl;
        indices = refl;
        live_ids = refl;
        extends = Extends-put s.locations key new;
        table = record {
          named = named-put s.locations key new t.named e;
          by_address =
              PointsInto-remove s.active_location_by_address locations event.address_id
                (λ a j f. Extends-put s.locations key new j (t.by_address a j f));
          by_handle = λ a j f. Extends-put s.locations key new j (t.by_handle a j f);
        };
      }
  retire_raw-LocationStep false event key location s t e =
      let new = destroyed_location event location in
      record {
        transactions = refl;
        indices = refl;
        live_ids = refl;
        extends = Extends-put s.locations key new;
        table = record {
          named = named-put s.locations key new t.named e;
          by_address = λ a j f. Extends-put s.locations key new j (t.by_address a j f);
          by_handle = λ a j f. Extends-put s.locations key new j (t.by_handle a j f);
        };
      }

  destroy_unknown-LocationStep :
      (strict : Bool) (event : StmEventRecord P) (s : BuildState P)
      → IsTable s
      → Gives (LocationStep s) (destroy_unknown strict event s)
  unfolding destroy_unknown
  destroy_unknown-LocationStep strict event s t =
      Gives-bind (LocationStep s) (LocationStep s) _ _
        (anomaly-LocationStep strict _ s t
          (elim (Bool-cases (address_was_destroyed event.address_id s)) [
            | inl e ↦ rw e refl
            | inr e ↦ rw e refl
          ]))
        λ s1 a. record {
          transactions = a.transactions;
          indices = a.indices;
          live_ids = a.live_ids;
          extends = a.extends;
          table = record {
            named = a.table.named;
            by_address = a.table.by_address;
            by_handle = a.table.by_handle;
          };
        }

  destroy_raw-LocationStep :
      (strict : Bool) (event : StmEventRecord P) (s : BuildState P)
      → IsTable s
      → Gives (LocationStep s) (destroy_raw strict event s)
  unfolding destroy_raw
  destroy_raw-LocationStep strict event s t =
      elim (Option-cases (find event.address_id s.active_location_by_address)) [
        | inl a ↦ rw (a, destroy_raw) (destroy_unknown-LocationStep strict event s t)
        | inr (key, a) ↦ elim (Option-cases (find key s.locations)) [
          | inl f ↦ absurd (ground (arith, t.by_address event.address_id key a))
          | inr (location, f) ↦
              rw (a, f, destroy_raw)
                (Gives-bind (AtMostIgnores s) (LocationStep s) _ _
                  (anomaly_if-AtMostIgnores _ strict
                    (destroyed_while_live event.address_id event.event_index) s refl)
                  (λ s1 i.
                    let b = ignores-LocationStep s s1 t i in
                    step_trans s s1 (retire_raw strict event key location s1) b (
                      retire_raw-LocationStep strict event key location s1 b.table
                        (t.named key location f))))
        ]
      ]

  pub destroy_location-LocationStep :
      (strict : Bool) (event : StmEventRecord P) (s : BuildState P)
      → IsTable s
      → Gives (LocationStep s) (destroy_location strict event s)
  unfolding destroy_location
  destroy_location-LocationStep strict event s t =
      elim (Bool-cases (is_empty event.location_handle_id)) [
        | inr e ↦ rw e (destroy_explicit-LocationStep event s t)
        | inl e ↦ elim (Bool-cases (is_empty event.address_id)) [
          | inl a ↦ rw (e, a) refl
          | inr a ↦ rw (e, a) (destroy_raw-LocationStep strict event s t)
        ]
      ]
