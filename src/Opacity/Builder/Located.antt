-- ===== src/Opacity/Builder/Located.antt =====
-- include/lincheck/lincheck.hpp, `build_stm_opacity_history`: the location that an event refers to
-- stands in the map, and the tables still belong together.
use lincheck_cpp.Prelude.{
  ℕ, ◌≡◌, refl, Bool, true, some, List, inl, inr, Option-cases, list_eq_iff, find, put, find-put,
  arith,
}
use lincheck_cpp.Value.{Str, Payloads}
use lincheck_cpp.Opacity.Event.{StmEventRecord}
use lincheck_cpp.Opacity.History.{StmOpacityLocation}
use lincheck_cpp.Opacity.Builder.{BuildState, raw_overlaps_explicit, raw_after_explicit_while_live}
use lincheck_cpp.Opacity.Builder.Locations.{
  Located, location_at, activate_raw, open_raw_location, check_raw_address, find_or_open_raw,
  ensure_active_location,
}
use lincheck_cpp.Opacity.Builder.Table.{
  Gives, Gives-bind, Gives-weaken, Gives-unless, IsTable, LocationStep, step_trans, stay,
  known_of_find, Extends-put, PointsInto-put, named-put, anomaly_if-LocationStep, is_known,
}

module _ {P : Payloads} where
  pub record IsLocated (s : BuildState P) (key : Str) (location : StmOpacityLocation P)
      (t : BuildState P) : Type 0 where
    pub step : LocationStep s t
    pub found : find key t.locations ≡ some location

  abbrev pub LocatedFrom : BuildState P → Located P → Type 0
  LocatedFrom s (key, location, t) = IsLocated s key location t

  -- What a location found after a first step is.
  pub located_after :
      (s t : BuildState P) (found : Located P)
      → LocationStep s t
      → LocatedFrom t found
      → LocatedFrom s found
  located_after s t (key, location, u) a b = record {
    step = step_trans s t u a b.step;
    found = b.found;
  }

  pub location_at-LocatedFrom :
      (key : Str) (s : BuildState P)
      → IsTable s
      → is_known s.locations key ≡ true
      → Gives (LocatedFrom s) (location_at key s)
  unfolding location_at
  location_at-LocatedFrom key s t k = elim (Option-cases (find key s.locations)) [
    | inl e ↦ absurd (ground arith)
    | inr (l, e) ↦ rw (e, location_at) (record { step = stay s t; found = e })
  ]

  pub find-put_self :
      (key : Str) (location : StmOpacityLocation P) (locations : List (Str × StmOpacityLocation P))
      → find key (put key location locations) ≡ some location
  find-put_self key location locations =
      ground (arith, find-put key key location locations, list_eq_iff key key)

  pub known-put_self :
      (key : Str) (location : StmOpacityLocation P) (locations : List (Str × StmOpacityLocation P))
      → is_known (put key location locations) key ≡ true
  known-put_self key location locations =
      known_of_find (put key location locations) key (find-put_self key location locations)

  activate_raw-LocatedFrom :
      (strict : Bool) (address key : Str) (generation : ℕ) (location : StmOpacityLocation P)
      (s : BuildState P)
      → IsTable s
      → location.location_id ≡ key
      → LocatedFrom s (activate_raw strict address key generation location s)
  activate_raw-LocatedFrom strict address key generation location s t e = record {
    step = record {
      transactions = refl;
      indices = refl;
      live_ids = refl;
      extends = Extends-put s.locations key location;
      table = record {
        named = named-put s.locations key location t.named e;
        by_address =
            PointsInto-put s.active_location_by_address (put key location s.locations) address key
              (λ a j f. Extends-put s.locations key location j (t.by_address a j f))
              (known-put_self key location s.locations);
        by_handle = λ a j f. Extends-put s.locations key location j (t.by_handle a j f);
      };
    };
    found = find-put_self key location s.locations;
  }

  open_raw_location-LocatedFrom :
      (strict : Bool) (event : StmEventRecord P) (address : Str) (s : BuildState P)
      → IsTable s
      → Gives (LocatedFrom s) (open_raw_location strict event address s)
  unfolding open_raw_location
  open_raw_location-LocatedFrom strict event address s t =
      Gives-unless (LocatedFrom s) _ _ _ refl
        (activate_raw-LocatedFrom strict address _ _ _ s t refl)

  check_raw_address-LocationStep :
      (strict : Bool) (address : Str) (s : BuildState P)
      → IsTable s
      → Gives (LocationStep s) (check_raw_address strict address s)
  unfolding check_raw_address
  check_raw_address-LocationStep strict address s t =
      Gives-bind (LocationStep s) (LocationStep s) _ _
        (anomaly_if-LocationStep _ strict (raw_overlaps_explicit address) s t refl)
        λ s1 a.
          Gives-weaken (LocationStep s1) (LocationStep s) _
            (anomaly_if-LocationStep _ strict (raw_after_explicit_while_live address) s1 a.table
              refl)
            (λ s2 b. step_trans s s1 s2 a b)

  pub find_or_open_raw-LocatedFrom :
      (strict : Bool) (event : StmEventRecord P) (address : Str) (s : BuildState P)
      → IsTable s
      → Gives (LocatedFrom s) (find_or_open_raw strict event address s)
  find_or_open_raw-LocatedFrom strict event address s t =
      elim (Option-cases (find address s.active_location_by_address)) [
        | inl e ↦ rw (e, find_or_open_raw) (open_raw_location-LocatedFrom strict event address s t)
        | inr (key, e) ↦
            rw (e, find_or_open_raw) (location_at-LocatedFrom key s t (t.by_address address key e))
      ]

  pub ensure_active_location-LocatedFrom :
      (strict : Bool) (event : StmEventRecord P) (address : Str) (s : BuildState P)
      → IsTable s
      → Gives (LocatedFrom s) (ensure_active_location strict event address s)
  unfolding ensure_active_location
  ensure_active_location-LocatedFrom strict event address s t =
      Gives-bind (LocationStep s) (LocatedFrom s) _ _
        (check_raw_address-LocationStep strict address s t)
        λ s1 a.
          Gives-weaken (LocatedFrom s1) (LocatedFrom s) _
            (find_or_open_raw-LocatedFrom strict event address s1 a.table)
            (λ found. located_after s s1 found a)
