-- ===== src/Opacity/Builder/Table.antt =====
-- include/lincheck/lincheck.hpp, `build_stm_opacity_history`: when the tables of locations belong
-- together, and the steps that keep them so.
use lincheck_cpp.Prelude.{
  ◌≡◌, refl, sym, ap, ◌∙◌, subst, Bool, true, false, none, some, List, ◌⊎◌, inl, inr, if◌then◌else◌,
  list_eq, list_eq_iff, find, put, remove, find-put, find-remove, Result, ok, err, ◌>>=◌, arith,
}
use lincheck_cpp.Value.{Str, Payloads}
use lincheck_cpp.Opacity.History.{StmOpacityLocation}
use lincheck_cpp.Opacity.Builder.{
  BuildState, HistoryError, out_of_range, ignore_lifetime_anomaly, anomaly, anomaly_if,
  store_location,
}

abbrev pub is_out_of_range : HistoryError → Bool
is_out_of_range out_of_range = true
is_out_of_range _ = false

-- A value with Q, or the explanation of a malformed history: no `at` has thrown.
abbrev pub Gives : {A : Type 0} → (A → Type 0) → Result HistoryError A → Type 0
Gives Q (ok a) = Q a
Gives Q (err e) = is_out_of_range e ≡ false

pub Gives-bind :
    {A B : Type 0} (Q : A → Type 0) (R : B → Type 0) (m : Result HistoryError A)
    (f : A → Result HistoryError B)
    → Gives Q m
    → ((a : A) → Q a → Gives R (f a))
    → Gives R (m >>= f)
Gives-bind Q R (ok a) f h k = k a h
Gives-bind Q R (err e) f h k = h

pub Gives-weaken :
    {A : Type 0} (Q R : A → Type 0) (m : Result HistoryError A)
    → Gives Q m
    → ((a : A) → Q a → R a)
    → Gives R m
Gives-weaken Q R (ok a) h k = k a h
Gives-weaken Q R (err e) h k = h

pub Gives-unless :
    {A : Type 0} (Q : A → Type 0) (test : Bool) (e : HistoryError) (a : A)
    → is_out_of_range e ≡ false
    → Q a
    → Gives Q (if test then err e else ok a)
Gives-unless Q true e a h q = h
Gives-unless Q false e a h q = q

pub Gives-if :
    {A : Type 0} (Q : A → Type 0) (test : Bool) (e : HistoryError) (r : Result HistoryError A)
    → is_out_of_range e ≡ false
    → Gives Q r
    → Gives Q (if test then err e else r)
Gives-if Q true e r h q = h
Gives-if Q false e r h q = q

pub Gives-then :
    {A : Type 0} (Q : A → Type 0) (test : Bool) (r other : Result HistoryError A)
    → test ≡ true
    → Gives Q r
    → Gives Q (if test then r else other)
Gives-then Q true r other e h = h
Gives-then Q false r other e h = cc

module _ {P : Payloads} where
  abbrev pub is_known : List (Str × StmOpacityLocation P) → Str → Bool
  is_known locations key = elim (find key locations) [ some _ ↦ true | none ↦ false ]

  abbrev pub Extends :
      List (Str × StmOpacityLocation P) → List (Str × StmOpacityLocation P) → Type 0
  Extends old new = (key : Str) → is_known old key ≡ true → is_known new key ≡ true

  abbrev pub PointsInto : List (Str × Str) → List (Str × StmOpacityLocation P) → Type 0
  PointsInto m locations = (a key : Str) → find a m ≡ some key → is_known locations key ≡ true

  -- The map knows each location by its id, and the tables of active locations lead to locations.
  pub record IsTable (s : BuildState P) : Type 0 where
    pub named :
        (key : Str) (location : StmOpacityLocation P)
        → find key s.locations ≡ some location
        → location.location_id ≡ key
    pub by_address : PointsInto s.active_location_by_address s.locations
    pub by_handle : PointsInto s.active_location_by_handle s.locations

  -- A step on locations: the attempts stay, no location is lost, and the tables belong together.
  pub record LocationStep (s t : BuildState P) : Type 0 where
    pub transactions : t.transactions ≡ s.transactions
    pub indices : t.tx_index_by_id ≡ s.tx_index_by_id
    pub live_ids : t.live_transactions ≡ s.live_transactions
    pub extends : Extends s.locations t.locations
    pub table : IsTable t

  pub step_trans : (s t u : BuildState P) → LocationStep s t → LocationStep t u → LocationStep s u
  step_trans s t u a b = record {
    transactions = b.transactions ∙ a.transactions;
    indices = b.indices ∙ a.indices;
    live_ids = b.live_ids ∙ a.live_ids;
    extends = λ key h. b.extends key (a.extends key h);
    table = b.table;
  }

  pub stay : (s : BuildState P) → IsTable s → LocationStep s s
  stay s t = record {
    transactions = refl;
    indices = refl;
    live_ids = refl;
    extends = λ key h. h;
    table = t;
  }

  pub known_of_find :
      (locations : List (Str × StmOpacityLocation P)) (key : Str) {location : StmOpacityLocation P}
      → find key locations ≡ some location
      → is_known locations key ≡ true
  known_of_find locations key e = ground arith

  pub known-put :
      (locations : List (Str × StmOpacityLocation P)) (key : Str) (location : StmOpacityLocation P)
      (j : Str)
      → is_known (put key location locations) j
        ≡ (if list_eq key j then true else is_known locations j)
  known-put locations key location j = ground (arith, find-put key j location locations)

  pub Extends-put :
      (locations : List (Str × StmOpacityLocation P)) (key : Str) (location : StmOpacityLocation P)
      → Extends locations (put key location locations)
  Extends-put locations key location j h = ground (arith, known-put locations key location j)

  pub PointsInto-put :
      (m : List (Str × Str)) (locations : List (Str × StmOpacityLocation P)) (a key : Str)
      → PointsInto m locations
      → is_known locations key ≡ true
      → PointsInto (put a key m) locations
  PointsInto-put m locations a key h k b j e = ground (arith, find-put a b key m, h b j)

  pub PointsInto-remove :
      (m : List (Str × Str)) (locations : List (Str × StmOpacityLocation P)) (a : Str)
      → PointsInto m locations
      → PointsInto (remove a m) locations
  PointsInto-remove m locations a h b j e = ground (arith, find-remove a b m, h b j)

  pub named-put :
      (locations : List (Str × StmOpacityLocation P)) (key : Str) (location : StmOpacityLocation P)
      → ((j : Str) (l : StmOpacityLocation P) → find j locations ≡ some l → l.location_id ≡ j)
      → location.location_id ≡ key
      → (j : Str) (l : StmOpacityLocation P) → find j (put key location locations) ≡ some l
      → l.location_id ≡ j
  named-put locations key location h e j l f =
      ground (arith, find-put key j location locations, list_eq_iff key j, h j l)

  pub store-LocationStep :
      (s : BuildState P) (key : Str) (location : StmOpacityLocation P)
      → IsTable s
      → location.location_id ≡ key
      → LocationStep s (store_location key location s)
  unfolding store_location
  store-LocationStep s key location t e = record {
    transactions = refl;
    indices = refl;
    live_ids = refl;
    extends = Extends-put s.locations key location;
    table = record {
      named = named-put s.locations key location t.named e;
      by_address = λ a j f. Extends-put s.locations key location j (t.by_address a j f);
      by_handle = λ a j f. Extends-put s.locations key location j (t.by_handle a j f);
    };
  }

  pub ignore-LocationStep :
      (s : BuildState P) → IsTable s → LocationStep s (ignore_lifetime_anomaly s)
  unfolding ignore_lifetime_anomaly
  ignore-LocationStep s t = record {
    transactions = refl;
    indices = refl;
    live_ids = refl;
    extends = λ key h. h;
    table = record { named = t.named; by_address = t.by_address; by_handle = t.by_handle };
  }

  -- A step that at most counts an anomaly.
  abbrev pub AtMostIgnores : BuildState P → BuildState P → Type 0
  AtMostIgnores s t = (t ≡ s) ⊎ (t ≡ ignore_lifetime_anomaly s)

  pub anomaly-AtMostIgnores :
      (strict : Bool) (e : HistoryError) (s : BuildState P)
      → is_out_of_range e ≡ false
      → Gives (AtMostIgnores s) (anomaly strict e s)
  unfolding anomaly
  anomaly-AtMostIgnores true e s h = h
  anomaly-AtMostIgnores false e s h = inr refl

  pub anomaly_if-AtMostIgnores :
      (test strict : Bool) (e : HistoryError) (s : BuildState P)
      → is_out_of_range e ≡ false
      → Gives (AtMostIgnores s) (anomaly_if test strict e s)
  unfolding anomaly_if
  anomaly_if-AtMostIgnores true strict e s h = anomaly-AtMostIgnores strict e s h
  anomaly_if-AtMostIgnores false strict e s h = inl refl

  pub ignores-LocationStep : (s t : BuildState P) → IsTable s → AtMostIgnores s t → LocationStep s t
  ignores-LocationStep s t h (inl e) = subst (LocationStep s) (sym e) (stay s h)
  ignores-LocationStep s t h (inr e) = subst (LocationStep s) (sym e) (ignore-LocationStep s h)

  pub locations_of_ignores : (s t : BuildState P) → AtMostIgnores s t → t.locations ≡ s.locations
  unfolding ignore_lifetime_anomaly
  locations_of_ignores s t (inl e) = ap (λ (u : BuildState P). u.locations) e
  locations_of_ignores s t (inr e) = ap (λ (u : BuildState P). u.locations) e

  pub anomaly_if-LocationStep :
      (test strict : Bool) (e : HistoryError) (s : BuildState P)
      → IsTable s
      → is_out_of_range e ≡ false
      → Gives (LocationStep s) (anomaly_if test strict e s)
  anomaly_if-LocationStep test strict e s t h =
      Gives-weaken (AtMostIgnores s) (LocationStep s) _ (anomaly_if-AtMostIgnores test strict e s h)
        (λ u. ignores-LocationStep s u t)

  pub anomaly-LocationStep :
      (strict : Bool) (e : HistoryError) (s : BuildState P)
      → IsTable s
      → is_out_of_range e ≡ false
      → Gives (LocationStep s) (anomaly strict e s)
  anomaly-LocationStep strict e s t h =
      Gives-weaken (AtMostIgnores s) (LocationStep s) _ (anomaly-AtMostIgnores strict e s h)
        (λ u. ignores-LocationStep s u t)
