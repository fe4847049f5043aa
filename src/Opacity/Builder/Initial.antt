-- ===== src/Opacity/Builder/Initial.antt =====
-- include/lincheck/lincheck.hpp: `make_initial_stm_opacity_state` of the histories that
-- `build_stm_opacity_history` returns.
use lincheck_cpp.Prelude.{
  ◌≡◌, refl, true, none, some, List, [], ◌∷◌, inl, inr, Bool-cases, Option-cases, if◌then◌else◌,
  list_eq, list_eq_iff, find, arith,
}
use lincheck_cpp.Value.{Str, Payloads, Value}
use lincheck_cpp.Opacity.Event.{StmEventRecord}
use lincheck_cpp.Opacity.History.{
  StmOpacityLocation, StmOpacityAccess, StmOpacityHistory, StmLifetimePolicy, StmOpacityState,
  find_value, emplace, initial_loop, make_initial_stm_opacity_state,
}
use lincheck_cpp.Opacity.Builder.Build.{is_initialised, build_stm_opacity_history}
use lincheck_cpp.Opacity.Builder.Table.{Gives, Gives-weaken}
use lincheck_cpp.Opacity.Builder.Sorted.{All}
use lincheck_cpp.Opacity.Builder.WellFormed.{IsComplete, IsWellFormed, build-IsWellFormed}

All-map :
    {A : Type 0} (Q R : A → Type 0) (xs : List A) → ((x : A) → Q x → R x) → All Q xs → All R xs
All-map Q R [] k h = tt
All-map Q R (x ∷ xs) k h = (k x h.0, All-map Q R xs k h.1)

module _ {P : Payloads} where
  find_value-emplace :
      (k j : Str) (v : Value P) (state : StmOpacityState P)
      → find_value j (emplace k v state) ≡ elim (find_value j state) [
        | some w ↦ some w
        | none ↦ if list_eq k j then some v else none
      ]
  unfolding find_value emplace
  find_value-emplace k j v [] = ground arith
  find_value-emplace k j v ((i, w) ∷ state) =
      ground
        (arith, list_eq_iff i k, list_eq_iff i j, list_eq_iff k j, find_value-emplace k j v state)

  -- A value that is in the state stays there.
  initial_loop-stays :
      (locations : List (Str × StmOpacityLocation P)) (state : StmOpacityState P) (k : Str)
      (v : Value P)
      → find_value k state ≡ some v
      → find_value k (initial_loop locations state) ≡ some v
  unfolding initial_loop
  initial_loop-stays [] state k v e = e
  initial_loop-stays ((j, location) ∷ locations) state k v e =
      initial_loop-stays locations
        (if location.has_initial_value then emplace j location.initial_value state else state) k v
        (ground (arith, e, find_value-emplace j k location.initial_value state))

  -- The first location of a key gives its value.
  initial_loop-finds :
      (locations : List (Str × StmOpacityLocation P)) (state : StmOpacityState P) (k : Str)
      (found : StmOpacityLocation P)
      → find_value k state ≡ none
      → find k locations ≡ some found
      → found.has_initial_value ≡ true
      → find_value k (initial_loop locations state) ≡ some found.initial_value
  unfolding initial_loop find
  initial_loop-finds [] state k found e f h = cc
  initial_loop-finds ((j, location) ∷ locations) state k found e f h =
      let state' : StmOpacityState P =
        if location.has_initial_value then emplace j location.initial_value state else state in
      elim (Bool-cases (list_eq j k)) [
        | inl same ↦
            initial_loop-stays locations state' k found.initial_value
              (ground (arith, same, e, f, h, find_value-emplace j k location.initial_value state))
        | inr different ↦
            initial_loop-finds locations state' k found
              (ground (arith, different, e, find_value-emplace j k location.initial_value state))
              (ground (arith, different, f)) h
      ]

  abbrev pub HasInitialValue : StmOpacityHistory P → StmOpacityAccess P → Type 0
  HasInitialValue history access =
      (location : StmOpacityLocation P) × (find access.location_id history.locations
        ≡ some location)
      × (find_value access.location_id (make_initial_stm_opacity_state history)
          ≡ some location.initial_value)

  initialised-HasInitialValue :
      (history : StmOpacityHistory P) (access : StmOpacityAccess P)
      → is_initialised history.locations access.location_id ≡ true
      → HasInitialValue history access
  unfolding is_initialised make_initial_stm_opacity_state find_value
  initialised-HasInitialValue history access h =
      elim (Option-cases (find access.location_id history.locations)) [
        | inl e ↦ absurd (ground arith)
        | inr (location, e) ↦ (
          location,
          e,
          initial_loop-finds history.locations [] access.location_id location refl e (ground arith),
        )
      ]

  -- Each access of a history that is built is to a location of the history, whose initial value
  -- is the value of the initial state.
  pub build-HasInitialValue :
      (policy : StmLifetimePolicy) (events : List (StmEventRecord P))
      → Gives
          (λ history. All (λ tx. All (HasInitialValue history) tx.accesses) history.transactions)
          (build_stm_opacity_history policy events)
  build-HasInitialValue policy events =
      Gives-weaken IsWellFormed
        (λ history. All (λ tx. All (HasInitialValue history) tx.accesses) history.transactions)
        (build_stm_opacity_history policy events) (build-IsWellFormed policy events)
        λ history w.
          All-map (IsComplete history.locations) (λ tx. All (HasInitialValue history) tx.accesses)
            history.transactions
            (λ tx complete.
              All-map (λ access. is_initialised history.locations access.location_id ≡ true)
                (HasInitialValue history) tx.accesses (initialised-HasInitialValue history)
                complete.initialised)
            w.complete
