-- ===== src/Opacity/Search/Initial.antt =====
-- The initial state that a run starts from holds the initial values that the graph is built from.
use lincheck_cpp.Prelude.{
  ◌≡◌, refl, Bool, true, false, if◌then◌else◌, none, some, List, [], ◌∷◌, ◌⊎◌, inl, inr, list_eq,
  list_eq_iff, arith,
}
use lincheck_cpp.Value.{Str, Payloads, Value}
use lincheck_cpp.Opacity.History.{
  StmOpacityLocation, StmOpacityHistory, StmOpacityState, find_value, emplace, initial_loop,
  make_initial_stm_opacity_state,
}
use lincheck_cpp.Opacity.Graph.{find_location, initial_of}
use lincheck_cpp.Opacity.Search.Writer.{or_memory}

module _ {P : Payloads} where
  find_value-emplace :
      (k j : Str) (v : Value P) (state : StmOpacityState P)
      → find_value j (emplace k v state)
        ≡ or_memory (find_value j state) (if list_eq k j then some v else none)
  unfolding find_value emplace
  find_value-emplace k j v [] = refl
  find_value-emplace k j v ((i, w) ∷ state) =
      ground
        (arith, list_eq_iff k j, list_eq_iff i k, list_eq_iff i j, find_value-emplace k j v state)

  -- A value that is there stays, and a new location gets its own initial value.
  find_value-initial_loop :
      (k : Str) (v : Value P) (locations : List (Str × StmOpacityLocation P))
      (state : StmOpacityState P)
      → (find_value k state ≡ some v)
        ⊎ (find_value k state ≡ none) × (initial_of (find_location k locations) ≡ some v)
      → find_value k (initial_loop locations state) ≡ some v
  unfolding initial_loop find_location
  find_value-initial_loop k v [] state (inl h) = h
  find_value-initial_loop k v [] state (inr h) = cc
  find_value-initial_loop k v ((j, location) ∷ locations) state h =
      find_value-initial_loop k v locations
        (if location.has_initial_value then emplace j location.initial_value state else state)
        (step location.has_initial_value (list_eq j k) refl refl)
    where
      after : Bool → StmOpacityState P
      after b = if b then emplace j location.initial_value state else state

      step :
          (b y : Bool)
          → location.has_initial_value ≡ b
          → list_eq j k ≡ y
          → (find_value k (after b) ≡ some v)
            ⊎ (find_value k (after b) ≡ none) × (initial_of (find_location k locations) ≡ some v)
      step false true e f = ground (arith, h, e, f)
      step false false e f = ground (arith, h, e, f)
      step true true e f =
          ground (arith, h, e, f, find_value-emplace j k location.initial_value state)
      step true false e f =
          ground (arith, h, e, f, find_value-emplace j k location.initial_value state)

  pub initial_of-find_value :
      (history : StmOpacityHistory P) (k : Str) (v : Value P)
      → initial_of (find_location k history.locations) ≡ some v
      → find_value k (make_initial_stm_opacity_state history) ≡ some v
  unfolding make_initial_stm_opacity_state find_value
  initial_of-find_value history k v e =
      find_value-initial_loop k v history.locations [] (inr (refl, e))
