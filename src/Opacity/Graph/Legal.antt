-- ===== src/Opacity/Graph/Legal.antt =====
-- The constraints that a read gives, against a serial order in which it is legal.
use lincheck_cpp.Prelude.{
  ℕ, ◌≤◌, ◌<◌, ◌≡◌, refl, sym, subst, ap, ◌∙◌, Bool, true, false, Option, none, some, List, ◌⊎◌,
  inl, inr, length, get_elem?, lt_of_get_elem?, In, arith,
}
use mathlib.Core.Option.{some_inj}
use native.Mathlib.Decide.{dec_lt}
use lincheck_cpp.Value.{Payloads, Value, value_eq}
use lincheck_cpp.Opacity.History.{StmOpacityAccess, StmOpacityHistory, StmOpacityState, find_value}
use lincheck_cpp.Opacity.Ordering.{StmOpacityOrderingGraph}
use lincheck_cpp.Opacity.Ordering.Serial.{Reads, IsSerial}
use lincheck_cpp.Opacity.Graph.{
  going, find_location, initial_of, writers, constrain, constrain_read,
}
use lincheck_cpp.Opacity.Graph.Edges.{IsGood}
use lincheck_cpp.Opacity.Graph.Sources.{IsWriter, writers→, writers←, constrain-IsGood}

module _ {P : Payloads} (place : ℕ → ℕ) (history : StmOpacityHistory P)
    (states : List (StmOpacityState P)) where
  -- The transaction s is the last before the reader that writes the location, and it writes the
  -- value that was read.
  pub record IsSource (access : StmOpacityAccess P) (reader s : ℕ) : Type 0 where
    pub writes :
        (state : StmOpacityState P) × (get_elem? states s ≡ some state)
        × IsWriter access reader state s true
    pub earlier : place s < place reader
    pub latest :
        (w : ℕ) (state : StmOpacityState P) (b : Bool)
        → get_elem? states w ≡ some state
        → IsWriter access reader state w b
        → place w < place reader
        → place w ≤ place s

  -- No transaction before the reader writes the location, and the initial value was read.
  pub record IsInitial (access : StmOpacityAccess P) (reader : ℕ) (initial : Value P) : Type 0 where
    pub matches : value_eq initial access.value ≡ true
    pub untouched :
        (w : ℕ) (state : StmOpacityState P) (b : Bool)
        → get_elem? states w ≡ some state
        → IsWriter access reader state w b
        → place w < place reader
        → ⊥

  abbrev pub CanSee : StmOpacityAccess P → ℕ → Value P → Type 0
  CanSee access reader initial =
      ((s : ℕ) × IsSource access reader s) ⊎ IsInitial access reader initial

  -- Different transactions have different places.
  abbrev pub AreDistinct : Type 0
  AreDistinct = (i j : ℕ) → i < length states → j < length states → place i ≡ place j → i ≡ j

  module _ (distinct : AreDistinct) (access : StmOpacityAccess P) (reader : ℕ)
      (l : reader < length states) where
    conflict-earlier :
        (s w : ℕ) (state : StmOpacityState P)
        → IsSource access reader s
        → get_elem? states w ≡ some state
        → IsWriter access reader state w false
        → place w < place reader
        → place w < place s
    conflict-earlier s w state h e x lw = elim (dec_lt (place w) (place s)) [
      | yes less ↦ less
      | no n ↦
          let (state', e', x') = h.writes in
          let same =
            distinct w s (lt_of_get_elem? states w e) (lt_of_get_elem? states s e')
              (omega (arith, h.latest w state false e x lw)) in
          let states_same = some_inj.0 (sym e ∙ (ap (get_elem? states) same ∙ e')) in
          let found' =
            subst (λ t. find_value access.location_id t ≡ some x'.value) (sym states_same)
              x'.found in
          let value_same = some_inj.0 (sym x.found ∙ found') in
          let clash = subst (λ v. value_eq v access.value ≡ false) value_same x.matches in
          absurd (let m = x'.matches in cc)
    ]

    CanSee-Reads :
        (initial : Value P)
        → CanSee access reader initial
        → Reads place (record {
          reader = reader;
          alternatives = writers true access reader 0 states;
          conflicting_writers = writers false access reader 0 states;
          initial_allowed = value_eq initial access.value;
        })
    CanSee-Reads initial (inl (s, h)) =
        let (state, e, x) = h.writes in
        inl (
          s,
          record {
            listed =
                subst (λ n. In n (writers true access reader 0 states)) (omega arith)
                  (writers← access reader true 0 s states state e
                    (subst (λ n. IsWriter access reader state n true) (omega arith) x));
            earlier = h.earlier;
            last = λ w i lw.
                let (k, q, state', e', x') = writers→ access reader false 0 w states i in
                conflict-earlier s w state' h
                  (subst (λ n. get_elem? states n ≡ some state') (omega arith) e') x' lw;
          },
        )
    CanSee-Reads initial (inr h) = inr (record {
      allowed = h.matches;
      untouched = λ w i lw.
          let (k, q, state, e, x) = writers→ access reader false 0 w states i in
          h.untouched w state false (subst (λ n. get_elem? states n ≡ some state) (omega arith) e) x
            lw;
    })

    apart :
        (w : ℕ)
        → In w (writers false access reader 0 states)
        → (place w < place reader) ⊎ (place reader < place w)
    apart w i =
        let (k, q, state, e, x) = writers→ access reader false 0 w states i in
        elim (dec_lt (place w) (place reader)) [
          | yes less ↦ inl less
          | no n ↦ elim (dec_lt (place reader) (place w)) [
            | yes more ↦ inr more
            | no n' ↦ absurd (
                x.other
                  (distinct w reader (omega (arith, lt_of_get_elem? states k e)) l (omega arith)))
          ]
        ]

    pub constrain_read-IsGood :
        (graph : StmOpacityOrderingGraph)
        → IsSerial place graph
        → ((initial : Value P)
            → initial_of (find_location access.location_id history.locations) ≡ some initial
            → CanSee access reader initial)
        → IsGood place (constrain_read history states reader access graph)
    unfolding constrain_read
    constrain_read-IsGood graph h see =
        go (initial_of (find_location access.location_id history.locations)) see
      where
        go :
            (o : Option (Value P))
            → ((initial : Value P) → o ≡ some initial → CanSee access reader initial)
            → IsGood place (elim o [
              | none ↦ going graph
              | some initial ↦
                  constrain reader
                    (writers true access reader 0 states)
                    (value_eq initial access.value)
                    (writers false access reader 0 states)
                    graph
            ])
        go none see = h
        go (some initial) see =
            constrain-IsGood place reader (writers true access reader 0 states)
              (value_eq initial access.value) (writers false access reader 0 states) graph h
              (CanSee-Reads initial (see initial refl)) apart
