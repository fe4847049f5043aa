-- ===== src/Opacity/Search/Decides.antt =====
-- include/lincheck/lincheck.hpp, `verify_stm_opacity`: its answers and the opacity of the history.
use mathlib.Core.Option.{some_inj}
use lincheck_cpp.Prelude.{
  ℕ, suc, ◌≡◌, ◌≢◌, refl, subst, true, false, if◌then◌else◌, Option, none, some, List, [], ◌∷◌, ◌⊎◌,
  inl, inr, Bool-cases, length, lt_of_get_elem?, replicate, member, arith,
}
use lincheck_cpp.Value.{Payloads}
use lincheck_cpp.Value.Symmetric.{EqIsSymmetric}
use lincheck_cpp.Opacity.History.{
  StmOpacityTransactionAttempt, StmOpacityHistory, make_initial_stm_opacity_state,
}
use lincheck_cpp.Opacity.Ordering.{StmOpacityOrderingGraph}
use lincheck_cpp.Opacity.Ordering.Serial.{IsSerial}
use lincheck_cpp.Opacity.Graph.{build_stm_opacity_ordering_graph}
use lincheck_cpp.Opacity.Graph.Whole.{IsLegalOrder, IsAllowed, build-IsAllowed}
use lincheck_cpp.Opacity.Graph.Returns.{build_returns}
use lincheck_cpp.Opacity.Graph.RealTime.{build-HasEdge}
use lincheck_cpp.Opacity.Search.{SearchState, Outcome, found, rejected}
use lincheck_cpp.Opacity.Search.Serial.{Run-Forward}
use lincheck_cpp.Opacity.Search.Places.{place_in, place_in_lem}
use lincheck_cpp.Opacity.Search.Legal.{listed, place_in-AreDistinct, place_in-ReadsLegal}
use lincheck_cpp.Opacity.Search.Exchange.{IsSerialRun, HasRealTime}
use lincheck_cpp.Opacity.Search.Locations.{AllInitialised}
use lincheck_cpp.Opacity.Search.Keys.{HashesDiffer, hashes-KeysAreFaithful}
use lincheck_cpp.Opacity.Search.Rejects.{IsAccepted, Rejects}
use lincheck_cpp.Opacity.Search.Exhausts.{search_order-Rejects}
use lincheck_cpp.Opacity.Search.Opaque.{
  IsOpaqueOrder, IsSound, ReturnsSound, start-IsPrefix, verify-ReturnsSound,
}
use lincheck_cpp.Opacity.Search.Verify.{
  StmOpacityStatus, ok, malformed_history, violation, search_limit_exceeded,
  StmOpacityVerificationResult, is_committed, select, committed_of, observers_of, result_of,
  empty_search, answer_of, search_from, verify_with, verify_stm_opacity,
}

none_remembered : (key : List ℕ) → member key [] ≡ true → ⊥
unfolding member
none_remembered key e = cc

module _ {P : Payloads} (history : StmOpacityHistory P) where
  -- There is an order that shows the history to be opaque.
  abbrev pub IsOpaque : Type 0
  IsOpaque = (order : List ℕ) × IsOpaqueOrder history order

  abbrev Refutes : StmOpacityVerificationResult → Type 0
  Refutes result = result.status ≡ violation → IsOpaque → ⊥

  -- The answers ok and violation are right, without a limit there is no other, and none says that
  -- the history is malformed.
  pub record IsDecision (max : ℕ) (result : StmOpacityVerificationResult) : Type 0 where
    pub accepted : result.status ≡ ok → IsOpaque
    pub refuted : result.status ≡ violation → IsOpaque → ⊥
    pub settled : max ≡ 0 → (result.status ≡ ok) ⊎ (result.status ≡ violation)
    pub well_formed : result.status ≢ malformed_history

  abbrev pub Decides : ℕ → Option StmOpacityVerificationResult → Type 0
  Decides max none = ⊥
  Decides max (some result) = IsDecision max result

  select-AllInitialised :
      (txs : List (StmOpacityTransactionAttempt P))
      → AllInitialised history txs
      → AllInitialised history (select true txs)
  unfolding select
  select-AllInitialised [] h = tt
  select-AllInitialised (tx ∷ txs) (h, hs) = elim (Bool-cases (is_committed tx.outcome)) [
    | inl e ↦ rw (e, AllInitialised) (h, select-AllInitialised txs hs)
    | inr e ↦ rw (e, AllInitialised) (select-AllInitialised txs hs)
  ]

  opaque-IsSerialRun :
      (order : List ℕ)
      → IsOpaqueOrder history order
      → IsSerialRun history (committed_of history) order
  opaque-IsSerialRun order h = record {
    complete = record {
      full = h.complete;
      once = h.distinct;
      runs =
          (Run-Forward (committed_of history) (make_initial_stm_opacity_state history) order
            h.states h.state h.run).runs;
    };
    real_time = h.real_time;
  }

  opaque-IsAccepted :
      (max : ℕ) (graph : StmOpacityOrderingGraph) (order : List ℕ)
      → IsOpaqueOrder history order
      → IsAccepted history (committed_of history) (observers_of history) max graph order
  opaque-IsAccepted max graph order h = record {
    states = h.states;
    state = h.state;
    run = h.run;
    prefix = h.prefix;
    placement = h.placement;
  }

  run-IsLegalOrder :
      EqIsSymmetric P
      → (order : List ℕ) → IsSerialRun history (committed_of history) order
      → IsLegalOrder history (committed_of history) (place_in order)
  run-IsLegalOrder symmetric order r = record {
    distinct = place_in-AreDistinct history (committed_of history) order r.complete;
    real_time = λ i j x y ei ej ne before.
        let (p, f) =
          listed history (committed_of history) order r.complete i
            (lt_of_get_elem? (committed_of history) i ei) in
        let (q, g) =
          listed history (committed_of history) order r.complete j
            (lt_of_get_elem? (committed_of history) j ej) in
        omega (
          arith,
          r.real_time p q i j x y f g ei ej ne before,
          place_in_lem order p i r.complete.once f,
          place_in_lem order q j r.complete.once g,
        );
    legal = place_in-ReadsLegal history (committed_of history) order r.complete symmetric;
  }

  module _ (symmetric : EqIsSymmetric P) (differ : HashesDiffer history (committed_of history))
      (initialised : AllInitialised history history.transactions) (max : ℕ)
      (graph : StmOpacityOrderingGraph)
      (built : build_stm_opacity_ordering_graph history (committed_of history) ≡ some graph) where
    run-IsSerial :
        (order : List ℕ)
        → IsSerialRun history (committed_of history) order
        → IsSerial (place_in order) graph
    run-IsSerial order r = subst (IsAllowed history (committed_of history) (place_in order)) built (
        build-IsAllowed history (committed_of history) (place_in order)
          (run-IsLegalOrder symmetric order r))

    graph-HasRealTime :
        graph.inconsistent ≡ false → HasRealTime history (committed_of history) graph
    graph-HasRealTime consistent i j x y ei ej ne before =
        let edge =
          build-HasEdge history (committed_of history) graph i j x y built consistent ei ej ne
            before in
        (omega (arith, edge.sized.rows, lt_of_get_elem? (committed_of history) i ei), edge.there)

    answer-Refutes :
        (outcome : Outcome) (s : SearchState)
        → Rejects history
            (committed_of history)
            (observers_of history)
            max
            graph
            []
            (empty_search history max)
            (some (outcome, s))
        → Refutes (answer_of history max outcome s)
    answer-Refutes (found order) s h e opaque = cc
    answer-Refutes (rejected c) s h e (order, o) = elim (Bool-cases s.search_limit_exceeded) [
      | inl limited ↦ absurd (let e' = e in ground (arith, e', limited))
      | inr unlimited ↦
          h.unaccepted unlimited order (opaque-IsSerialRun order o)
            (opaque-IsAccepted max graph order o)
    ]

    verify_with-Refutes :
        (result : StmOpacityVerificationResult)
        → verify_with history max graph ≡ some result
        → Refutes result
    verify_with-Refutes result e v (order, o) = elim (Bool-cases graph.inconsistent) [
      | inl bad ↦
          absurd
            (let good = (run-IsSerial order (opaque-IsSerialRun order o)).kept.consistent in cc)
      | inr consistent ↦
          searched (search_from history max graph)
            (search_order-Rejects history (committed_of history) (observers_of history) max graph
              (graph-HasRealTime consistent)
              (hashes-KeysAreFaithful history (committed_of history) differ)
              (select-AllInitialised history.transactions initialised) run-IsSerial
              (suc (length (committed_of history)))
              (replicate (length (committed_of history)) false) []
              (make_initial_stm_opacity_state history) (make_initial_stm_opacity_state history ∷ [])
              (empty_search history max)
              (record { is_prefix = start-IsPrefix history max graph built; ids = refl })
              (λ key m. absurd (none_remembered key m)))
            (subst
              (λ b.
                (if b
                  then some (result_of history max violation [] 0)
                  else elim (search_from history max graph) [
                    | none ↦ none
                    | some (outcome, s) ↦ some (answer_of history max outcome s)
                  ])
                ≡ some result)
              consistent e)
    ]
      where
        searched :
            (x : Option (Outcome × SearchState))
            → Rejects history
                (committed_of history)
                (observers_of history)
                max
                graph
                []
                (empty_search history max)
                x
            → (elim x [ none ↦ none | some (outcome, s) ↦ some (answer_of history max outcome s) ])
              ≡ some result
            → ⊥
        searched none h f = cc
        searched (some (outcome, s)) h f =
            subst Refutes (some_inj.0 f) (answer-Refutes outcome s h) v (order, o)

  sound-IsDecision :
      (max : ℕ) (result : StmOpacityVerificationResult)
      → IsSound history max result
      → Refutes result
      → IsDecision max result
  sound-IsDecision max result h refutes = record {
    accepted = λ e. let (order, _, o) = h.accepted e in (order, o);
    refuted = refutes;
    settled = λ z. status_cases result.status refl z;
    well_formed = h.well_formed;
  }
    where
      status_cases :
          (status : StmOpacityStatus)
          → result.status ≡ status
          → max ≡ 0
          → (result.status ≡ ok) ⊎ (result.status ≡ violation)
      status_cases ok e z = inl e
      status_cases violation e z = inr e
      status_cases malformed_history e z = absurd (h.well_formed e)
      status_cases search_limit_exceeded e z = absurd ((h.limited e).0 z)

  -- Where `operator==` of doubles and of user values is symmetric, different values of a location
  -- have different `stable_hash`, and all accesses are to locations with an initial value,
  -- `verify_stm_opacity` decides opacity: it returns; where it answers ok there is an order that
  -- shows the history to be opaque, where it answers violation there is none, and without a limit
  -- on complete orders it gives one of these two answers.
  pub verify-Decides :
      EqIsSymmetric P
      → HashesDiffer history (committed_of history)
      → AllInitialised history history.transactions
      → (max : ℕ) → Decides max (verify_stm_opacity history max)
  unfolding verify_stm_opacity
  verify-Decides symmetric differ initialised max =
      let (graph, built) = build_returns history (committed_of history) in
      decided (verify_stm_opacity history max) (verify-ReturnsSound history max) (λ result e.
        verify_with-Refutes symmetric differ initialised max graph built result (
          subst (λ o. (elim o [ none ↦ none | some g ↦ verify_with history max g ]) ≡ some result)
            built e))
    where
      decided :
          (o : Option StmOpacityVerificationResult)
          → ReturnsSound history max o
          → ((result : StmOpacityVerificationResult) → o ≡ some result → Refutes result)
          → Decides max o
      decided none h refutes = h
      decided (some result) h refutes = sound-IsDecision max result h (refutes result refl)
