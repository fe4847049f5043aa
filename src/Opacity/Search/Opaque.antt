-- ===== src/Opacity/Search/Opaque.antt =====
-- include/lincheck/lincheck.hpp, `verify_stm_opacity`: what its answers say of a history.
use lincheck_cpp.Prelude.{
  ℕ, suc, ◌≤◌, ◌<◌, ◌≡◌, ◌≢◌, refl, subst, Bool, true, false, if◌then◌else◌, Option, none, some,
  List, [], ◌∷◌, ◌⊎◌, inl, inr, Bool-cases, length, length-replicate, get_elem?, get_or-replicate,
  replicate, lt_of_get_elem?, arith,
}
use lincheck_cpp.Value.{Payloads}
use lincheck_cpp.Opacity.History.{
  StmOpacityTransactionAttempt, StmOpacityHistory, StmOpacityState, stm_opacity_precedes,
  make_initial_stm_opacity_state,
}
use lincheck_cpp.Opacity.Placement.Decide.{IsPlacement}
use lincheck_cpp.Opacity.Ordering.{StmOpacityOrderingGraph}
use lincheck_cpp.Opacity.Graph.{build_stm_opacity_ordering_graph}
use lincheck_cpp.Opacity.Graph.Returns.{build_returns}
use lincheck_cpp.Opacity.Graph.RealTime.{build-HasEdge}
use lincheck_cpp.Opacity.Search.{SearchState, Outcome, found, rejected, transactions_of}
use lincheck_cpp.Opacity.Search.Prefix.{Run, begins, IsPrefix}
use lincheck_cpp.Opacity.Search.Limit.{IsWithin}
use lincheck_cpp.Opacity.Search.Sound.{IsFound, IsAnswer, search_order-IsAnswer}
use lincheck_cpp.Opacity.Search.Verify.{
  ok, malformed_history, violation, search_limit_exceeded, StmOpacityVerificationResult, ids_of,
  committed_of, observers_of, result_of, empty_search, answer_of, search_from, verify_with,
  verify_stm_opacity,
}

module _ {P : Payloads} (history : StmOpacityHistory P) where
  -- The order holds each committed transaction once, it keeps their real-time order, it is a run of
  -- legal reads from the initial state, and each observer reads from the state of a prefix, such
  -- that the real-time order with the committed transactions and among the observers is kept.
  pub record IsOpaqueOrder (order : List ℕ) : Type 0 where
    pub complete : length order ≡ length (committed_of history)
    pub distinct : (p q i : ℕ) → get_elem? order p ≡ some i → get_elem? order q ≡ some i → p ≡ q
    pub real_time :
        (p q i j : ℕ) (x y : StmOpacityTransactionAttempt P)
        → get_elem? order p ≡ some i
        → get_elem? order q ≡ some j
        → get_elem? (committed_of history) i ≡ some x
        → get_elem? (committed_of history) j ≡ some y
        → i ≢ j
        → stm_opacity_precedes x y ≡ true
        → p < q
    pub states : List (StmOpacityState P)
    pub state : StmOpacityState P
    pub run : Run (committed_of history) (make_initial_stm_opacity_state history) order states state
    pub prefix : ℕ → ℕ
    pub placement :
        IsPlacement
          (transactions_of (committed_of history) order)
          states
          (observers_of history)
          prefix

  -- What a result says: a history that is accepted has such an order, whose ids are reported, and
  -- the limit on complete orders is not passed and is reported only where it is reached.
  pub record IsSound (max : ℕ) (result : StmOpacityVerificationResult) : Type 0 where
    pub accepted :
        result.status ≡ ok
        → (order : List ℕ) × (result.committed_order
            ≡ ids_of (transactions_of (committed_of history) order))
          × IsOpaqueOrder order
    pub limited :
        result.status ≡ search_limit_exceeded → (max ≢ 0) × (result.committed_orders_explored ≡ max)
    pub bounded : (max ≡ 0) ⊎ (result.committed_orders_explored ≤ max)
    pub well_formed : result.status ≢ malformed_history

  abbrev pub ReturnsSound : ℕ → Option StmOpacityVerificationResult → Type 0
  ReturnsSound max none = ⊥
  ReturnsSound max (some result) = IsSound max result

  module _ (max : ℕ) (graph : StmOpacityOrderingGraph)
      (built : build_stm_opacity_ordering_graph history (committed_of history) ≡ some graph) where
    abbrev initial : StmOpacityState P
    initial = make_initial_stm_opacity_state history

    found-IsOpaqueOrder :
        (order : List ℕ)
        → graph.inconsistent ≡ false
        → IsFound (committed_of history) (observers_of history) max graph initial order
        → IsOpaqueOrder order
    found-IsOpaqueOrder order consistent f = record {
      complete = f.complete;
      distinct = f.is_prefix.distinct;
      real_time = λ p q i j x y ep eq ei ej ne before.
          let edge =
            build-HasEdge history (committed_of history) graph i j x y built consistent ei ej ne
              before in
          let (p', l, e) =
            f.is_prefix.respects q i j eq
              (omega (arith, edge.sized.rows, lt_of_get_elem? (committed_of history) i ei)) ne
              edge.there in
          subst (λ t. t < q) (f.is_prefix.distinct p' p i e ep) l;
      states = f.states;
      state = f.state;
      run = f.is_prefix.run;
      prefix = f.prefix;
      placement = f.placement;
    }

    answer-IsSound :
        (outcome : Outcome) (s : SearchState)
        → graph.inconsistent ≡ false
        → IsAnswer
            (committed_of history)
            (observers_of history)
            max
            graph
            initial
            (some (outcome, s))
        → IsSound max (answer_of history max outcome s)
    answer-IsSound (found order) s consistent h = record {
      accepted = λ _. (order, refl, found-IsOpaqueOrder order consistent h.1);
      limited = λ e. cc;
      bounded = h.0.bounded;
      well_formed = λ e. cc;
    }
    answer-IsSound (rejected c) s consistent h = elim (Bool-cases s.search_limit_exceeded) [
      | inl e ↦
          rw (e, answer_of)
            (record {
              accepted = λ q. cc;
              limited = λ _. h.0.reported e;
              bounded = h.0.bounded;
              well_formed = λ q. cc;
            })
      | inr e ↦
          rw (e, answer_of)
            (record {
              accepted = λ q. cc;
              limited = λ q. cc;
              bounded = h.0.bounded;
              well_formed = λ q. cc;
            })
    ]

    pub start-IsPrefix :
        IsPrefix
          (committed_of history)
          (observers_of history)
          max
          graph
          initial
          (replicate (length (committed_of history)) false)
          []
          (initial ∷ [])
          initial
    start-IsPrefix =
        let none_placed = get_or-replicate (length (committed_of history)) in
        record {
          size = length-replicate (length (committed_of history)) false;
          listed = λ i e. absurd (let f = none_placed i false in cc);
          flagged = λ p i e. cc;
          distinct = λ p q i e f. cc;
          respects = λ q i j e l ne m. cc;
          run = begins;
        }

    start-IsWithin : IsWithin max (empty_search history max)
    start-IsWithin = record { bounded = inr (omega arith); reported = λ e. cc }

    searched-ReturnsSound :
        (o : Option (Outcome × SearchState))
        → graph.inconsistent ≡ false
        → IsAnswer (committed_of history) (observers_of history) max graph initial o
        → ReturnsSound max
            (elim o [ none ↦ none | some (outcome, s) ↦ some (answer_of history max outcome s) ])
    searched-ReturnsSound none consistent h = h
    searched-ReturnsSound (some (outcome, s)) consistent h = answer-IsSound outcome s consistent h

    ReturnsSound-if :
        (test : Bool) (a b : Option StmOpacityVerificationResult)
        → ReturnsSound max a
        → (test ≡ false → ReturnsSound max b)
        → ReturnsSound max (if test then a else b)
    ReturnsSound-if true a b h k = h
    ReturnsSound-if false a b h k = k refl

    inconsistent-IsSound : IsSound max (result_of history max violation [] 0)
    inconsistent-IsSound = record {
      accepted = λ q. cc;
      limited = λ q. cc;
      bounded = inr (omega arith);
      well_formed = λ q. cc;
    }

    verify_with-ReturnsSound : ReturnsSound max (verify_with history max graph)
    verify_with-ReturnsSound =
        ReturnsSound-if graph.inconsistent _ _ inconsistent-IsSound (λ consistent.
          searched-ReturnsSound (search_from history max graph) consistent (
            search_order-IsAnswer (committed_of history) (observers_of history) max graph initial
              (suc (length (committed_of history)))
              (replicate (length (committed_of history)) false) [] initial (initial ∷ [])
              (empty_search history max) start-IsPrefix (omega arith) (omega arith) start-IsWithin))

  -- `verify_stm_opacity` returns within its fuel for every history and limit. Where it answers ok
  -- the history is opaque: there is an order of all committed transactions, whose ids are reported,
  -- that keeps their real-time order and in which all their reads are legal from the initial state
  -- on, and each other transaction reads legally from the state of a prefix, such that the
  -- real-time order with the committed transactions and among the others is kept. With a limit, no
  -- more complete orders are explored, and the limit is reported only if as many were. It never
  -- answers that the history is malformed.
  pub verify-ReturnsSound : (max : ℕ) → ReturnsSound max (verify_stm_opacity history max)
  unfolding verify_stm_opacity
  verify-ReturnsSound max =
      let (graph, built) = build_returns history (committed_of history) in
      rw (built, verify_stm_opacity) (verify_with-ReturnsSound max graph built)
