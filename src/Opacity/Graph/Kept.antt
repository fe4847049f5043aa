-- ===== src/Opacity/Graph/Kept.antt =====
-- `build_stm_opacity_ordering_graph`: the constraints that a graph gets stay in it, those of the
-- real-time order among them.
use lincheck_cpp.Prelude.{
  ℕ, zero, suc, ◌≡◌, refl, sym, subst, Bool, true, false, ◌||◌, Option, none, some, List, [], ◌∷◌,
  length, Bool-cases, inl, inr,
}
use lincheck_cpp.Value.{Payloads, Value, value_eq}
use lincheck_cpp.Opacity.History.{
  StmOpacityAccess, StmOpacityTransactionAttempt, StmOpacityHistory, StmOpacityState, find_value,
  insert_or_assign,
}
use lincheck_cpp.Opacity.Ordering.{
  StmOpacityReadFromChoiceConstraint, StmOpacityOrderingGraph, at, close_stm_opacity_ordering_graph,
}
use lincheck_cpp.Opacity.Ordering.Matrix.{IsSquare}
use lincheck_cpp.Opacity.Ordering.Add.{add-IsExtension}
use lincheck_cpp.Opacity.Ordering.Closure.{edge, close-IsClosureOf}
use lincheck_cpp.Opacity.Ordering.Choices.{
  refine_choice, has_no_source, promote, refine_loop, refine_stm_opacity_read_from_choices,
  refine_until_closed,
}
use lincheck_cpp.Opacity.Ordering.Unset.{unset}
use lincheck_cpp.Opacity.Graph.{
  Build, going, returns, add_edge, find_location, initial_of, writers, before_all, constrain,
  constrain_read, constrain_accesses, constrain_readers, finish_graph,
}

module _ (n : ℕ) where
  abbrev pub IsSized : StmOpacityOrderingGraph → Type 0
  IsSized graph = IsSquare n graph.must_precede

  pub add_edge-IsSized :
      (graph : StmOpacityOrderingGraph) (i j : ℕ) → IsSized graph → IsSized (add_edge graph i j)
  add_edge-IsSized graph i j h =
      subst (λ k. IsSquare k (add_edge graph i j).must_precede) h.rows
        (add-IsExtension graph i j (resized graph h)).square
    where
      resized :
          (g : StmOpacityOrderingGraph)
          → IsSquare n g.must_precede
          → IsSquare (length g.must_precede) g.must_precede
      resized g s = subst (λ k. IsSquare k g.must_precede) (sym s.rows) s

  pub own-IsSquare :
      (g : StmOpacityOrderingGraph) → IsSized g → IsSquare (length g.must_precede) g.must_precede
  own-IsSquare g s = subst (λ k. IsSquare k g.must_precede) (sym s.rows) s

  module _ (b a : ℕ) where
    -- The graph has the edge.
    pub record HasEdge (graph : StmOpacityOrderingGraph) : Type 0 where
      pub sized : IsSquare n graph.must_precede
      pub there : at graph.must_precede b a ≡ true

    pub add_edge-HasEdge :
        (graph : StmOpacityOrderingGraph) (i j : ℕ) → HasEdge graph → HasEdge (add_edge graph i j)
    add_edge-HasEdge graph i j h = record {
      sized = add_edge-IsSized graph i j h.sized;
      there = (add-IsExtension graph i j (own-IsSquare graph h.sized)).mono b a h.there;
    }

    -- Whether a loop has gone on with the edge; where it returns, the graph is inconsistent.
    abbrev pub BuildsEdge : Build → Type 0
    BuildsEdge (going graph) = HasEdge graph
    BuildsEdge (returns graph) = graph.inconsistent ≡ true

    before_all-HasEdge :
        (reader : ℕ) (ws : List ℕ) (graph : StmOpacityOrderingGraph)
        → HasEdge graph
        → HasEdge (before_all reader ws graph)
    unfolding before_all
    before_all-HasEdge reader [] graph h = h
    before_all-HasEdge reader (w ∷ ws) graph h =
        before_all-HasEdge reader ws (add_edge graph reader w) (add_edge-HasEdge graph reader w h)

    constrain-BuildsEdge :
        (reader : ℕ) (matching : List ℕ) (initial : Bool) (conflicting : List ℕ)
        (graph : StmOpacityOrderingGraph)
        → HasEdge graph
        → BuildsEdge (constrain reader matching initial conflicting graph)
    constrain-BuildsEdge reader [] false conflicting graph h = refl
    constrain-BuildsEdge reader [] true conflicting graph h =
        before_all-HasEdge reader conflicting graph h
    constrain-BuildsEdge reader (w ∷ []) false conflicting graph h =
        add_edge-HasEdge graph w reader h
    constrain-BuildsEdge reader (w ∷ v ∷ ws) false conflicting graph h = record {
      sized = h.sized;
      there = h.there;
    }
    constrain-BuildsEdge reader (w ∷ ws) true conflicting graph h = record {
      sized = h.sized;
      there = h.there;
    }

    close-HasEdge :
        (graph : StmOpacityOrderingGraph)
        → HasEdge graph
        → HasEdge (close_stm_opacity_ordering_graph graph)
    close-HasEdge graph h =
        let c = close-IsClosureOf graph (own-IsSquare graph h.sized) in
        record {
          sized =
              subst (λ k. IsSquare k (close_stm_opacity_ordering_graph graph).must_precede)
                h.sized.rows c.square;
          there = (c.entries b a).1 (edge h.there);
        }

    promote-HasEdge :
        (graph : StmOpacityOrderingGraph) (reader : ℕ) (allowed : Bool) (sources : List ℕ)
        → HasEdge graph
        → HasEdge (promote graph reader allowed sources).0
    promote-HasEdge graph reader false (s ∷ []) h = add_edge-HasEdge graph s reader h
    promote-HasEdge graph reader false [] h = h
    promote-HasEdge graph reader false (s ∷ t ∷ sources) h = h
    promote-HasEdge graph reader true sources h = h

    refine_loop-HasEdge :
        (graph : StmOpacityOrderingGraph) (added : Bool)
        (choices : List StmOpacityReadFromChoiceConstraint)
        → HasEdge graph
        → HasEdge (refine_loop graph added choices).0
    unfolding refine_loop
    refine_loop-HasEdge graph added [] h = record { sized = h.sized; there = h.there }
    refine_loop-HasEdge graph added (choice ∷ choices) h =
        elim (Bool-cases (has_no_source refined.initial_allowed refined.alternatives)) [
          | inl e ↦ rw (e, refine_loop) (record { sized = h.sized; there = h.there })
          | inr e ↦
              let rest = refine_loop-HasEdge promoted.0 (added || promoted.1) choices (
                promote-HasEdge graph refined.reader refined.initial_allowed refined.alternatives
                  h) in
              rw (e, refine_loop) (record { sized = rest.sized; there = rest.there })
        ]
      where
        refined : StmOpacityReadFromChoiceConstraint
        refined = refine_choice graph.must_precede choice

        promoted : StmOpacityOrderingGraph × Bool
        promoted = promote graph refined.reader refined.initial_allowed refined.alternatives

    refine-HasEdge :
        (graph : StmOpacityOrderingGraph)
        → HasEdge graph
        → HasEdge (refine_stm_opacity_read_from_choices graph).0
    unfolding refine_stm_opacity_read_from_choices
    refine-HasEdge graph h = refine_loop-HasEdge graph false graph.read_from_choices h

    abbrev pub GivesEdge : Option StmOpacityOrderingGraph → Type 0
    GivesEdge none = Unit
    GivesEdge (some graph) = graph.inconsistent ≡ false → HasEdge graph

    refine_until_closed-GivesEdge :
        (fuel : ℕ) (graph : StmOpacityOrderingGraph)
        → HasEdge graph
        → GivesEdge (refine_until_closed fuel graph)
    unfolding refine_until_closed
    refine_until_closed-GivesEdge zero graph h = tt
    refine_until_closed-GivesEdge (suc fuel) graph h = answer graph.inconsistent refined.1 (
        refine_until_closed-GivesEdge fuel (close_stm_opacity_ordering_graph refined.0)
          (close-HasEdge refined.0 (refine-HasEdge graph h)))
      where
        refined : StmOpacityOrderingGraph × Bool
        refined = refine_stm_opacity_read_from_choices graph

        answer :
            (x y : Bool)
            → GivesEdge (refine_until_closed fuel (close_stm_opacity_ordering_graph refined.0))
            → GivesEdge (elim x [
              | true ↦ some graph
              | false ↦ elim y [
                | false ↦ some refined.0
                | true ↦ refine_until_closed fuel (close_stm_opacity_ordering_graph refined.0)
              ]
            ])
        answer true y rest = λ _. h
        answer false false rest = λ _. refine-HasEdge graph h
        answer false true rest = rest

    pub finish-GivesEdge : (build : Build) → BuildsEdge build → GivesEdge (finish_graph build)
    finish-GivesEdge (returns graph) h = λ e. cc
    finish-GivesEdge (going graph) h =
        let closed = close_stm_opacity_ordering_graph graph in
        refine_until_closed-GivesEdge (suc (unset closed.must_precede)) closed
          (close-HasEdge graph h)

    module _ {P : Payloads} (history : StmOpacityHistory P)
        (states : List (StmOpacityState P)) where
      then-BuildsEdge :
          (rest : StmOpacityOrderingGraph → Build) (build : Build)
          → BuildsEdge build
          → ((graph : StmOpacityOrderingGraph) → HasEdge graph → BuildsEdge (rest graph))
          → BuildsEdge (elim build [ returns graph ↦ returns graph | going graph ↦ rest graph ])
      then-BuildsEdge rest (returns graph) h good = h
      then-BuildsEdge rest (going graph) h good = good graph h

      constrain_read-BuildsEdge :
          (reader : ℕ) (access : StmOpacityAccess P) (graph : StmOpacityOrderingGraph)
          → HasEdge graph
          → BuildsEdge (constrain_read history states reader access graph)
      unfolding constrain_read
      constrain_read-BuildsEdge reader access graph h =
          go (initial_of (find_location access.location_id history.locations))
        where
          go :
              (o : Option (Value P))
              → BuildsEdge (elim o [
                | none ↦ going graph
                | some initial ↦
                    constrain reader
                      (writers true access reader 0 states)
                      (value_eq initial access.value)
                      (writers false access reader 0 states)
                      graph
              ])
          go none = h
          go (some initial) = constrain-BuildsEdge reader _ _ _ graph h

      accesses-BuildsEdge :
          (reader : ℕ) (accesses : List (StmOpacityAccess P)) (local_writes : StmOpacityState P)
          (graph : StmOpacityOrderingGraph)
          → HasEdge graph
          → BuildsEdge (constrain_accesses history states reader accesses local_writes graph)
      unfolding constrain_accesses
      accesses-BuildsEdge reader [] local_writes graph h = h
      accesses-BuildsEdge reader (access ∷ accesses) local_writes graph h =
          go (accesses-BuildsEdge reader accesses) access.write
            (find_value access.location_id local_writes)
        where
          go :
              ((writes : StmOpacityState P) (g : StmOpacityOrderingGraph)
                → HasEdge g
                → BuildsEdge (constrain_accesses history states reader accesses writes g))
              → (w : Bool) (o : Option (Value P))
              → BuildsEdge (elim w [
                | true ↦
                    constrain_accesses history states reader accesses
                      (insert_or_assign access.location_id access.value local_writes)
                      graph
                | false ↦ elim o [
                  | some _ ↦ constrain_accesses history states reader accesses local_writes graph
                  | none ↦ elim (constrain_read history states reader access graph) [
                    | returns graph' ↦ returns graph'
                    | going graph' ↦
                        constrain_accesses history states reader accesses local_writes graph'
                  ]
                ]
              ])
          go rest true o = rest _ graph h
          go rest false (some _) = rest local_writes graph h
          go rest false none =
              then-BuildsEdge (constrain_accesses history states reader accesses local_writes)
                (constrain_read history states reader access graph)
                (constrain_read-BuildsEdge reader access graph h) (rest local_writes)

      pub readers-BuildsEdge :
          (reader : ℕ) (xs : List (StmOpacityTransactionAttempt P))
          (graph : StmOpacityOrderingGraph)
          → HasEdge graph
          → BuildsEdge (constrain_readers history states reader xs graph)
      unfolding constrain_readers
      readers-BuildsEdge reader [] graph h = h
      readers-BuildsEdge reader (x ∷ xs) graph h =
          then-BuildsEdge (constrain_readers history states (suc reader) xs)
            (constrain_accesses history states reader x.accesses [] graph)
            (accesses-BuildsEdge reader x.accesses [] graph h) (readers-BuildsEdge (suc reader) xs)
