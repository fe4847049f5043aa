-- ===== src/Opacity/Graph/Returns.antt =====
-- The loops of `build_stm_opacity_ordering_graph` and their fuel, for any history.
use lincheck_cpp.Prelude.{
  ℕ, suc, ◌≡◌, refl, sym, subst, Bool, true, false, not, ◌&&◌, ◌==◌, if◌then◌else◌, Option, none,
  some, List, [], ◌∷◌, map, length, arith,
}
use lincheck_cpp.Value.{Payloads, Value, value_eq}
use lincheck_cpp.Opacity.History.{
  StmOpacityAccess, StmOpacityTransactionAttempt, StmOpacityHistory, StmOpacityState, find_value,
  insert_or_assign, stm_opacity_precedes,
}
use lincheck_cpp.Opacity.Reads.{stm_opacity_final_writes}
use lincheck_cpp.Opacity.Ordering.{StmOpacityOrderingGraph, close_stm_opacity_ordering_graph}
use lincheck_cpp.Opacity.Ordering.Matrix.{IsSquare}
use lincheck_cpp.Opacity.Ordering.Add.{add-IsExtension}
use lincheck_cpp.Opacity.Ordering.Choices.{refine_until_closed}
use lincheck_cpp.Opacity.Ordering.Unset.{unset}
use lincheck_cpp.Opacity.Ordering.Settle.{Settled, refine_until_closed_lem, close-IsSquare}
use lincheck_cpp.Opacity.Graph.{
  Build, going, returns, add_edge, empty_graph, find_location, initial_of, writers, before_all,
  constrain, constrain_read, constrain_accesses, constrain_readers, real_time_row, real_time_edges,
  build_stm_opacity_ordering_graph, finish_graph,
}
use lincheck_cpp.Opacity.Graph.Whole.{empty-IsSquare}

abbrev HasSquare : StmOpacityOrderingGraph → Type 0
HasSquare graph = IsSquare (length graph.must_precede) graph.must_precede

abbrev IsFit : Build → Type 0
IsFit (going graph) = HasSquare graph
IsFit (returns graph) = Unit

edge-HasSquare :
    (graph : StmOpacityOrderingGraph) (i j : ℕ) → HasSquare graph → HasSquare (add_edge graph i j)
edge-HasSquare graph i j h =
    let e = add-IsExtension graph i j h in
    subst (λ n. IsSquare n (add_edge graph i j).must_precede) (sym e.square.rows) e.square

before_all-HasSquare :
    (reader : ℕ) (ws : List ℕ) (graph : StmOpacityOrderingGraph)
    → HasSquare graph
    → HasSquare (before_all reader ws graph)
unfolding before_all
before_all-HasSquare reader [] graph h = h
before_all-HasSquare reader (w ∷ ws) graph h =
    before_all-HasSquare reader ws (add_edge graph reader w) (edge-HasSquare graph reader w h)

constrain-IsFit :
    (reader : ℕ) (matching : List ℕ) (initial : Bool) (conflicting : List ℕ)
    (graph : StmOpacityOrderingGraph)
    → HasSquare graph
    → IsFit (constrain reader matching initial conflicting graph)
constrain-IsFit reader [] false conflicting graph h = tt
constrain-IsFit reader [] true conflicting graph h = before_all-HasSquare reader conflicting graph h
constrain-IsFit reader (w ∷ []) false conflicting graph h = edge-HasSquare graph w reader h
constrain-IsFit reader (w ∷ v ∷ ws) false conflicting graph h = h
constrain-IsFit reader (w ∷ ws) true conflicting graph h = h

module _ {P : Payloads} where
  real_time_row-HasSquare :
      (x : StmOpacityTransactionAttempt P) (i j : ℕ) (ys : List (StmOpacityTransactionAttempt P))
      (graph : StmOpacityOrderingGraph)
      → HasSquare graph
      → HasSquare (real_time_row x i j ys graph)
  unfolding real_time_row
  real_time_row-HasSquare x i j [] graph h = h
  real_time_row-HasSquare x i j (y ∷ ys) graph h =
      real_time_row-HasSquare x i (suc j) ys _ (added (not (i == j) && stm_opacity_precedes x y))
    where
      added : (b : Bool) → HasSquare (if b then add_edge graph i j else graph)
      added true = edge-HasSquare graph i j h
      added false = h

  real_time_edges-HasSquare :
      (committed : List (StmOpacityTransactionAttempt P)) (i : ℕ)
      (xs : List (StmOpacityTransactionAttempt P)) (graph : StmOpacityOrderingGraph)
      → HasSquare graph
      → HasSquare (real_time_edges committed i xs graph)
  unfolding real_time_edges
  real_time_edges-HasSquare committed i [] graph h = h
  real_time_edges-HasSquare committed i (x ∷ xs) graph h =
      real_time_edges-HasSquare committed (suc i) xs _
        (real_time_row-HasSquare x i 0 committed graph h)

  module _ (history : StmOpacityHistory P) (states : List (StmOpacityState P)) where
    constrain_read-IsFit :
        (reader : ℕ) (access : StmOpacityAccess P) (graph : StmOpacityOrderingGraph)
        → HasSquare graph
        → IsFit (constrain_read history states reader access graph)
    unfolding constrain_read
    constrain_read-IsFit reader access graph h =
        go (initial_of (find_location access.location_id history.locations))
      where
        go :
            (o : Option (Value P))
            → IsFit (elim o [
              | none ↦ going graph
              | some initial ↦
                  constrain reader
                    (writers true access reader 0 states)
                    (value_eq initial access.value)
                    (writers false access reader 0 states)
                    graph
            ])
        go none = h
        go (some initial) = constrain-IsFit reader _ _ _ graph h

    then-IsFit :
        (rest : StmOpacityOrderingGraph → Build) (b : Build)
        → IsFit b
        → ((graph : StmOpacityOrderingGraph) → HasSquare graph → IsFit (rest graph))
        → IsFit (elim b [ returns graph ↦ returns graph | going graph ↦ rest graph ])
    then-IsFit rest (returns graph) h good = tt
    then-IsFit rest (going graph) h good = good graph h

    accesses-IsFit :
        (reader : ℕ) (accesses : List (StmOpacityAccess P)) (local_writes : StmOpacityState P)
        (graph : StmOpacityOrderingGraph)
        → HasSquare graph
        → IsFit (constrain_accesses history states reader accesses local_writes graph)
    unfolding constrain_accesses
    accesses-IsFit reader [] local_writes graph h = h
    accesses-IsFit reader (access ∷ accesses) local_writes graph h =
        go (accesses-IsFit reader accesses) access.write
          (find_value access.location_id local_writes)
      where
        go :
            ((local_writes : StmOpacityState P) (graph : StmOpacityOrderingGraph)
              → HasSquare graph
              → IsFit (constrain_accesses history states reader accesses local_writes graph))
            → (b : Bool) (o : Option (Value P))
            → IsFit (elim b [
              | true ↦
                  constrain_accesses history states reader accesses
                    (insert_or_assign access.location_id access.value local_writes)
                    graph
              | false ↦ elim o [
                | some _ ↦ constrain_accesses history states reader accesses local_writes graph
                | none ↦ elim (constrain_read history states reader access graph) [
                  | returns graph' ↦ returns graph'
                  | going graph' ↦
                      constrain_accesses history states reader accesses local_writes graph'
                ]
              ]
            ])
        go rest true o = rest _ graph h
        go rest false (some _) = rest local_writes graph h
        go rest false none =
            then-IsFit (constrain_accesses history states reader accesses local_writes)
              (constrain_read history states reader access graph)
              (constrain_read-IsFit reader access graph h) (rest local_writes)

    readers-IsFit :
        (reader : ℕ) (xs : List (StmOpacityTransactionAttempt P)) (graph : StmOpacityOrderingGraph)
        → HasSquare graph
        → IsFit (constrain_readers history states reader xs graph)
    unfolding constrain_readers
    readers-IsFit reader [] graph h = h
    readers-IsFit reader (x ∷ xs) graph h =
        then-IsFit (constrain_readers history states (suc reader) xs)
          (constrain_accesses history states reader x.accesses [] graph)
          (accesses-IsFit reader x.accesses [] graph h) (readers-IsFit (suc reader) xs)

  -- `build_stm_opacity_ordering_graph` returns a graph for every history.
  pub build_returns :
      (history : StmOpacityHistory P) (committed : List (StmOpacityTransactionAttempt P))
      → (graph : StmOpacityOrderingGraph) × (build_stm_opacity_ordering_graph history committed
          ≡ some graph)
  unfolding build_stm_opacity_ordering_graph
  build_returns history committed = finished (constrain_readers history states 0 committed start) (
      readers-IsFit history states 0 committed start (
        real_time_edges-HasSquare committed 0 committed (empty_graph n) (
          subst (λ k. IsSquare k (empty_graph n).must_precede) (sym (empty-IsSquare n).rows)
            (empty-IsSquare n))))
    where
      n : ℕ
      n = length committed

      states : List (StmOpacityState P)
      states = map stm_opacity_final_writes committed

      start : StmOpacityOrderingGraph
      start = real_time_edges committed 0 committed (empty_graph n)

      there :
          (graph : StmOpacityOrderingGraph) (o : Option StmOpacityOrderingGraph)
          → Settled graph o
          → (g : StmOpacityOrderingGraph) × (o ≡ some g)
      there graph none h = absurd h
      there graph (some g) h = (g, refl)

      finished : (b : Build) → IsFit b → (g : StmOpacityOrderingGraph) × (finish_graph b ≡ some g)
      finished (returns graph) h = (graph, refl)
      finished (going graph) h =
          let closed = close_stm_opacity_ordering_graph graph in
          there closed (refine_until_closed (suc (unset closed.must_precede)) closed) (
            refine_until_closed_lem (suc (unset closed.must_precede)) closed
              (close-IsSquare graph h) (omega arith))
