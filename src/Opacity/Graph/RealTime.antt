-- ===== src/Opacity/Graph/RealTime.antt =====
-- `build_stm_opacity_ordering_graph`: the constraints of the real-time order.
use lincheck_cpp.Prelude.{
  ℕ, zero, suc, ◌+◌, ◌<◌, ◌≡◌, ◌≢◌, sym, subst, true, false, not, ◌&&◌, ◌==◌, if◌then◌else◌, some,
  List, [], ◌∷◌, map, length, get_elem?, lt_of_get_elem?, Bool-cases, inl, inr, arith,
}
use mathlib.Core.Option.{some_inj}
use lincheck_cpp.Value.{Payloads}
use lincheck_cpp.Opacity.History.{
  StmOpacityTransactionAttempt, StmOpacityHistory, stm_opacity_precedes,
}
use lincheck_cpp.Opacity.Reads.{stm_opacity_final_writes}
use lincheck_cpp.Opacity.Ordering.{StmOpacityOrderingGraph}
use lincheck_cpp.Opacity.Ordering.Add.{add-IsExtension}
use lincheck_cpp.Opacity.Graph.{
  add_edge, empty_graph, constrain_readers, real_time_row, real_time_edges,
  build_stm_opacity_ordering_graph,
}
use lincheck_cpp.Opacity.Graph.Whole.{empty-IsSquare}
use lincheck_cpp.Opacity.Graph.Kept.{
  IsSized, add_edge-IsSized, own-IsSquare, HasEdge, add_edge-HasEdge, GivesEdge, finish-GivesEdge,
  readers-BuildsEdge,
}

new-HasEdge :
    (n b a : ℕ) (graph : StmOpacityOrderingGraph)
    → b < n
    → a < n
    → b ≢ a
    → IsSized n graph
    → HasEdge n b a (add_edge graph b a)
new-HasEdge n b a graph before_n after_n differ h = record {
  sized = add_edge-IsSized n graph b a h;
  there =
      (add-IsExtension graph b a (own-IsSquare n graph h)).added (omega (arith, h.rows))
        (omega (arith, h.rows)) differ;
}

module _ {P : Payloads} (n : ℕ) where
  -- The graph of a row after its first column.
  abbrev row_step :
      StmOpacityTransactionAttempt P
      → ℕ
      → ℕ
      → StmOpacityTransactionAttempt P
      → StmOpacityOrderingGraph
      → StmOpacityOrderingGraph
  row_step x i j y graph =
      if not (i == j) && stm_opacity_precedes x y then add_edge graph i j else graph

  step-IsSized :
      (x : StmOpacityTransactionAttempt P) (i j : ℕ) (y : StmOpacityTransactionAttempt P)
      (graph : StmOpacityOrderingGraph)
      → IsSized n graph
      → IsSized n (row_step x i j y graph)
  step-IsSized x i j y graph h = elim (Bool-cases (not (i == j) && stm_opacity_precedes x y)) [
    | inl e ↦ rw e (add_edge-IsSized n graph i j h)
    | inr e ↦ rw e h
  ]

  row-IsSized :
      (x : StmOpacityTransactionAttempt P) (i j : ℕ) (ys : List (StmOpacityTransactionAttempt P))
      (graph : StmOpacityOrderingGraph)
      → IsSized n graph
      → IsSized n (real_time_row x i j ys graph)
  unfolding real_time_row
  row-IsSized x i j [] graph h = h
  row-IsSized x i j (y ∷ ys) graph h =
      row-IsSized x i (suc j) ys (row_step x i j y graph) (step-IsSized x i j y graph h)

  module _ (b a : ℕ) where
    step-HasEdge :
        (x : StmOpacityTransactionAttempt P) (i j : ℕ) (y : StmOpacityTransactionAttempt P)
        (graph : StmOpacityOrderingGraph)
        → HasEdge n b a graph
        → HasEdge n b a (row_step x i j y graph)
    step-HasEdge x i j y graph h = elim (Bool-cases (not (i == j) && stm_opacity_precedes x y)) [
      | inl e ↦ rw e (add_edge-HasEdge n b a graph i j h)
      | inr e ↦ rw e h
    ]

    row-HasEdge :
        (x : StmOpacityTransactionAttempt P) (i j : ℕ) (ys : List (StmOpacityTransactionAttempt P))
        (graph : StmOpacityOrderingGraph)
        → HasEdge n b a graph
        → HasEdge n b a (real_time_row x i j ys graph)
    unfolding real_time_row
    row-HasEdge x i j [] graph h = h
    row-HasEdge x i j (y ∷ ys) graph h =
        row-HasEdge x i (suc j) ys (row_step x i j y graph) (step-HasEdge x i j y graph h)

    edges-HasEdge :
        (committed : List (StmOpacityTransactionAttempt P)) (i : ℕ)
        (xs : List (StmOpacityTransactionAttempt P)) (graph : StmOpacityOrderingGraph)
        → HasEdge n b a graph
        → HasEdge n b a (real_time_edges committed i xs graph)
    unfolding real_time_edges
    edges-HasEdge committed i [] graph h = h
    edges-HasEdge committed i (x ∷ xs) graph h =
        edges-HasEdge committed (suc i) xs (real_time_row x i 0 committed graph)
          (row-HasEdge x i 0 committed graph h)

    module _ (before_n : b < n) (after_n : a < n) (differ : b ≢ a) where
      -- The row of b reaches the column of a.
      row-adds :
          (x y : StmOpacityTransactionAttempt P) (j k : ℕ)
          (ys : List (StmOpacityTransactionAttempt P)) (graph : StmOpacityOrderingGraph)
          → IsSized n graph
          → get_elem? ys k ≡ some y
          → j + k ≡ a
          → stm_opacity_precedes x y ≡ true
          → HasEdge n b a (real_time_row x b j ys graph)
      unfolding real_time_row
      row-adds x y j k [] graph h e q p = cc
      row-adds x y j zero (z ∷ ys) graph h e q p =
          let test : (not (b == j) && stm_opacity_precedes x z) ≡ true = ground (
            arith,
            q,
            differ,
            subst (λ t. stm_opacity_precedes x t ≡ true) (sym (some_inj.0 e)) p,
          ) in
          row-HasEdge x b (suc j) ys (row_step x b j z graph) (
            rw test (
              subst (λ t. HasEdge n b a (add_edge graph b t)) (omega arith)
                (new-HasEdge n b a graph before_n after_n differ h)))
      row-adds x y j (suc k) (z ∷ ys) graph h e q p =
          row-adds x y (suc j) k ys (row_step x b j z graph) (step-IsSized x b j z graph h) e
            (omega arith) p

      edges-add :
          (committed : List (StmOpacityTransactionAttempt P)) (x y : StmOpacityTransactionAttempt P)
          (i k : ℕ) (xs : List (StmOpacityTransactionAttempt P)) (graph : StmOpacityOrderingGraph)
          → IsSized n graph
          → get_elem? xs k ≡ some x
          → i + k ≡ b
          → get_elem? committed a ≡ some y
          → stm_opacity_precedes x y ≡ true
          → HasEdge n b a (real_time_edges committed i xs graph)
      unfolding real_time_edges
      edges-add committed x y i k [] graph h e q f p = cc
      edges-add committed x y i zero (z ∷ xs) graph h e q f p =
          edges-HasEdge committed (suc i) xs (real_time_row z i 0 committed graph) (
            subst (λ t. HasEdge n b a (real_time_row z t 0 committed graph)) (omega arith)
              (row-adds z y 0 a committed graph h f (omega arith)
                (subst (λ t. stm_opacity_precedes t y ≡ true) (sym (some_inj.0 e)) p)))
      edges-add committed x y i (suc k) (z ∷ xs) graph h e q f p =
          edges-add committed x y (suc i) k xs (real_time_row z i 0 committed graph)
            (row-IsSized z i 0 committed graph h) e (omega arith) f p

module _ {P : Payloads} (history : StmOpacityHistory P)
    (committed : List (StmOpacityTransactionAttempt P)) where
  -- A graph that is built and consistent has an edge from each committed transaction to each other
  -- one that it precedes in real time.
  pub build-HasEdge :
      (graph : StmOpacityOrderingGraph) (i j : ℕ) (x y : StmOpacityTransactionAttempt P)
      → build_stm_opacity_ordering_graph history committed ≡ some graph
      → graph.inconsistent ≡ false
      → get_elem? committed i ≡ some x
      → get_elem? committed j ≡ some y
      → i ≢ j
      → stm_opacity_precedes x y ≡ true
      → HasEdge (length committed) i j graph
  unfolding build_stm_opacity_ordering_graph
  build-HasEdge graph i j x y built consistent ei ej ne p =
      let n = length committed in
      let states = map stm_opacity_final_writes committed in
      let start = real_time_edges committed 0 committed (empty_graph n) in
      let started : HasEdge n i j start =
        edges-add n i j (lt_of_get_elem? committed i ei) (lt_of_get_elem? committed j ej) ne
          committed x y 0 i committed (empty_graph n) (empty-IsSquare n) ei (omega arith) ej p in
      subst (GivesEdge n i j) built
        (finish-GivesEdge n i j (constrain_readers history states 0 committed start)
          (readers-BuildsEdge n i j history states 0 committed start started))
        consistent
