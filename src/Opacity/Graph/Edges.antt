-- ===== src/Opacity/Graph/Edges.antt =====
-- The loops of `build_stm_opacity_ordering_graph`, against a serial order of the committed
-- transactions.
use lincheck_cpp.Prelude.{
  ℕ, suc, ◌+◌, ◌<◌, ◌≡◌, ◌≢◌, refl, sym, subst, Bool, true, false, not, ◌&&◌, ◌==◌, ==_iff,
  if◌then◌else◌, some, List, [], ◌∷◌, ◌++◌, inl, inr, get_elem?, In, arith,
}
use lincheck_cpp.Value.{Payloads}
use lincheck_cpp.Opacity.History.{StmOpacityTransactionAttempt, stm_opacity_precedes}
use lincheck_cpp.Opacity.Ordering.{StmOpacityReadFromChoiceConstraint, StmOpacityOrderingGraph}
use lincheck_cpp.Opacity.Ordering.Add.{add-IsExtension}
use lincheck_cpp.Opacity.Ordering.Serial.{Reads, AllRead, IsSerial}
use lincheck_cpp.Opacity.Ordering.Refine.{add-IsKept}
use lincheck_cpp.Opacity.Graph.{
  add_edge, Build, going, returns, real_time_row, real_time_edges, before_all,
}

module _ (place : ℕ → ℕ) where
  -- What a loop leaves is a graph that the order is one of.
  abbrev pub IsGood : Build → Type 0
  IsGood (going graph) = IsSerial place graph
  IsGood (returns graph) = ⊥

  pub edge-IsSerial :
      (graph : StmOpacityOrderingGraph) (before after : ℕ)
      → IsSerial place graph
      → place before < place after
      → IsSerial place (add_edge graph before after)
  edge-IsSerial graph before after h l = record {
    kept = add-IsKept place graph before after h.kept l;
    reads =
        subst (AllRead place) (sym (add-IsExtension graph before after h.kept.square).choices)
          h.reads;
  }

  AllRead-append :
      (cs : List StmOpacityReadFromChoiceConstraint) (c : StmOpacityReadFromChoiceConstraint)
      → AllRead place cs
      → Reads place c
      → AllRead place (cs ++ (c ∷ []))
  AllRead-append [] c h r = (r, tt)
  AllRead-append (d ∷ cs) c (h, hs) r = (h, AllRead-append cs c hs r)

  pub choice-IsSerial :
      (graph : StmOpacityOrderingGraph) (c : StmOpacityReadFromChoiceConstraint)
      → IsSerial place graph
      → Reads place c
      → IsSerial place (record graph { read_from_choices = graph.read_from_choices ++ (c ∷ []) })
  choice-IsSerial graph c h r = record {
    kept = record { square = h.kept.square; consistent = h.kept.consistent; keeps = h.kept.keeps };
    reads = AllRead-append graph.read_from_choices c h.reads r;
  }

  pub before_all-IsSerial :
      (reader : ℕ) (ws : List ℕ) (graph : StmOpacityOrderingGraph)
      → IsSerial place graph
      → ((w : ℕ) → In w ws → place reader < place w)
      → IsSerial place (before_all reader ws graph)
  unfolding before_all
  before_all-IsSerial reader [] graph h l = h
  before_all-IsSerial reader (w ∷ ws) graph h l =
      before_all-IsSerial reader ws (add_edge graph reader w)
        (edge-IsSerial graph reader w h (l w (inl refl))) (λ v i. l v (inr i))

  module _ {P : Payloads} where
    real_time_row-IsSerial :
        (x : StmOpacityTransactionAttempt P) (i j : ℕ) (ys : List (StmOpacityTransactionAttempt P))
        (graph : StmOpacityOrderingGraph)
        → IsSerial place graph
        → ((k : ℕ) (y : StmOpacityTransactionAttempt P)
            → get_elem? ys k ≡ some y
            → i ≢ j + k
            → stm_opacity_precedes x y ≡ true
            → place i < place (j + k))
        → IsSerial place (real_time_row x i j ys graph)
    unfolding real_time_row
    real_time_row-IsSerial x i j [] graph h l = h
    real_time_row-IsSerial x i j (y ∷ ys) graph h l =
        real_time_row-IsSerial x i (suc j) ys _
          (added (not (i == j) && stm_opacity_precedes x y) refl)
          (λ k z e.
            subst (λ n. i ≢ n → stm_opacity_precedes x z ≡ true → place i < place n) (omega arith)
              (l (suc k) z e))
      where
        here : i ≢ j → stm_opacity_precedes x y ≡ true → place i < place j
        here =
            subst (λ n. i ≢ n → stm_opacity_precedes x y ≡ true → place i < place n) (omega arith)
              (l 0 y refl)

        split : (a : Bool) → (not (i == j) && a) ≡ true → (i ≢ j) × (a ≡ true)
        split a e = ground (arith, ==_iff i j)

        added :
            (b : Bool)
            → (not (i == j) && stm_opacity_precedes x y) ≡ b
            → IsSerial place (if b then add_edge graph i j else graph)
        added true e =
            let (ne, p) = split (stm_opacity_precedes x y) e in
            edge-IsSerial graph i j h (here ne p)
        added false e = h

    -- The order keeps the real-time order of the transactions.
    abbrev pub KeepsRealTime : List (StmOpacityTransactionAttempt P) → Type 0
    KeepsRealTime committed =
        (i j : ℕ) (x y : StmOpacityTransactionAttempt P)
        → get_elem? committed i ≡ some x
        → get_elem? committed j ≡ some y
        → i ≢ j
        → stm_opacity_precedes x y ≡ true
        → place i < place j

    pub real_time_edges-IsSerial :
        (committed : List (StmOpacityTransactionAttempt P)) (i : ℕ)
        (xs : List (StmOpacityTransactionAttempt P)) (graph : StmOpacityOrderingGraph)
        → IsSerial place graph
        → ((k j : ℕ) (x y : StmOpacityTransactionAttempt P)
            → get_elem? xs k ≡ some x
            → get_elem? committed j ≡ some y
            → i + k ≢ j
            → stm_opacity_precedes x y ≡ true
            → place (i + k) < place j)
        → IsSerial place (real_time_edges committed i xs graph)
    unfolding real_time_edges
    real_time_edges-IsSerial committed i [] graph h l = h
    real_time_edges-IsSerial committed i (x ∷ xs) graph h l =
        real_time_edges-IsSerial committed (suc i) xs _
          (real_time_row-IsSerial x i 0 committed graph h (λ j y e.
            subst (λ n. i ≢ n → stm_opacity_precedes x y ≡ true → place i < place n) (omega arith)
              (subst (λ n. n ≢ j → stm_opacity_precedes x y ≡ true → place n < place j)
                (omega arith) (l 0 j x y refl e))))
          (λ k j z y e f.
            subst (λ n. n ≢ j → stm_opacity_precedes z y ≡ true → place n < place j) (omega arith)
              (l (suc k) j z y e f))
