-- ===== src/Opacity/Graph/Whole.antt =====
-- `build_stm_opacity_ordering_graph`, against the serial orders in which all reads are legal.
use lincheck_cpp.Prelude.{
  ℕ, zero, suc, ◌<◌, ◌≡◌, refl, sym, subst, false, Option, none, some, List, [], map, length,
  length-map, length-replicate, get_elem?, replicate, get_or, get_or-replicate, arith,
}
use lincheck_cpp.Value.{Payloads}
use lincheck_cpp.Opacity.History.{StmOpacityTransactionAttempt, StmOpacityHistory, StmOpacityState}
use lincheck_cpp.Opacity.Reads.{stm_opacity_final_writes}
use lincheck_cpp.Opacity.Ordering.{StmOpacityOrderingGraph, at, close_stm_opacity_ordering_graph}
use lincheck_cpp.Opacity.Ordering.Matrix.{IsSquare}
use lincheck_cpp.Opacity.Ordering.Serial.{IsSerial}
use lincheck_cpp.Opacity.Ordering.Refine.{close-IsSerial}
use lincheck_cpp.Opacity.Ordering.Choices.{refine_until_closed}
use lincheck_cpp.Opacity.Ordering.Unset.{unset}
use lincheck_cpp.Opacity.Ordering.Settle.{Settled, refine_until_closed_lem}
use lincheck_cpp.Opacity.Graph.{
  Build, going, returns, empty_graph, constrain_readers, real_time_edges,
  build_stm_opacity_ordering_graph, finish_graph,
}
use lincheck_cpp.Opacity.Graph.Edges.{IsGood, KeepsRealTime, real_time_edges-IsSerial}
use lincheck_cpp.Opacity.Graph.Legal.{AreDistinct}
use lincheck_cpp.Opacity.Graph.Loops.{ReadsLegal, readers-IsGood}

empty-at : (n k i j : ℕ) → at (replicate k (replicate n false)) i j ≡ false
empty-at n zero i j = refl
empty-at n (suc k) zero j = get_or-replicate n j false
empty-at n (suc k) (suc i) j = empty-at n k i j

pub empty-IsSquare : (n : ℕ) → IsSquare n (empty_graph n).must_precede
empty-IsSquare n = record { rows = length-replicate n (replicate n false); columns = columns n }
  where
    columns : (k i : ℕ) → i < k → length (get_or (replicate k (replicate n false)) i []) ≡ n
    columns zero i l = absurd (omega arith)
    columns (suc k) zero l = length-replicate n false
    columns (suc k) (suc i) l = columns k i (omega arith)

empty-IsSerial : (place : ℕ → ℕ) (n : ℕ) → IsSerial place (empty_graph n)
empty-IsSerial place n = record {
  kept = record {
    square =
        subst (λ k. IsSquare k (empty_graph n).must_precede) (sym (empty-IsSquare n).rows)
          (empty-IsSquare n);
    consistent = refl;
    keeps = λ i j e. absurd (let f = empty-at n n i j in cc);
  };
  reads = tt;
}

module _ {P : Payloads} (history : StmOpacityHistory P)
    (committed : List (StmOpacityTransactionAttempt P)) where
  abbrev final_states : List (StmOpacityState P)
  final_states = map stm_opacity_final_writes committed

  -- A serial order of the committed transactions, by their places: it keeps their real-time order,
  -- and their reads are legal in it.
  pub record IsLegalOrder (place : ℕ → ℕ) : Type 0 where
    pub distinct : AreDistinct place history final_states
    pub real_time : KeepsRealTime place committed
    pub legal :
        (i : ℕ) (x : StmOpacityTransactionAttempt P)
        → get_elem? committed i ≡ some x
        → ReadsLegal place history final_states i x.accesses []

  -- The graph is there, and the order is one of its serial orders.
  abbrev pub IsAllowed : (ℕ → ℕ) → Option StmOpacityOrderingGraph → Type 0
  IsAllowed place none = ⊥
  IsAllowed place (some graph) = IsSerial place graph

  -- Where the committed transactions have a serial order that keeps their real-time order and in
  -- which their reads are legal, `build_stm_opacity_ordering_graph` returns within its fuel a
  -- consistent graph that the order satisfies: it keeps all constraints, and gives each ambiguous
  -- read one of its sources.
  pub build-IsAllowed :
      (place : ℕ → ℕ)
      → IsLegalOrder place
      → IsAllowed place (build_stm_opacity_ordering_graph history committed)
  unfolding build_stm_opacity_ordering_graph
  build-IsAllowed place h = finished (constrain_readers history final_states 0 committed start) (
      readers-IsGood place history final_states h.distinct 0 committed
        (omega (arith, length-map stm_opacity_final_writes committed))
        (λ k x e.
          subst (λ n. ReadsLegal place history final_states n x.accesses []) (omega arith)
            (h.legal k x e))
        start start-IsSerial)
    where
      start : StmOpacityOrderingGraph
      start = real_time_edges committed 0 committed (empty_graph (length committed))

      start-IsSerial : IsSerial place start
      start-IsSerial =
          real_time_edges-IsSerial place committed 0 committed (empty_graph (length committed))
            (empty-IsSerial place (length committed))
            (λ k j x y ex ey ne r.
              subst (λ n. place n < place j) (omega arith)
                (h.real_time k j x y ex ey (λ e. ne (omega arith)) r))

      finished : (b : Build) → IsGood place b → IsAllowed place (finish_graph b)
      finished (returns graph) good = absurd good
      finished (going graph) good =
          let closed = close_stm_opacity_ordering_graph graph in
          let serial = close-IsSerial place graph good in
          allowed (refine_until_closed (suc (unset closed.must_precede)) closed) serial (
            refine_until_closed_lem (suc (unset closed.must_precede)) closed serial.kept.square
              (omega arith))
        where
          allowed :
              (o : Option StmOpacityOrderingGraph)
              → IsSerial place (close_stm_opacity_ordering_graph graph)
              → Settled (close_stm_opacity_ordering_graph graph) o
              → IsAllowed place o
          allowed none serial settled = settled
          allowed (some g) serial settled = settled place serial
