-- ===== src/Opacity/Ordering/Settle.antt =====
-- The loop that refines and closes a graph until nothing changes, and its fuel.
use lincheck_cpp.Prelude.{
  ℕ, zero, suc, ◌≤◌, ◌<◌, ◌≡◌, refl, sym, subst, ap, Bool, true, false, ◌||◌, Option, none, some,
  List, [], ◌∷◌, ◌⊎◌, inl, inr, Bool-cases, length, arith,
}
use lincheck_cpp.Opacity.Ordering.{
  StmOpacityReadFromChoiceConstraint, StmOpacityOrderingGraph, add_stm_opacity_ordering_constraint,
  close_stm_opacity_ordering_graph,
}
use lincheck_cpp.Opacity.Ordering.Matrix.{IsSquare}
use lincheck_cpp.Opacity.Ordering.Add.{IsExtension, add-IsExtension}
use lincheck_cpp.Opacity.Ordering.Closure.{close-IsClosureOf}
use lincheck_cpp.Opacity.Ordering.Choices.{
  refine_choice, has_no_source, promote, refine_loop, refine_stm_opacity_read_from_choices,
  refine_until_closed,
}
use lincheck_cpp.Opacity.Ordering.Serial.{IsSerial}
use lincheck_cpp.Opacity.Ordering.Refine.{refine-IsSerial, close-IsSerial}
use lincheck_cpp.Opacity.Ordering.Unset.{unset, unset-set_at, close_le}

-- What a part of the refinement does to a graph: it keeps the matrix square and the entries that are
-- set, and where it says that it has added one it has.
record IsProgress (graph graph' : StmOpacityOrderingGraph) (added : Bool) : Type 0 where
  pub square : IsSquare (length graph'.must_precede) graph'.must_precede
  pub fewer : unset graph'.must_precede ≤ unset graph.must_precede
  pub strict : added ≡ true → unset graph'.must_precede < unset graph.must_precede

add-IsProgress :
    (graph : StmOpacityOrderingGraph) (before after : ℕ)
    → IsSquare (length graph.must_precede) graph.must_precede
    → IsProgress graph
        (add_stm_opacity_ordering_constraint graph before after).0
        (add_stm_opacity_ordering_constraint graph before after).1
add-IsProgress graph before after h = elim (Bool-cases fresh) [
  | inl e ↦
      let (lb, la, _, f) = x.fresh_iff.0 e in
      let less =
        unset-set_at graph.must_precede before after lb (omega (arith, h.columns before lb)) f in
      let same = ap unset (x.fresh_matrix e) in
      record { square = square; fewer = omega arith; strict = λ _. omega arith }
  | inr e ↦
      let same = ap unset (x.same_matrix e) in
      record { square = square; fewer = omega arith; strict = λ e'. cc }
]
  where
    graph' : StmOpacityOrderingGraph
    graph' = (add_stm_opacity_ordering_constraint graph before after).0

    fresh : Bool
    fresh = (add_stm_opacity_ordering_constraint graph before after).1

    x : IsExtension graph graph' before after fresh
    x = add-IsExtension graph before after h

    square : IsSquare (length graph'.must_precede) graph'.must_precede
    square = subst (λ n. IsSquare n graph'.must_precede) (sym x.square.rows) x.square

promote-IsProgress :
    (graph : StmOpacityOrderingGraph) (reader : ℕ) (allowed : Bool) (sources : List ℕ)
    → IsSquare (length graph.must_precede) graph.must_precede
    → IsProgress graph
        (promote graph reader allowed sources).0
        (promote graph reader allowed sources).1
promote-IsProgress graph reader false (s ∷ []) h = add-IsProgress graph s reader h
promote-IsProgress graph reader false [] h = record {
  square = h;
  fewer = omega arith;
  strict = λ e. cc;
}
promote-IsProgress graph reader false (s ∷ t ∷ sources) h = record {
  square = h;
  fewer = omega arith;
  strict = λ e. cc;
}
promote-IsProgress graph reader true sources h = record {
  square = h;
  fewer = omega arith;
  strict = λ e. cc;
}

-- The same of the loop, which may have added one before.
record IsRefined (graph graph' : StmOpacityOrderingGraph) (before after : Bool) : Type 0 where
  pub square : IsSquare (length graph'.must_precede) graph'.must_precede
  pub fewer : unset graph'.must_precede ≤ unset graph.must_precede
  pub strict :
      after ≡ true → (before ≡ true) ⊎ (unset graph'.must_precede < unset graph.must_precede)

refine_loop-IsRefined :
    (graph : StmOpacityOrderingGraph) (added : Bool)
    (choices : List StmOpacityReadFromChoiceConstraint)
    → IsSquare (length graph.must_precede) graph.must_precede
    → IsRefined graph (refine_loop graph added choices).0 added (refine_loop graph added choices).1
unfolding refine_loop
refine_loop-IsRefined graph added [] h = record {
  square = h;
  fewer = omega arith;
  strict = λ e. inl e;
}
refine_loop-IsRefined graph added (choice ∷ choices) h =
    elim (Bool-cases (has_no_source refined.initial_allowed refined.alternatives)) [
      | inl e ↦
          rw (e, refine_loop) (record { square = h; fewer = omega arith; strict = λ e. inl e })
      | inr e ↦
          let p =
            promote-IsProgress graph refined.reader refined.initial_allowed refined.alternatives
              h in
          let r = refine_loop-IsRefined promoted.0 (added || promoted.1) choices p.square in
          rw (e, refine_loop)
            (record {
              square = r.square;
              fewer = omega (arith, r.fewer, p.fewer);
              strict = λ t. elim (r.strict t) [
                | inl either ↦ elim (or_cases added promoted.1 either) [
                  | inl a ↦ inl a
                  | inr b ↦ inr (omega (arith, r.fewer, p.strict b))
                ]
                | inr l ↦ inr (omega (arith, l, p.fewer))
              ];
            })
    ]
  where
    refined : StmOpacityReadFromChoiceConstraint
    refined = refine_choice graph.must_precede choice

    promoted : StmOpacityOrderingGraph × Bool
    promoted = promote graph refined.reader refined.initial_allowed refined.alternatives

    or_cases : (a b : Bool) → (a || b) ≡ true → (a ≡ true) ⊎ (b ≡ true)
    or_cases true b e = inl refl
    or_cases false b e = inr e

refine-IsRefined :
    (graph : StmOpacityOrderingGraph)
    → IsSquare (length graph.must_precede) graph.must_precede
    → IsRefined graph
        (refine_stm_opacity_read_from_choices graph).0
        false
        (refine_stm_opacity_read_from_choices graph).1
unfolding refine_stm_opacity_read_from_choices
refine-IsRefined graph h = refine_loop-IsRefined graph false graph.read_from_choices h

pub close-IsSquare :
    (graph : StmOpacityOrderingGraph)
    → IsSquare (length graph.must_precede) graph.must_precede
    → IsSquare
        (length (close_stm_opacity_ordering_graph graph).must_precede)
        (close_stm_opacity_ordering_graph graph).must_precede
close-IsSquare graph h =
    let c = close-IsClosureOf graph h in
    subst (λ n. IsSquare n (close_stm_opacity_ordering_graph graph).must_precede)
      (sym c.square.rows) c.square

-- How the loop ends.
abbrev pub Settled : StmOpacityOrderingGraph → Option StmOpacityOrderingGraph → Type 0
Settled graph none = ⊥
Settled graph (some graph') = (place : ℕ → ℕ) → IsSerial place graph → IsSerial place graph'

-- From a graph with a square matrix and with more fuel than entries are not set, the loop that
-- refines and closes it ends within its fuel. Each serial order that keeps the constraints and gives
-- each ambiguous read a source does so in the end, and the graph is then still consistent.
pub refine_until_closed_lem :
    (fuel : ℕ) (graph : StmOpacityOrderingGraph)
    → IsSquare (length graph.must_precede) graph.must_precede
    → unset graph.must_precede < fuel
    → Settled graph (refine_until_closed fuel graph)
unfolding refine_until_closed
refine_until_closed_lem zero graph h l = elim l [ ]
refine_until_closed_lem (suc fuel) graph h l = answer graph.inconsistent refined.1 refl (λ a.
    let r = refine-IsRefined graph h in
    let less : unset refined.0.must_precede < unset graph.must_precede = elim (r.strict a) [
      | inl f ↦ absurd cc
      | inr l ↦ l
    ] in
    refine_until_closed_lem fuel closed (close-IsSquare refined.0 r.square)
      (omega (arith, less, close_le refined.0)))
  where
    refined : StmOpacityOrderingGraph × Bool
    refined = refine_stm_opacity_read_from_choices graph

    closed : StmOpacityOrderingGraph
    closed = close_stm_opacity_ordering_graph refined.0

    Settled-before : (o : Option StmOpacityOrderingGraph) → Settled closed o → Settled graph o
    Settled-before none s = s
    Settled-before (some graph') s = λ place serial.
        s place (close-IsSerial place refined.0 (refine-IsSerial place graph serial))

    answer :
        (x y : Bool)
        → refined.1 ≡ y
        → (refined.1 ≡ true → Settled closed (refine_until_closed fuel closed))
        → Settled graph (elim x [
          | true ↦ some graph
          | false ↦ elim y [ false ↦ some refined.0 | true ↦ refine_until_closed fuel closed ]
        ])
    answer true y e rest = λ place s. s
    answer false false e rest = λ place s. refine-IsSerial place graph s
    answer false true e rest = Settled-before (refine_until_closed fuel closed) (rest e)
