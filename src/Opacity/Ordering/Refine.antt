-- ===== src/Opacity/Ordering/Refine.antt =====
-- Refinement and closure, against the serial orders that a graph allows.
use lincheck_cpp.Prelude.{
  ℕ, ◌<◌, ◌≡◌, ◌≢◌, refl, sym, subst, ◌∙◌, Bool, true, false, ◌||◌, List, [], ◌∷◌, inl, inr,
  Bool-cases, In, arith,
}
use lincheck_cpp.Opacity.Ordering.{
  StmOpacityReadFromChoiceConstraint, StmOpacityOrderingGraph, add_stm_opacity_ordering_constraint,
  close_stm_opacity_ordering_graph,
}
use lincheck_cpp.Opacity.Ordering.Matrix.{IsSquare}
use lincheck_cpp.Opacity.Ordering.Add.{IsExtension, add-IsExtension}
use lincheck_cpp.Opacity.Ordering.Closure.{Reach, IsClosureOf, close-IsClosureOf}
use lincheck_cpp.Opacity.Ordering.Choices.{
  refine_choice, promote, refine_loop, refine_stm_opacity_read_from_choices,
}
use lincheck_cpp.Opacity.Ordering.Serial.{
  Reads, AllRead, IsKept, IsSerial, Reach-keeps, refine-Reads, has_source,
}

module _ (place : ℕ → ℕ) where
  -- Adding an edge that the order keeps leaves a graph that it keeps.
  pub add-IsKept :
      (graph : StmOpacityOrderingGraph) (before after : ℕ)
      → IsKept place graph
      → place before < place after
      → IsKept place (add_stm_opacity_ordering_constraint graph before after).0
  add-IsKept graph before after h l = record {
    square = subst (λ n. IsSquare n m') (sym e.square.rows) e.square;
    consistent = e.consistent ne ∙ h.consistent;
    keeps = λ i j f. elim (e.only i j f) [ inl g ↦ h.keeps i j g | inr (p, q) ↦ rw (p, q) l ];
  }
    where
      m' : List (List Bool)
      m' = (add_stm_opacity_ordering_constraint graph before after).0.must_precede

      e :
          IsExtension graph
            (add_stm_opacity_ordering_constraint graph before after).0
            before
            after
            (add_stm_opacity_ordering_constraint graph before after).1
      e = add-IsExtension graph before after h.square

      ne : before ≢ after
      ne q = let l' = subst (λ x. place x < place after) q l in omega arith

  promote-IsKept :
      (graph : StmOpacityOrderingGraph) (choice : StmOpacityReadFromChoiceConstraint)
      → IsKept place graph
      → Reads place choice
      → IsKept place (promote graph choice.reader choice.initial_allowed choice.alternatives).0
  promote-IsKept graph choice h r = go choice.initial_allowed choice.alternatives refl refl
    where
      go :
          (b : Bool) (sources : List ℕ)
          → choice.initial_allowed ≡ b
          → choice.alternatives ≡ sources
          → IsKept place (promote graph choice.reader b sources).0
      go true sources e f = h
      go false [] e f = h
      go false (s ∷ t ∷ sources) e f = h
      go false (s ∷ []) e f = elim r [
        | inl (source, c) ↦ elim (subst (In source) f c.listed) [
          | inl q ↦
              add-IsKept graph s choice.reader h
                (subst (λ x. place x < place choice.reader) q c.earlier)
          | inr i ↦ absurd i
        ]
        | inr c ↦ absurd (let a = c.allowed in cc)
      ]

  refine_loop-IsSerial :
      (graph : StmOpacityOrderingGraph) (added : Bool)
      (choices : List StmOpacityReadFromChoiceConstraint)
      → IsKept place graph
      → AllRead place choices
      → IsSerial place (refine_loop graph added choices).0
  unfolding refine_loop
  refine_loop-IsSerial graph added [] h r = record {
    kept = record { square = h.square; consistent = h.consistent; keeps = h.keeps };
    reads = tt;
  }
  refine_loop-IsSerial graph added (choice ∷ choices) h (r, rs) =
      let r' = refine-Reads place graph.must_precede h.keeps choice r in
      let s =
        refine_loop-IsSerial
          (promote graph refined.reader refined.initial_allowed refined.alternatives).0
          (added || (promote graph refined.reader refined.initial_allowed refined.alternatives).1)
          choices (promote-IsKept graph refined h r') rs in
      rw (has_source place refined r', refine_loop)
        (record {
          kept = record {
            square = s.kept.square;
            consistent = s.kept.consistent;
            keeps = s.kept.keeps;
          };
          reads = (r', s.reads);
        })
    where
      refined : StmOpacityReadFromChoiceConstraint
      refined = refine_choice graph.must_precede choice

  -- Refinement keeps all serial orders: in an order that keeps the constraints of a consistent graph
  -- and gives each ambiguous read a source, this is still so after the choices have been refined, and
  -- the graph stays consistent.
  pub refine-IsSerial :
      (graph : StmOpacityOrderingGraph)
      → IsSerial place graph
      → IsSerial place (refine_stm_opacity_read_from_choices graph).0
  unfolding refine_stm_opacity_read_from_choices
  refine-IsSerial graph h = refine_loop-IsSerial graph false graph.read_from_choices h.kept h.reads

  -- So does the closure.
  pub close-IsSerial :
      (graph : StmOpacityOrderingGraph)
      → IsSerial place graph
      → IsSerial place (close_stm_opacity_ordering_graph graph)
  close-IsSerial graph h = record {
    kept = record {
      square = subst (λ n. IsSquare n closed.must_precede) (sym c.square.rows) c.square;
      consistent = elim (Bool-cases closed.inconsistent) [
        | inl bad ↦ absurd (elim (c.verdict.0 bad) [
          | inl bad' ↦ let good = h.kept.consistent in cc
          | inr (i, r) ↦ omega (arith, reached i i r)
        ])
        | inr good ↦ good
      ];
      keeps = λ i j e. reached i j ((c.entries i j).0 e);
    };
    reads = subst (AllRead place) (sym c.choices) h.reads;
  }
    where
      closed : StmOpacityOrderingGraph
      closed = close_stm_opacity_ordering_graph graph

      c : IsClosureOf graph closed
      c = close-IsClosureOf graph h.kept.square

      reached : (i j : ℕ) → Reach graph.must_precede i j → place i < place j
      reached = Reach-keeps place graph.must_precede h.kept.keeps
