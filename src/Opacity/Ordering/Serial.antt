-- ===== src/Opacity/Ordering/Serial.antt =====
-- The serial orders of the transactions that the constraints and choices of a graph allow, and
-- what the refinement of one choice means for them.
use native.Mathlib.Decide.{dec_lt}
use lincheck_cpp.Prelude.{
  ℕ, ◌≤◌, ◌<◌, ◌≡◌, refl, subst, Bool, true, false, ◌||◌, List, [], ◌∷◌, ◌⊎◌, inl, inr, Bool-cases,
  length, In, arith,
}
use lincheck_cpp.Opacity.Ordering.{StmOpacityReadFromChoiceConstraint, StmOpacityOrderingGraph, at}
use lincheck_cpp.Opacity.Ordering.Matrix.{IsSquare}
use lincheck_cpp.Opacity.Ordering.Closure.{Reach, edge, join}
use lincheck_cpp.Opacity.Ordering.Choices.{
  must, is_shadowed, viable_alternatives, has_forced_conflict, refine_choice, has_no_source,
}

module _ (place : ℕ → ℕ) where
  -- The order puts each transaction after those that must precede it.
  abbrev pub Keeps : List (List Bool) → Type 0
  Keeps m = (i j : ℕ) → at m i j ≡ true → place i < place j

  -- In this order the reader reads from the source: no conflicting writer comes in between.
  pub record ReadsFrom (choice : StmOpacityReadFromChoiceConstraint) (source : ℕ) : Type 0 where
    pub listed : In source choice.alternatives
    pub earlier : place source < place choice.reader
    pub last :
        (w : ℕ)
        → In w choice.conflicting_writers
        → place w < place choice.reader
        → place w < place source

  -- It reads the initial value: no conflicting writer comes before.
  pub record ReadsInitial (choice : StmOpacityReadFromChoiceConstraint) : Type 0 where
    pub allowed : choice.initial_allowed ≡ true
    pub untouched : (w : ℕ) → In w choice.conflicting_writers → place w < place choice.reader → ⊥

  abbrev pub Reads : StmOpacityReadFromChoiceConstraint → Type 0
  Reads choice = ((source : ℕ) × ReadsFrom choice source) ⊎ ReadsInitial choice

  abbrev pub AllRead : List StmOpacityReadFromChoiceConstraint → Type 0
  AllRead [] = Unit
  AllRead (c ∷ cs) = Reads c × AllRead cs

  -- The graph is consistent, and the order keeps its constraints.
  pub record IsKept (graph : StmOpacityOrderingGraph) : Type 0 where
    pub square : IsSquare (length graph.must_precede) graph.must_precede
    pub consistent : graph.inconsistent ≡ false
    pub keeps : Keeps graph.must_precede

  -- In the order all ambiguous reads have a source as well.
  pub record IsSerial (graph : StmOpacityOrderingGraph) : Type 0 where
    pub kept : IsKept graph
    pub reads : AllRead graph.read_from_choices

  must-at : (m : List (List Bool)) (a b : ℕ) → must m a b ≡ true → at m a b ≡ true
  must-at m a b e = ground arith

  module _ (m : List (List Bool)) (keeps : Keeps m) where
    pub Reach-keeps : (i j : ℕ) → Reach m i j → place i < place j
    Reach-keeps i j (edge e) = keeps i j e
    Reach-keeps i j (join {k = k} r s) = omega (arith, Reach-keeps i k r, Reach-keeps k j s)

    not_must : (a b : ℕ) → place b ≤ place a → must m a b ≡ false
    not_must a b l = elim (Bool-cases (must m a b)) [
      | inl e ↦ absurd (omega (arith, keeps a b (must-at m a b e)))
      | inr e ↦ e
    ]

    module _ (choice : StmOpacityReadFromChoiceConstraint) where
      not_shadowed :
          (source : ℕ) (conflicts : List ℕ)
          → ((w : ℕ) → In w conflicts → place w < place choice.reader → place w < place source)
          → is_shadowed m choice.reader source conflicts ≡ false
      unfolding is_shadowed
      not_shadowed source [] last = refl
      not_shadowed source (w ∷ conflicts) last =
          let rest = not_shadowed source conflicts (λ v i. last v (inr i)) in
          elim (dec_lt (place w) (place choice.reader)) [
            | yes l ↦ let n = not_must source w (omega (arith, last w (inl refl) l)) in ground arith
            | no l ↦ let n = not_must w choice.reader (omega arith) in ground arith
          ]

      kept :
          (source : ℕ) (sources : List ℕ)
          → In source sources
          → (must m choice.reader source
              || is_shadowed m choice.reader source choice.conflicting_writers)
            ≡ false
          → In source (viable_alternatives m choice.reader choice.conflicting_writers sources)
      unfolding viable_alternatives
      kept source [] i e = absurd i
      kept source (s ∷ sources) (inl q) e =
          let e' =
            subst
              (λ x.
                (must m choice.reader x || is_shadowed m choice.reader x choice.conflicting_writers)
                ≡ false)
              q e in
          rw e' (inl q)
      kept source (s ∷ sources) (inr i) e =
          elim (Bool-cases
            (must m choice.reader s || is_shadowed m choice.reader s choice.conflicting_writers)) [
              | inl d ↦ rw d (kept source sources i e)
              | inr d ↦ rw d (inr (kept source sources i e))
            ]

      not_forced :
          (conflicts : List ℕ)
          → ((w : ℕ) → In w conflicts → place w < place choice.reader → ⊥)
          → has_forced_conflict m choice.reader conflicts ≡ false
      unfolding has_forced_conflict
      not_forced [] untouched = refl
      not_forced (w ∷ conflicts) untouched =
          let rest = not_forced conflicts (λ v i. untouched v (inr i)) in
          let n = not_must w choice.reader (elim (dec_lt (place w) (place choice.reader)) [
            | yes l ↦ absurd (untouched w (inl refl) l)
            | no l ↦ omega arith
          ]) in
          ground arith

      pub refine-Reads : Reads choice → Reads (refine_choice m choice)
      unfolding refine_choice
      refine-Reads (inl (source, r)) =
          let n = not_must choice.reader source (omega (arith, r.earlier)) in
          let n' = not_shadowed source choice.conflicting_writers r.last in
          inl (
            source,
            record {
              listed = kept source choice.alternatives r.listed (ground arith);
              earlier = r.earlier;
              last = r.last;
            },
          )
      refine-Reads (inr r) =
          let n = not_forced choice.conflicting_writers r.untouched in
          let a = r.allowed in inr (record { allowed = ground arith; untouched = r.untouched })

  pub has_source :
      (choice : StmOpacityReadFromChoiceConstraint)
      → Reads choice
      → has_no_source choice.initial_allowed choice.alternatives ≡ false
  has_source choice r = go choice.initial_allowed choice.alternatives refl refl
    where
      go :
          (b : Bool) (sources : List ℕ)
          → choice.initial_allowed ≡ b
          → choice.alternatives ≡ sources
          → has_no_source b sources ≡ false
      go true sources e f = refl
      go false (s ∷ sources) e f = refl
      go false [] e f = elim r [
        | inl (source, h) ↦ absurd (subst (In source) f h.listed)
        | inr h ↦ let a = h.allowed in cc
      ]
