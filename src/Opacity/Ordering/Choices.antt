-- ===== src/Opacity/Ordering/Choices.antt =====
-- include/lincheck/lincheck.hpp, `refine_stm_opacity_read_from_choices`: sources that the ordering
-- constraints rule out are dropped from the ambiguous reads.
use lincheck_cpp.Prelude.{
  ℕ, zero, suc, Option, none, some, Bool, true, false, not, ◌&&◌, ◌||◌, ltb, if◌then◌else◌, List,
  [], ◌∷◌, length,
}
use lincheck_cpp.Opacity.Ordering.{
  StmOpacityReadFromChoiceConstraint, StmOpacityOrderingGraph, at,
  add_stm_opacity_ordering_constraint, close_stm_opacity_ordering_graph,
}

-- `a < size && b < size && must_precede[a][b]`
abbrev pub must : List (List Bool) → ℕ → ℕ → Bool
must m a b = ltb a (length m) && (ltb b (length m) && at m a b)

-- The loop that looks for `shadowing_conflict`.
unfoldable pub is_shadowed : List (List Bool) → ℕ → ℕ → List ℕ → Bool
is_shadowed m reader source [] = false
is_shadowed m reader source (conflict ∷ conflicts) =
    must m source conflict && must m conflict reader || is_shadowed m reader source conflicts

-- The loop over the alternatives of a choice.
unfoldable pub viable_alternatives : List (List Bool) → ℕ → List ℕ → List ℕ → List ℕ
viable_alternatives m reader conflicts [] = []
viable_alternatives m reader conflicts (source ∷ sources) =
    let rest = viable_alternatives m reader conflicts sources in
    if must m reader source || is_shadowed m reader source conflicts then rest else source ∷ rest

-- The loop that looks for `forced_conflict`.
unfoldable pub has_forced_conflict : List (List Bool) → ℕ → List ℕ → Bool
has_forced_conflict m reader [] = false
has_forced_conflict m reader (conflict ∷ conflicts) =
    must m conflict reader || has_forced_conflict m reader conflicts

-- The choice after both eliminations.
unfoldable pub refine_choice :
    List (List Bool) → StmOpacityReadFromChoiceConstraint → StmOpacityReadFromChoiceConstraint
refine_choice m choice = record choice {
  alternatives = viable_alternatives m choice.reader choice.conflicting_writers choice.alternatives;
  initial_allowed =
      choice.initial_allowed
      && not (has_forced_conflict m choice.reader choice.conflicting_writers);
}

-- `!choice.initial_allowed && choice.alternatives.empty()`
abbrev pub has_no_source : Bool → List ℕ → Bool
has_no_source true alternatives = false
has_no_source false [] = true
has_no_source false (_ ∷ _) = false

-- The edge from the only source, where there is one.
abbrev pub promote : StmOpacityOrderingGraph → ℕ → Bool → List ℕ → StmOpacityOrderingGraph × Bool
promote graph reader false (source ∷ []) = add_stm_opacity_ordering_constraint graph source reader
promote graph reader false alternatives = (graph, false)
promote graph reader true alternatives = (graph, false)

abbrev push_choice :
    StmOpacityReadFromChoiceConstraint
    → StmOpacityOrderingGraph × Bool
    → StmOpacityOrderingGraph × Bool
push_choice choice (graph, added) =
    (record graph { read_from_choices = choice ∷ graph.read_from_choices }, added)

-- The loop over the choices that are left; the graph comes back with what they were refined to.
unfoldable pub refine_loop :
    StmOpacityOrderingGraph
    → Bool
    → List StmOpacityReadFromChoiceConstraint
    → StmOpacityOrderingGraph × Bool
refine_loop graph added [] = (record graph { read_from_choices = [] }, added)
refine_loop graph added (choice ∷ choices) =
    let refined = refine_choice graph.must_precede choice in
    let promoted = promote graph refined.reader refined.initial_allowed refined.alternatives in
    elim (has_no_source refined.initial_allowed refined.alternatives) [
      | true ↦ (record graph { inconsistent = true; read_from_choices = refined ∷ choices }, added)
      | false ↦ push_choice refined (refine_loop promoted.0 (added || promoted.1) choices)
    ]

-- The graph after the call, and whether a constraint was added.
unfoldable pub refine_stm_opacity_read_from_choices :
    StmOpacityOrderingGraph → StmOpacityOrderingGraph × Bool
unfolding refine_loop
refine_stm_opacity_read_from_choices graph = refine_loop graph false graph.read_from_choices

-- The `while` loop at the end of `build_stm_opacity_ordering_graph`; `none` belongs to the model only.
unfoldable pub refine_until_closed : ℕ → StmOpacityOrderingGraph → Option StmOpacityOrderingGraph
refine_until_closed zero graph = none
refine_until_closed (suc fuel) graph =
    let refined = refine_stm_opacity_read_from_choices graph in
    elim graph.inconsistent [
      | true ↦ some graph
      | false ↦ elim refined.1 [
        | false ↦ some refined.0
        | true ↦ refine_until_closed fuel (close_stm_opacity_ordering_graph refined.0)
      ]
    ]
