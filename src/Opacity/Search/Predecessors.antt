-- ===== src/Opacity/Search/Predecessors.antt =====
-- include/lincheck/lincheck.hpp, `stm_opacity_committed_predecessors_placed`: whether the ordering
-- graph lets a transaction come next.
use lincheck_cpp.Prelude.{
  ℕ, Bool, true, false, not, ◌&&◌, ◌||◌, ◌==◌, if◌then◌else◌, List, [], ◌∷◌, length, get_or,
  range_from,
}
use lincheck_cpp.Opacity.Ordering.{StmOpacityReadFromChoiceConstraint, StmOpacityOrderingGraph, at}

-- The first loop, over the transactions that may have to come first.
unfoldable pub predecessors_loop : List (List Bool) → List Bool → ℕ → List ℕ → Bool
predecessors_loop m placed candidate [] = true
predecessors_loop m placed candidate (i ∷ is) =
    ((i == candidate || get_or placed i false) || not (at m i candidate))
    && predecessors_loop m placed candidate is

-- `contains_index`
unfoldable pub contains_index : List ℕ → ℕ → Bool
contains_index [] value = false
contains_index (v ∷ values) value = v == value || contains_index values value

unfoldable pub any_placed : List Bool → List ℕ → Bool
any_placed placed [] = false
any_placed placed (source ∷ sources) = get_or placed source false || any_placed placed sources

-- Whether the latest writer of the order, if there is one, writes the value that was read.
unfoldable pub latest_matches : List ℕ → List ℕ → List ℕ → Bool → Bool
latest_matches alternatives conflicting [] latest = latest
latest_matches alternatives conflicting (i ∷ order) latest =
    latest_matches alternatives conflicting order (
      if contains_index alternatives i
      then true
      else if contains_index conflicting i
      then false
      else latest)

unfoldable pub choice_ready : List Bool → List ℕ → StmOpacityReadFromChoiceConstraint → Bool
choice_ready placed order choice =
    (choice.initial_allowed || any_placed placed choice.alternatives)
    && latest_matches choice.alternatives choice.conflicting_writers order true

-- The second loop, over the ambiguous reads of the candidate.
unfoldable pub choices_loop :
    List Bool → List ℕ → ℕ → List StmOpacityReadFromChoiceConstraint → Bool
choices_loop placed order candidate [] = true
choices_loop placed order candidate (choice ∷ choices) =
    (not (choice.reader == candidate) || choice_ready placed order choice)
    && choices_loop placed order candidate choices

unfoldable pub stm_opacity_committed_predecessors_placed :
    StmOpacityOrderingGraph → List Bool → List ℕ → ℕ → Bool
unfolding contains_index any_placed latest_matches choice_ready choices_loop
stm_opacity_committed_predecessors_placed graph placed order candidate =
    predecessors_loop graph.must_precede placed candidate (range_from 0 (length graph.must_precede))
    && choices_loop placed order candidate graph.read_from_choices
