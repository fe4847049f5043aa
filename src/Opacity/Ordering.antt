-- ===== src/Opacity/Ordering.antt =====
-- include/lincheck/lincheck.hpp, `StmOpacityOrderingGraph`: which committed transactions have to
-- precede which. Reasons, samples and counters for the report are left out.
pub mod Matrix
pub mod Add
pub mod Pass
pub mod Closure
pub mod Choices
pub mod Serial
pub mod Refine
pub mod Unset
pub mod Settle
mod Tests
use lincheck_cpp.Prelude.{
  ℕ, Bool, true, false, not, ◌&&◌, ◌||◌, ◌==◌, ltb, if◌then◌else◌, List, [], ◌∷◌, ◌++◌, length,
  get_or, set, range_from,
}

pub record StmOpacityOrderingConstraint : Type 0 where
  pub before : ℕ
  pub after : ℕ

pub record StmOpacityReadFromChoiceConstraint : Type 0 where
  pub reader : ℕ
  pub alternatives : List ℕ
  pub conflicting_writers : List ℕ
  pub initial_allowed : Bool

pub record StmOpacityOrderingGraph : Type 0 where
  pub must_precede : List (List Bool)
  pub constraints : List StmOpacityOrderingConstraint
  pub read_from_choices : List StmOpacityReadFromChoiceConstraint
  pub inconsistent : Bool
  pub has_cycle : Bool

-- `must_precede[before][after]`
abbrev pub at : List (List Bool) → ℕ → ℕ → Bool
at m before after = get_or (get_or m before []) after false

-- `must_precede[before][after] = true`
abbrev pub set_at : List (List Bool) → ℕ → ℕ → List (List Bool)
set_at m before after = set m before (set (get_or m before []) after true)

-- The graph after the call, and whether a constraint is new.
unfoldable pub add_stm_opacity_ordering_constraint :
    StmOpacityOrderingGraph → ℕ → ℕ → StmOpacityOrderingGraph × Bool
add_stm_opacity_ordering_constraint graph before after =
    if not (ltb before (length graph.must_precede) && ltb after (length graph.must_precede))
    then (graph, false)
    else if before == after
    then (record graph { inconsistent = true; has_cycle = true }, false)
    else if at graph.must_precede before after
    then (graph, false)
    else (
      record graph {
        must_precede = set_at graph.must_precede before after;
        constraints = graph.constraints ++ (record { before = before; after = after } ∷ []);
      },
      true,
    )

-- The innermost loop, over `after`.
unfoldable pub close_row : ℕ → ℕ → List ℕ → List (List Bool) → List (List Bool)
close_row pivot before [] m = m
close_row pivot before (after ∷ afters) m =
    close_row pivot before afters
      (if not (at m pivot after) || at m before after then m else set_at m before after)

-- The loop over `before`.
unfoldable pub close_pivot : ℕ → ℕ → List ℕ → List (List Bool) → List (List Bool)
close_pivot count pivot [] m = m
close_pivot count pivot (before ∷ befores) m =
    close_pivot count pivot befores
      (if at m before pivot then close_row pivot before (range_from 0 count) m else m)

-- The loop over `pivot`.
unfoldable pub close_all : ℕ → List ℕ → List (List Bool) → List (List Bool)
close_all count [] m = m
close_all count (pivot ∷ pivots) m =
    close_all count pivots (close_pivot count pivot (range_from 0 count) m)

-- The second loop: whether some transaction has to precede itself.
unfoldable pub on_cycle : List (List Bool) → List ℕ → Bool
on_cycle m [] = false
on_cycle m (i ∷ is) = if at m i i then true else on_cycle m is

unfoldable pub close_stm_opacity_ordering_graph : StmOpacityOrderingGraph → StmOpacityOrderingGraph
close_stm_opacity_ordering_graph graph =
    let count = length graph.must_precede in
    let m = close_all count (range_from 0 count) graph.must_precede in
    if on_cycle m (range_from 0 count)
    then record graph { must_precede = m; inconsistent = true; has_cycle = true }
    else record graph { must_precede = m }
