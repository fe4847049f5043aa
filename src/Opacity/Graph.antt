-- ===== src/Opacity/Graph.antt =====
-- include/lincheck/lincheck.hpp, `build_stm_opacity_ordering_graph`: the constraints that the
-- real-time order and the reads of the committed transactions give. Samples and counters are left
-- out.
pub mod Edges
pub mod Sources
pub mod Legal
pub mod Loops
pub mod Whole
pub mod Returns
pub mod Kept
pub mod RealTime
mod Tests
use lincheck_cpp.Prelude.{
  ℕ, zero, suc, ◌*◌, Bool, true, false, not, ◌&&◌, ◌||◌, ◌==◌, if◌then◌else◌, Option, none, some,
  List, [], ◌∷◌, ◌++◌, map, length, replicate, list_eq,
}
use lincheck_cpp.Value.{Str, Payloads, Value, value_eq}
use lincheck_cpp.Opacity.History.{
  StmOpacityLocation, StmOpacityAccess, StmOpacityTransactionAttempt, StmOpacityHistory,
  StmOpacityState, find_value, insert_or_assign, stm_opacity_precedes,
}
use lincheck_cpp.Opacity.Reads.{stm_opacity_final_writes}
use lincheck_cpp.Opacity.Ordering.{
  StmOpacityReadFromChoiceConstraint, StmOpacityOrderingGraph, add_stm_opacity_ordering_constraint,
  close_stm_opacity_ordering_graph,
}
use lincheck_cpp.Opacity.Ordering.Choices.{refine_until_closed}
use lincheck_cpp.Opacity.Ordering.Unset.{unset}

-- `must_precede.assign(…)`, all else as it is declared.
abbrev pub empty_graph : ℕ → StmOpacityOrderingGraph
empty_graph n = record {
  must_precede = replicate n (replicate n false);
  constraints = [];
  read_from_choices = [];
  inconsistent = false;
  has_cycle = false;
}

abbrev pub add_edge : StmOpacityOrderingGraph → ℕ → ℕ → StmOpacityOrderingGraph
add_edge graph before after = (add_stm_opacity_ordering_constraint graph before after).0

-- How a loop goes on, or what it returns early.
pub data Build : Type 0 where
  going : StmOpacityOrderingGraph → Build
  returns : StmOpacityOrderingGraph → Build

-- The reader comes before each of the writers.
unfoldable pub before_all : ℕ → List ℕ → StmOpacityOrderingGraph → StmOpacityOrderingGraph
before_all reader [] graph = graph
before_all reader (w ∷ ws) graph = before_all reader ws (add_edge graph reader w)

abbrev pub add_choice :
    ℕ → List ℕ → List ℕ → Bool → StmOpacityOrderingGraph → StmOpacityOrderingGraph
add_choice reader matching conflicting initial graph = record graph {
  read_from_choices =
      graph.read_from_choices
      ++ (record {
        reader = reader;
        alternatives = matching;
        conflicting_writers = conflicting;
        initial_allowed = initial;
      }
          ∷ []);
}

-- The cases of a read: the matching writers, and whether the initial value matches.
abbrev pub constrain : ℕ → List ℕ → Bool → List ℕ → StmOpacityOrderingGraph → Build
constrain reader [] false conflicting graph = returns (record graph { inconsistent = true })
constrain reader [] true conflicting graph = going (before_all reader conflicting graph)
constrain reader (w ∷ []) false conflicting graph = going (add_edge graph w reader)
constrain reader (w ∷ v ∷ ws) false conflicting graph =
    going (add_choice reader (w ∷ v ∷ ws) conflicting false graph)
constrain reader (w ∷ ws) true conflicting graph =
    going (add_choice reader (w ∷ ws) conflicting true graph)

-- What follows the loops, unless they returned.
abbrev pub finish_graph : Build → Option StmOpacityOrderingGraph
finish_graph (returns graph) = some graph
finish_graph (going graph) =
    let closed = close_stm_opacity_ordering_graph graph in
    refine_until_closed (suc (unset closed.must_precede)) closed

module _ {P : Payloads} where
  -- The inner loop over `after`, from index `j` on.
  unfoldable pub real_time_row :
      StmOpacityTransactionAttempt P
      → ℕ
      → ℕ
      → List (StmOpacityTransactionAttempt P)
      → StmOpacityOrderingGraph
      → StmOpacityOrderingGraph
  real_time_row x i j [] graph = graph
  real_time_row x i j (y ∷ ys) graph =
      real_time_row x i (suc j) ys
        (if not (i == j) && stm_opacity_precedes x y then add_edge graph i j else graph)

  -- The loop over `before`, from index `i` on.
  unfoldable pub real_time_edges :
      List (StmOpacityTransactionAttempt P)
      → ℕ
      → List (StmOpacityTransactionAttempt P)
      → StmOpacityOrderingGraph
      → StmOpacityOrderingGraph
  real_time_edges committed i [] graph = graph
  real_time_edges committed i (x ∷ xs) graph =
      real_time_edges committed (suc i) xs (real_time_row x i 0 committed graph)

  -- `history.locations.find`
  unfoldable pub find_location :
      Str → List (Str × StmOpacityLocation P) → Option (StmOpacityLocation P)
  find_location k [] = none
  find_location k ((j, location) ∷ locations) =
      if list_eq j k then some location else find_location k locations

  -- The initial value that a read may have seen.
  abbrev pub initial_of : Option (StmOpacityLocation P) → Option (Value P)
  initial_of none = none
  initial_of (some location) =
      if location.has_initial_value then some location.initial_value else none

  -- The loop over the writers, from index `w` on: those of the value, or those of another value.
  unfoldable pub writers : Bool → StmOpacityAccess P → ℕ → ℕ → List (StmOpacityState P) → List ℕ
  writers matching access reader w [] = []
  writers matching access reader w (state ∷ states) =
      let rest = writers matching access reader (suc w) states in
      if w == reader then rest else elim (find_value access.location_id state) [
        | none ↦ rest
        | some v ↦
            if value_eq v access.value
            then (if matching then w ∷ rest else rest)
            else (if matching then rest else w ∷ rest)
      ]

  module _ (history : StmOpacityHistory P) (final_writes : List (StmOpacityState P)) where
    -- One access that is a read, not of the transaction's own writes.
    unfoldable pub constrain_read : ℕ → StmOpacityAccess P → StmOpacityOrderingGraph → Build
    constrain_read reader access graph =
        elim (initial_of (find_location access.location_id history.locations)) [
          | none ↦ going graph
          | some initial ↦
              constrain reader (writers true access reader 0 final_writes)
                (value_eq initial access.value) (writers false access reader 0 final_writes) graph
        ]

    -- The loop over the accesses of a reader.
    unfoldable pub constrain_accesses :
        ℕ → List (StmOpacityAccess P) → StmOpacityState P → StmOpacityOrderingGraph → Build
    constrain_accesses reader [] local_writes graph = going graph
    constrain_accesses reader (access ∷ accesses) local_writes graph = elim access.write [
      | true ↦
          constrain_accesses reader accesses
            (insert_or_assign access.location_id access.value local_writes) graph
      | false ↦ elim (find_value access.location_id local_writes) [
        | some _ ↦ constrain_accesses reader accesses local_writes graph
        | none ↦ elim (constrain_read reader access graph) [
          | returns graph' ↦ returns graph'
          | going graph' ↦ constrain_accesses reader accesses local_writes graph'
        ]
      ]
    ]

    -- The loop over the readers, from index `reader` on.
    unfoldable pub constrain_readers :
        ℕ → List (StmOpacityTransactionAttempt P) → StmOpacityOrderingGraph → Build
    constrain_readers reader [] graph = going graph
    constrain_readers reader (x ∷ xs) graph = elim (constrain_accesses reader x.accesses [] graph) [
      | returns graph' ↦ returns graph'
      | going graph' ↦ constrain_readers (suc reader) xs graph'
    ]

  -- `none` belongs to the model only.
  unfoldable pub build_stm_opacity_ordering_graph :
      StmOpacityHistory P → List (StmOpacityTransactionAttempt P) → Option StmOpacityOrderingGraph
  unfolding real_time_edges constrain_readers
  build_stm_opacity_ordering_graph history committed =
      let final_writes = map stm_opacity_final_writes committed in
      let start = real_time_edges committed 0 committed (empty_graph (length committed)) in
      finish_graph (constrain_readers history final_writes 0 committed start)
