-- ===== src/Opacity/Ordering/Unset.antt =====
-- How many entries of a matrix are not set, and what the loops do to their number.
use lincheck_cpp.Prelude.{
  open_count-set, open_count, ℕ, zero, suc, ◌+◌, ◌≤◌, ◌<◌, ◌≡◌, Bool, true, false, not, ◌||◌, List,
  [], ◌∷◌, inl, inr, Bool-cases, length, get_or, set, range_from, arith,
}
use lincheck_cpp.Opacity.Ordering.{
  StmOpacityOrderingGraph, at, set_at, close_row, close_pivot, close_all, on_cycle,
  close_stm_opacity_ordering_graph,
}

-- The number of entries that are not set.
abbrev pub unset : List (List Bool) → ℕ
unset [] = 0
unset (r ∷ m) = open_count r + unset m

open_count-set_le : (r : List Bool) (i : ℕ) → open_count (set r i true) ≤ open_count r
open_count-set_le [] i = omega arith
open_count-set_le (true ∷ r) zero = omega arith
open_count-set_le (false ∷ r) zero = omega arith
open_count-set_le (true ∷ r) (suc i) = open_count-set_le r i
open_count-set_le (false ∷ r) (suc i) = omega (arith, open_count-set_le r i)

unset-set_at_le : (m : List (List Bool)) (b a : ℕ) → unset (set_at m b a) ≤ unset m
unset-set_at_le [] b a = omega arith
unset-set_at_le (r ∷ m) zero a = omega (arith, open_count-set_le r a)
unset-set_at_le (r ∷ m) (suc b) a = omega (arith, unset-set_at_le m b a)

pub unset-set_at :
    (m : List (List Bool)) (b a : ℕ)
    → b < length m
    → a < length (get_or m b [])
    → at m b a ≡ false
    → suc (unset (set_at m b a)) ≡ unset m
unset-set_at [] b a h l e = absurd (omega arith)
unset-set_at (r ∷ m) zero a h l e = omega (arith, open_count-set r a l e)
unset-set_at (r ∷ m) (suc b) a h l e = omega (arith, unset-set_at m b a (omega arith) l e)

close_row_le :
    (pivot before : ℕ) (afters : List ℕ) (m : List (List Bool))
    → unset (close_row pivot before afters m) ≤ unset m
unfolding close_row
close_row_le pivot before [] m = omega arith
close_row_le pivot before (a ∷ afters) m = elim (Bool-cases (not (at m pivot a) || at m before a)) [
  | inl e ↦ rw e (close_row_le pivot before afters m)
  | inr e ↦ rw e (
      omega
        (arith, close_row_le pivot before afters (set_at m before a), unset-set_at_le m before a))
]

close_pivot_le :
    (count pivot : ℕ) (befores : List ℕ) (m : List (List Bool))
    → unset (close_pivot count pivot befores m) ≤ unset m
unfolding close_pivot
close_pivot_le count pivot [] m = omega arith
close_pivot_le count pivot (b ∷ befores) m = elim (Bool-cases (at m b pivot)) [
  | inl e ↦ rw e (
      omega (
        arith,
        close_pivot_le count pivot befores (close_row pivot b (range_from 0 count) m),
        close_row_le pivot b (range_from 0 count) m,
      ))
  | inr e ↦ rw e (close_pivot_le count pivot befores m)
]

close_all_le :
    (count : ℕ) (pivots : List ℕ) (m : List (List Bool))
    → unset (close_all count pivots m) ≤ unset m
unfolding close_all
close_all_le count [] m = omega arith
close_all_le count (k ∷ pivots) m = omega (
  arith,
  close_all_le count pivots (close_pivot count k (range_from 0 count) m),
  close_pivot_le count k (range_from 0 count) m,
)

pub close_le :
    (graph : StmOpacityOrderingGraph)
    → unset (close_stm_opacity_ordering_graph graph).must_precede ≤ unset graph.must_precede
unfolding close_stm_opacity_ordering_graph
close_le graph = elim (Bool-cases (on_cycle m (range_from 0 (length graph.must_precede)))) [
  | inl e ↦ rw e le
  | inr e ↦ rw e le
]
  where
    m : List (List Bool)
    m =
        close_all (length graph.must_precede) (range_from 0 (length graph.must_precede))
          graph.must_precede

    le : unset m ≤ unset graph.must_precede
    le =
        close_all_le (length graph.must_precede) (range_from 0 (length graph.must_precede))
          graph.must_precede
