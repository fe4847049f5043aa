-- ===== src/Opacity/Ordering/Tests.antt =====
-- A sample graph.
use lincheck_cpp.Prelude.{
  ℕ, inl, zero, suc, ◌<◌, get_or, ◌≡◌, refl, true, false, [], ◌∷◌, length, arith,
}
use lincheck_cpp.Opacity.Ordering.{
  at, StmOpacityOrderingGraph, add_stm_opacity_ordering_constraint,
  close_stm_opacity_ordering_graph, close_row, close_pivot, close_all, on_cycle,
}
use lincheck_cpp.Opacity.Ordering.Matrix.{IsSquare}
use lincheck_cpp.Opacity.Ordering.Add.{IsExtension, add-IsExtension}
use lincheck_cpp.Opacity.Ordering.Choices.{
  refine_stm_opacity_read_from_choices, refine_until_closed,
}
use lincheck_cpp.Opacity.Ordering.Serial.{IsSerial}
use lincheck_cpp.Opacity.Ordering.Refine.{refine-IsSerial}
use lincheck_cpp.Opacity.Ordering.Settle.{Settled, refine_until_closed_lem}
use lincheck_cpp.Opacity.Ordering.Closure.{IsClosureOf, close-IsClosureOf}

-- 0 before 1 before 2.
abbrev chain : StmOpacityOrderingGraph
chain = record {
  must_precede =
      (false ∷ true ∷ false ∷ []) ∷ (false ∷ false ∷ true ∷ []) ∷ (false ∷ false ∷ false ∷ []) ∷ [];
  constraints = [];
  read_from_choices = [];
  inconsistent = false;
  has_cycle = false;
}

chain-IsSquare : IsSquare 3 chain.must_precede
chain-IsSquare = record { rows = refl; columns = columns }
  where
    columns : (i : ℕ) → i < 3 → length (get_or chain.must_precede i []) ≡ 3
    columns zero l = refl
    columns (suc zero) l = refl
    columns (suc (suc zero)) l = refl
    columns (suc (suc (suc i))) l = absurd (omega arith)

chain_closed :
    (close_stm_opacity_ordering_graph chain).must_precede
    ≡ (false ∷ true ∷ true ∷ []) ∷ (false ∷ false ∷ true ∷ []) ∷ (false ∷ false ∷ false ∷ []) ∷ []
unfolding close_stm_opacity_ordering_graph close_all close_pivot close_row on_cycle
chain_closed = refl

close-IsClosureOf_example : IsClosureOf chain (close_stm_opacity_ordering_graph chain)
close-IsClosureOf_example = close-IsClosureOf chain chain-IsSquare

add-IsExtension_example :
    IsExtension chain
      (add_stm_opacity_ordering_constraint chain 2 0).0
      2
      0
      (add_stm_opacity_ordering_constraint chain 2 0).1
add-IsExtension_example = add-IsExtension chain 2 0 chain-IsSquare

-- 0 before 1, which reads what 0 writes or the initial value.
abbrev pair : StmOpacityOrderingGraph
pair = record {
  must_precede = (false ∷ true ∷ []) ∷ (false ∷ false ∷ []) ∷ [];
  constraints = [];
  read_from_choices =
      record { reader = 1; alternatives = 0 ∷ []; conflicting_writers = []; initial_allowed = true }
      ∷ [];
  inconsistent = false;
  has_cycle = false;
}

pair-IsSquare : IsSquare 2 pair.must_precede
pair-IsSquare = record { rows = refl; columns = columns }
  where
    columns : (i : ℕ) → i < 2 → length (get_or pair.must_precede i []) ≡ 2
    columns zero l = refl
    columns (suc zero) l = refl
    columns (suc (suc i)) l = absurd (omega arith)

pair-IsSerial : IsSerial (λ i. i) pair
pair-IsSerial = record {
  kept = record { square = pair-IsSquare; consistent = refl; keeps = keeps };
  reads =
      (inl (0, record { listed = inl refl; earlier = omega arith; last = λ w i. absurd i }), tt);
}
  where
    keeps : (i j : ℕ) → at pair.must_precede i j ≡ true → i < j
    keeps zero zero e = cc
    keeps zero (suc zero) e = omega arith
    keeps zero (suc (suc j)) e = cc
    keeps (suc zero) zero e = cc
    keeps (suc zero) (suc zero) e = cc
    keeps (suc zero) (suc (suc j)) e = cc
    keeps (suc (suc i)) j e = cc

refine-IsSerial_example : IsSerial (λ i. i) (refine_stm_opacity_read_from_choices pair).0
refine-IsSerial_example = refine-IsSerial (λ i. i) pair pair-IsSerial

refine_until_closed_lem_example : Settled pair (refine_until_closed 5 pair)
refine_until_closed_lem_example = refine_until_closed_lem 5 pair pair-IsSquare (omega arith)
