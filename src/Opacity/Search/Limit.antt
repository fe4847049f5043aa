-- ===== src/Opacity/Search/Limit.antt =====
-- include/lincheck/lincheck.hpp, `search_stm_opacity_committed_order`: its limit on complete orders.
use lincheck_cpp.Prelude.{
  ℕ, ◌≤◌, ◌<◌, ◌≡◌, ◌≢◌, true, false, ◌==◌, ==_iff, List, ◌⊎◌, inl, inr, Bool-cases, arith,
}
use lincheck_cpp.Value.{Payloads}
use lincheck_cpp.Opacity.History.{StmOpacityTransactionAttempt}
use lincheck_cpp.Opacity.Ordering.{StmOpacityOrderingGraph}
use lincheck_cpp.Opacity.Search.{SearchState, at_limit, count_order}

-- The limit of the search, where there is one, is not passed, and it is reported only when reached.
pub record IsWithin (max : ℕ) (s : SearchState) : Type 0 where
  pub bounded : (max ≡ 0) ⊎ (s.committed_orders_explored ≤ max)
  pub reported : s.search_limit_exceeded ≡ true → (max ≢ 0) × (s.committed_orders_explored ≡ max)

module _ {P : Payloads} (committed observers : List (StmOpacityTransactionAttempt P)) (max : ℕ)
    (graph : StmOpacityOrderingGraph) where
  not_limited :
      (s : SearchState)
      → IsWithin max s
      → at_limit committed observers max graph s ≡ false
      → s.search_limit_exceeded ≡ true
      → ⊥
  not_limited s w e x = let (ne, same) = w.reported x in ground arith

  pub count-IsWithin :
      (s : SearchState)
      → IsWithin max s
      → at_limit committed observers max graph s ≡ false
      → IsWithin max (count_order committed observers max graph s)
  count-IsWithin s w e = record {
    bounded = elim w.bounded [
      | inl z ↦ inl z
      | inr l ↦ elim (Bool-cases (max == 0)) [
        | inl z ↦ inl ((==_iff max 0).0 z)
        | inr z ↦ let less : s.committed_orders_explored < max = ground arith in inr (omega arith)
      ]
    ];
    reported = λ x. absurd (not_limited s w e x);
  }

  pub limit-IsWithin :
      (s : SearchState)
      → IsWithin max s
      → at_limit committed observers max graph s ≡ true
      → IsWithin max (record s { search_limit_exceeded = true })
  limit-IsWithin s w e =
      let ne : max ≢ 0 = λ z. ground arith in
      let reached : max ≤ s.committed_orders_explored = ground arith in
      record {
        bounded = w.bounded;
        reported = λ _. (ne, elim w.bounded [ inl z ↦ absurd (ne z) | inr l ↦ omega arith ]);
      }
