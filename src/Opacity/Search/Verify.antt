-- ===== src/Opacity/Search/Verify.antt =====
-- include/lincheck/lincheck.hpp, `verify_stm_opacity`.
use lincheck_cpp.Prelude.{
  ℕ, zero, suc, ◌-◌, ◌*◌, ◌/◌, ◌%◌, ◌^◌, Bool, true, false, Option, none, some, List, [], ◌∷◌, ltb,
  if◌then◌else◌, length, replicate, map,
}
use lincheck_cpp.Value.{Payloads}
use lincheck_cpp.Opacity.History.{
  StmOpacityTransactionOutcome, committed, aborted, live, StmOpacityTransactionAttempt,
  StmOpacityHistory, make_initial_stm_opacity_state,
}
use lincheck_cpp.Opacity.Ordering.{StmOpacityOrderingGraph}
use lincheck_cpp.Opacity.Graph.{build_stm_opacity_ordering_graph}
use lincheck_cpp.Opacity.Search.{
  SearchState, Outcome, found, rejected, transactions_of, search_stm_opacity_committed_order,
}

-- `malformed_history` is the answer of another function.
pub data StmOpacityStatus : Type 0 where
  ok malformed_history violation search_limit_exceeded : StmOpacityStatus

-- The largest `std::size_t`.
abbrev pub max_size : ℕ
max_size = 2 ^ 64 - 1

-- `i` counts up from 2; `rounds` are left.
unfoldable pub factorial_loop : ℕ → ℕ → ℕ → ℕ
factorial_loop zero i result = result
factorial_loop (suc rounds) i result =
    let rest = factorial_loop rounds (suc i) (result * i % 2 ^ 64) in
    if ltb (max_size / i) result then max_size else rest

unfoldable pub saturated_factorial : ℕ → ℕ
unfolding factorial_loop
saturated_factorial value = factorial_loop (value - 1) 2 1

-- Without explanations, samples and the counters of the graph and of prunes.
pub record StmOpacityVerificationResult : Type 0 where
  pub status : StmOpacityStatus
  pub committed_order : List ℕ
  pub committed_transaction_count : ℕ
  pub observer_transaction_count : ℕ
  pub committed_order_search_space_upper_bound : ℕ
  pub committed_order_search_limit : ℕ
  pub committed_orders_explored : ℕ

abbrev pub is_committed : StmOpacityTransactionOutcome → Bool
is_committed committed = true
is_committed aborted = false
is_committed live = false

module _ {P : Payloads} where
  -- The two loops in one: the committed transactions, or the others.
  unfoldable pub select :
      Bool → List (StmOpacityTransactionAttempt P) → List (StmOpacityTransactionAttempt P)
  select true [] = []
  select true (tx ∷ txs) = if is_committed tx.outcome then tx ∷ select true txs else select true txs
  select false [] = []
  select false (tx ∷ txs) =
      if is_committed tx.outcome then select false txs else tx ∷ select false txs

  abbrev pub ids_of : List (StmOpacityTransactionAttempt P) → List ℕ
  ids_of txs = map (λ (tx : StmOpacityTransactionAttempt P). tx.transaction_id) txs

  abbrev pub committed_of : StmOpacityHistory P → List (StmOpacityTransactionAttempt P)
  committed_of history = select true history.transactions

  abbrev pub observers_of : StmOpacityHistory P → List (StmOpacityTransactionAttempt P)
  observers_of history = select false history.transactions

  module _ (history : StmOpacityHistory P) (max_committed_orders : ℕ) where
    abbrev pub result_of : StmOpacityStatus → List ℕ → ℕ → StmOpacityVerificationResult
    result_of status order explored = record {
      status = status;
      committed_order = ids_of (transactions_of (committed_of history) order);
      committed_transaction_count = length (committed_of history);
      observer_transaction_count = length (observers_of history);
      committed_order_search_space_upper_bound =
          saturated_factorial (length (committed_of history));
      committed_order_search_limit = max_committed_orders;
      committed_orders_explored = explored;
    }

    abbrev pub empty_search : SearchState
    empty_search = record {
      failed_prefixes = [];
      committed_orders_explored = 0;
      search_limit_exceeded = false;
    }

    abbrev pub answer_of : Outcome → SearchState → StmOpacityVerificationResult
    answer_of (found order) s = result_of ok order s.committed_orders_explored
    answer_of (rejected c) s =
        result_of (if s.search_limit_exceeded then search_limit_exceeded else violation) []
          s.committed_orders_explored

    abbrev pub search_from : StmOpacityOrderingGraph → Option (Outcome × SearchState)
    search_from graph =
        let initial = make_initial_stm_opacity_state history in
        search_stm_opacity_committed_order (committed_of history) (observers_of history)
          max_committed_orders graph (suc (length (committed_of history)))
          (replicate (length (committed_of history)) false) [] initial (initial ∷ []) empty_search

    abbrev pub verify_with : StmOpacityOrderingGraph → Option StmOpacityVerificationResult
    verify_with graph =
        if graph.inconsistent then some (result_of violation [] 0) else elim (search_from graph) [
          | none ↦ none
          | some (outcome, s) ↦ some (answer_of outcome s)
        ]

    -- `none` belongs to the model only.
    unfoldable pub verify_stm_opacity : Option StmOpacityVerificationResult
    unfolding select saturated_factorial
    verify_stm_opacity = elim (build_stm_opacity_ordering_graph history (committed_of history)) [
      | none ↦ none
      | some graph ↦ verify_with graph
    ]
