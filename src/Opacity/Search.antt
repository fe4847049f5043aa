-- ===== src/Opacity/Search.antt =====
-- include/lincheck/lincheck.hpp, `search_stm_opacity_committed_order` and `verify_stm_opacity`: the
-- search for a serial order of the committed transactions. A transaction is its index among the
-- committed ones, for the pointer to it. Explanations and the counters of prunes are left out.
pub mod Key
pub mod Predecessors
pub mod Verify
pub mod Prefix
pub mod Limit
pub mod Sound
pub mod Opaque
pub mod Serial
pub mod Writer
pub mod Places
pub mod Initial
pub mod Legal
pub mod Exchange
pub mod Rejects
pub mod Tried
pub mod Loop
pub mod Exhausts
pub mod Entries
pub mod Locations
pub mod Keys
pub mod Ready
pub mod Decides
pub mod Factorial
mod Tests
use lincheck_cpp.Prelude.{
  ℕ, zero, suc, ◌+◌, ◌%◌, ◌^◌, Bool, true, false, not, ◌&&◌, ◌||◌, ◌==◌, leb, if◌then◌else◌, Option,
  none, some, List, [], ◌∷◌, ◌++◌, length, get_elem?, get_or, set, range_from, member, add,
}
use lincheck_cpp.Value.{Str, Payloads}
use lincheck_cpp.Opacity.History.{StmOpacityTransactionAttempt, StmOpacityState}
use lincheck_cpp.Opacity.Reads.{validate_stm_opacity_transaction_reads}
use lincheck_cpp.Opacity.Placement.{verify_stm_opacity_observers}
use lincheck_cpp.Opacity.Ordering.{StmOpacityOrderingGraph}
use lincheck_cpp.Opacity.Search.Key.{stm_opacity_search_state_key}
use lincheck_cpp.Opacity.Search.Predecessors.{stm_opacity_committed_predecessors_placed}

-- The memo, and what the search writes into the result.
pub record SearchState : Type 0 where
  pub failed_prefixes : List Str
  pub committed_orders_explored : ℕ
  pub search_limit_exceeded : Bool

-- The search has found an order, or has not, with whether it has seen a complete one.
pub data Outcome : Type 0 where
  found : List ℕ → Outcome
  rejected : Bool → Outcome

module _ {P : Payloads} (committed : List (StmOpacityTransactionAttempt P)) where
  -- The transactions of an order.
  abbrev pub transactions_of : List ℕ → List (StmOpacityTransactionAttempt P)
  transactions_of [] = []
  transactions_of (i ∷ order) = elim (get_elem? committed i) [
    | some tx ↦ tx ∷ transactions_of order
    | none ↦ transactions_of order
  ]

module _ {P : Payloads} (committed observers : List (StmOpacityTransactionAttempt P))
    (max_committed_orders : ℕ) (graph : StmOpacityOrderingGraph) where
  abbrev pub at_limit : SearchState → Bool
  at_limit s =
      not (max_committed_orders == 0) && leb max_committed_orders s.committed_orders_explored

  -- `std::size_t` keeps its wrap-around.
  abbrev pub count_order : SearchState → SearchState
  count_order s = record s {
    committed_orders_explored = (s.committed_orders_explored + 1) % 2 ^ 64;
  }

  -- An order of all the transactions: the observers decide, unless the limit is reached.
  unfoldable pub complete_order :
      List ℕ → List (StmOpacityState P) → SearchState → Option (Outcome × SearchState)
  complete_order order prefix_states s =
      if at_limit s
      then some (rejected false, record s { search_limit_exceeded = true })
      else elim (verify_stm_opacity_observers observers (transactions_of committed order)
          prefix_states) [
            | none ↦ none
            | some accepted ↦ some (if accepted then found order else rejected true, count_order s)
          ]

  -- What the search is on the longer prefixes.
  abbrev pub Child : Type 0
  Child =
      List Bool
      → List ℕ
      → StmOpacityState P
      → List (StmOpacityState P)
      → SearchState
      → Option (Outcome × SearchState)

  -- The state that a candidate leads to, if it may come next.
  unfoldable pub next_state :
      List Bool → List ℕ → StmOpacityState P → ℕ → Option (StmOpacityState P)
  next_state placed order state i =
      if get_or placed i true
        || not (stm_opacity_committed_predecessors_placed graph placed order i)
      then none
      else elim (get_elem? committed i) [
        | none ↦ none
        | some tx ↦ validate_stm_opacity_transaction_reads tx state
      ]

  -- The loop over the candidates.
  unfoldable pub try_candidates :
      Child
      → List Bool
      → List ℕ
      → StmOpacityState P
      → List (StmOpacityState P)
      → List ℕ
      → Bool
      → SearchState
      → Option (Outcome × SearchState)
  try_candidates child placed order state prefix_states [] completed s =
      some (rejected completed, s)
  try_candidates child placed order state prefix_states (i ∷ is) completed s =
      elim (next_state placed order state i) [
        | none ↦ try_candidates child placed order state prefix_states is completed s
        | some next ↦
            elim (child (set placed i true) (order ++ i ∷ []) next (prefix_states ++ next ∷ []) s) [
              | none ↦ none
              | some (outcome, s') ↦ elim outcome [
                | found longer ↦ some (found longer, s')
                | rejected c ↦
                    try_candidates child placed order state prefix_states is (completed || c) s'
              ]
            ]
      ]

  -- After the loop, a prefix that no complete order extends is remembered.
  abbrev pub remember_prefix : Str → Outcome × SearchState → Outcome × SearchState
  remember_prefix key (found order, s) = (found order, s)
  remember_prefix key (rejected completed, s) =
      if not completed && not s.search_limit_exceeded
      then (rejected completed, record s { failed_prefixes = add key s.failed_prefixes })
      else (rejected completed, s)

  unfoldable pub search_prefix :
      Child
      → List Bool
      → List ℕ
      → StmOpacityState P
      → List (StmOpacityState P)
      → SearchState
      → Option (Outcome × SearchState)
  search_prefix child placed order state prefix_states s =
      let key = stm_opacity_search_state_key placed state in
      if member key s.failed_prefixes
      then some (rejected false, s)
      else elim (try_candidates child placed order state prefix_states
          (range_from 0 (length committed)) false s) [
            | none ↦ none
            | some answer ↦ some (remember_prefix key answer)
          ]

  -- `none` belongs to the model only.
  unfoldable pub search_stm_opacity_committed_order : ℕ → Child
  search_stm_opacity_committed_order zero placed order state prefix_states s = none
  search_stm_opacity_committed_order (suc fuel) placed order state prefix_states s =
      if length order == length committed
      then complete_order order prefix_states s
      else search_prefix (search_stm_opacity_committed_order fuel) placed order state prefix_states
          s
