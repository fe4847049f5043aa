-- ===== src/Opacity/Search/Sound.antt =====
-- include/lincheck/lincheck.hpp, `search_stm_opacity_committed_order`: its fuel, its limit, and the
-- orders that it finds.
use lincheck_cpp.Prelude.{
  ℕ, zero, suc, ◌+◌, ◌≤◌, ◌<◌, ◌≡◌, ◌≢◌, refl, Bool, true, false, not, ◌&&◌, ◌||◌, ◌==◌, ==_iff,
  if◌then◌else◌, Option, none, some, List, [], ◌∷◌, ◌++◌, inl, inr, Bool-cases, length,
  length-append, set, range_from, member, arith,
}
use lincheck_cpp.Value.{Payloads}
use lincheck_cpp.Opacity.History.{StmOpacityTransactionAttempt, StmOpacityState}
use lincheck_cpp.Opacity.Ordering.{StmOpacityOrderingGraph}
use lincheck_cpp.Opacity.Placement.{verify_stm_opacity_observers}
use lincheck_cpp.Opacity.Placement.Decide.{IsPlacement, ObserversCorrect, verify-ObserversCorrect}
use lincheck_cpp.Opacity.Search.{
  SearchState, Outcome, found, rejected, transactions_of, at_limit, count_order, complete_order,
  Child, next_state, try_candidates, remember_prefix, search_prefix,
  search_stm_opacity_committed_order,
}
use lincheck_cpp.Opacity.Search.Key.{stm_opacity_search_state_key}
use lincheck_cpp.Opacity.Search.Limit.{IsWithin, count-IsWithin, limit-IsWithin}
use lincheck_cpp.Opacity.Search.Prefix.{IsPrefix, next_state-IsCandidate, longer-IsPrefix}

module _ {P : Payloads} (committed observers : List (StmOpacityTransactionAttempt P)) (max : ℕ)
    (graph : StmOpacityOrderingGraph) (initial : StmOpacityState P) where
  -- A complete order that the observers agree with.
  pub record IsFound (order : List ℕ) : Type 0 where
    pub placed : List Bool
    pub states : List (StmOpacityState P)
    pub state : StmOpacityState P
    pub prefix : ℕ → ℕ
    pub complete : length order ≡ length committed
    pub is_prefix : IsPrefix committed observers max graph initial placed order states state
    pub placement : IsPlacement (transactions_of committed order) states observers prefix

  -- The search returns within its fuel and its limit, and what it finds is such an order.
  abbrev pub IsAnswer : Option (Outcome × SearchState) → Type 0
  IsAnswer none = ⊥
  IsAnswer (some (found order, s)) = IsWithin max s × IsFound order
  IsAnswer (some (rejected c, s)) = IsWithin max s × Unit {0}

  complete_order-IsAnswer :
      (placed : List Bool) (order : List ℕ) (states : List (StmOpacityState P))
      (state : StmOpacityState P) (s : SearchState)
      → IsPrefix committed observers max graph initial placed order states state
      → length order ≡ length committed
      → IsWithin max s
      → IsAnswer (complete_order committed observers max graph order states s)
  unfolding complete_order
  complete_order-IsAnswer placed order states state s h full w =
      elim (Bool-cases (at_limit committed observers max graph s)) [
        | inl e ↦ rw (e, complete_order) (limit-IsWithin committed observers max graph s w e, tt)
        | inr e ↦
            rw (e, complete_order)
              (decided (verify_stm_opacity_observers observers txs states)
                (verify-ObserversCorrect txs states observers)
                (count-IsWithin committed observers max graph s w e))
      ]
    where
      txs : List (StmOpacityTransactionAttempt P)
      txs = transactions_of committed order

      decided :
          (o : Option Bool)
          → ObserversCorrect txs states observers o
          → IsWithin max (count_order committed observers max graph s)
          → IsAnswer (elim o [
            | none ↦ none
            | some accepted ↦ some (
              if accepted then found order else rejected true,
              count_order committed observers max graph s,
            )
          ])
      decided none c v = c
      decided (some true) (prefix, p) v = (
        v,
        record {
          placed = placed;
          states = states;
          state = state;
          prefix = prefix;
          complete = full;
          is_prefix = h;
          placement = p;
        },
      )
      decided (some false) c v = (v, tt)

  remember-IsAnswer :
      (key : List ℕ) (answer : Outcome × SearchState)
      → IsAnswer (some answer)
      → IsAnswer (some (remember_prefix committed observers max graph key answer))
  remember-IsAnswer key (found order, s) h = h
  remember-IsAnswer key (rejected c, s) h =
      elim (Bool-cases (not c && not s.search_limit_exceeded)) [
        | inl e ↦
            rw (e, remember_prefix) (record { bounded = h.0.bounded; reported = h.0.reported }, tt)
        | inr e ↦ rw (e, remember_prefix) h
      ]

  module _ (child : Child committed observers max graph) (placed : List Bool) (order : List ℕ)
      (states : List (StmOpacityState P)) (state : StmOpacityState P)
      (longer : (i : ℕ) (next : StmOpacityState P) (s : SearchState)
        → next_state committed observers max graph placed order state i ≡ some next
        → IsWithin max s
        → IsAnswer (child (set placed i true) (order ++ i ∷ []) next (states ++ next ∷ []) s)) where
    try_candidates-IsAnswer :
        (is : List ℕ) (completed : Bool) (s : SearchState)
        → IsWithin max s
        → IsAnswer (
            try_candidates committed observers max graph child placed order state states is
              completed s)
    unfolding try_candidates
    try_candidates-IsAnswer [] completed s w = (w, tt)
    try_candidates-IsAnswer (i ∷ is) completed s w =
        tried (next_state committed observers max graph placed order state i) refl
          (try_candidates-IsAnswer is)
      where
        Rest : Type 0
        Rest =
            (c : Bool) (t : SearchState)
            → IsWithin max t
            → IsAnswer (
                try_candidates committed observers max graph child placed order state states is c t)

        after :
            (o : Option (Outcome × SearchState))
            → IsAnswer o
            → Rest
            → IsAnswer (elim o [
              | none ↦ none
              | some (outcome, s') ↦ elim outcome [
                | found order' ↦ some (found order', s')
                | rejected c ↦
                    try_candidates committed observers max graph child placed order state states is
                      (completed || c)
                      s'
              ]
            ])
        after none h rest = h
        after (some (found order', s')) h rest = h
        after (some (rejected c, s')) h rest = rest (completed || c) s' h.0

        tried :
            (o : Option (StmOpacityState P))
            → next_state committed observers max graph placed order state i ≡ o
            → Rest
            → IsAnswer (elim o [
              | none ↦
                  try_candidates committed observers max graph child placed order state states is
                    completed s
              | some next ↦
                  elim (child (set placed i true) (order ++ i ∷ []) next (states ++ next ∷ []) s) [
                    | none ↦ none
                    | some (outcome, s') ↦ elim outcome [
                      | found order' ↦ some (found order', s')
                      | rejected c ↦
                          try_candidates committed observers max graph child placed order state
                            states is
                            (completed || c)
                            s'
                    ]
                  ]
            ])
        tried none e rest = rest completed s w
        tried (some next) e rest = after _ (longer i next s e w) rest

    search_prefix-IsAnswer :
        (s : SearchState)
        → IsWithin max s
        → IsAnswer (search_prefix committed observers max graph child placed order state states s)
    unfolding search_prefix
    search_prefix-IsAnswer s w = elim (Bool-cases (member key s.failed_prefixes)) [
      | inl e ↦ rw (e, search_prefix) (w, tt)
      | inr e ↦
          rw (e, search_prefix)
            (finished _ (try_candidates-IsAnswer (range_from 0 (length committed)) false s w))
    ]
      where
        key : List ℕ
        key = stm_opacity_search_state_key placed state

        finished :
            (o : Option (Outcome × SearchState))
            → IsAnswer o
            → IsAnswer (elim o [
              | none ↦ none
              | some answer ↦ some (remember_prefix committed observers max graph key answer)
            ])
        finished none h = h
        finished (some answer) h = remember-IsAnswer key answer h

  -- From a prefix of an order, with more fuel than transactions are missing, the search returns. It
  -- does not pass its limit, where there is one, and reports it only when it is reached; an order
  -- that it finds is complete, keeps the graph's constraints, is a run of legal reads from the
  -- initial state, and the observers can be placed in it.
  pub search_order-IsAnswer :
      (fuel : ℕ) (placed : List Bool) (order : List ℕ) (state : StmOpacityState P)
      (states : List (StmOpacityState P)) (s : SearchState)
      → IsPrefix committed observers max graph initial placed order states state
      → length order ≤ length committed
      → length committed < fuel + length order
      → IsWithin max s
      → IsAnswer (
          search_stm_opacity_committed_order committed observers max graph fuel placed order state
            states s)
  unfolding search_stm_opacity_committed_order
  search_order-IsAnswer zero placed order state states s h le l w = absurd (omega arith)
  search_order-IsAnswer (suc fuel) placed order state states s h le l w =
      elim (Bool-cases (length order == length committed)) [
        | inl e ↦
            rw (e, search_stm_opacity_committed_order)
              (complete_order-IsAnswer placed order states state s h
                ((==_iff (length order) (length committed)).0 e) w)
        | inr e ↦
            rw (e, search_stm_opacity_committed_order)
              (search_prefix-IsAnswer
                (search_stm_opacity_committed_order committed observers max graph fuel) placed order
                states state
                (λ i next t f v.
                  let size = length-append order (i ∷ []) in
                  let open_order : length order ≢ length committed =
                    λ same. ground (arith, e, same) in
                  search_order-IsAnswer fuel (set placed i true) (order ++ i ∷ []) next
                    (states ++ next ∷ []) t
                    (longer-IsPrefix committed observers max graph initial placed order states state
                      next i h
                      (next_state-IsCandidate committed observers max graph initial placed order
                        state next i f))
                    (omega arith) (omega arith) v)
                s w)
      ]
