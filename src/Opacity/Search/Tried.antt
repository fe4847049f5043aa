-- ===== src/Opacity/Search/Tried.antt =====
-- include/lincheck/lincheck.hpp, `search_stm_opacity_committed_order`: a complete order that the
-- observers reject, the loop over the candidates, and the prefix that is remembered after it.
use lincheck_cpp.Prelude.{
  ℕ, ◌≡◌, refl, sym, subst, ap, ◌∙◌, Bool, true, false, not, ◌&&◌, if◌then◌else◌, Option, none,
  some, List, [], ◌∷◌, ◌++◌, inl, inr, Bool-cases, length, length-append, append_nil, member-add,
  list_eq, list_eq_iff, arith,
}
use lincheck_cpp.Value.{Str, Payloads}
use lincheck_cpp.Opacity.History.{StmOpacityTransactionAttempt, StmOpacityHistory, StmOpacityState}
use lincheck_cpp.Opacity.Ordering.{StmOpacityOrderingGraph}
use lincheck_cpp.Opacity.Placement.{verify_stm_opacity_observers}
use lincheck_cpp.Opacity.Placement.Decide.{ObserversCorrect, verify-ObserversCorrect}
use lincheck_cpp.Opacity.Search.{
  SearchState, Outcome, found, rejected, transactions_of, at_limit, count_order, complete_order,
  remember_prefix,
}
use lincheck_cpp.Opacity.Search.Key.{stm_opacity_search_state_key, key-injective}
use lincheck_cpp.Opacity.Search.Exchange.{KeysAreFaithful, HasRealTime, exchange-IsSerialRun}
use lincheck_cpp.Opacity.Search.Rejects.{
  Prefix, IsAccepted, MemoIsRight, Rejects, IsAccepted-IsPlacement,
}

no_rest : (order rest : List ℕ) → length (order ++ rest) ≡ length order → order ++ rest ≡ order
no_rest order [] e = append_nil order
no_rest order (i ∷ rest) e = absurd (omega (arith, length-append order (i ∷ rest)))

module _ {P : Payloads} (history : StmOpacityHistory P)
    (committed observers : List (StmOpacityTransactionAttempt P)) (max : ℕ)
    (graph : StmOpacityOrderingGraph) where
  pub complete_order-Rejects :
      (placed : List Bool) (order : List ℕ) (states : List (StmOpacityState P))
      (state : StmOpacityState P) (s : SearchState)
      → Prefix history committed observers max graph placed order states state
      → length order ≡ length committed
      → MemoIsRight history committed observers max graph s
      → Rejects history committed observers max graph order s
          (complete_order committed observers max graph order states s)
  unfolding complete_order
  complete_order-Rejects placed order states state s h full memo =
      elim (Bool-cases (at_limit committed observers max graph s)) [
        | inl e ↦
            rw (e, complete_order)
              (record { memo = memo; limited = λ _. refl; unaccepted = λ q. cc; dead = λ q. cc })
        | inr e ↦
            rw (e, complete_order)
              (decided (verify_stm_opacity_observers observers txs states)
                (verify-ObserversCorrect txs states observers))
      ]
    where
      txs : List (StmOpacityTransactionAttempt P)
      txs = transactions_of committed order

      decided :
          (o : Option Bool)
          → ObserversCorrect txs states observers o
          → Rejects history committed observers max graph order s (elim o [
            | none ↦ none
            | some accepted ↦ some (
              if accepted then found order else rejected true,
              count_order committed observers max graph s,
            )
          ])
      decided none c = tt
      decided (some true) c = tt
      decided (some false) c = record {
        memo = memo;
        limited = λ q. q;
        unaccepted = λ _ rest serial accepted.
            let whole = no_rest order rest (serial.complete.full ∙ sym full) in
            let accepted' =
              subst (IsAccepted history committed observers max graph) whole accepted in
            c accepted'.prefix (
              IsAccepted-IsPlacement history committed observers max graph order states state
                h.is_prefix.run accepted');
        dead = λ _ q. cc;
      }

  pub remember-IsRejection :
      HasRealTime history committed graph
      → KeysAreFaithful history committed
      → (placed : List Bool) (order : List ℕ) (states : List (StmOpacityState P))
        (state : StmOpacityState P) (s : SearchState) (answer : Outcome × SearchState)
      → Prefix history committed observers max graph placed order states state
      → Rejects history committed observers max graph order s (some answer)
      → Rejects history committed observers max graph order s (
          some (
            remember_prefix committed observers max graph
              (stm_opacity_search_state_key placed state)
              answer))
  remember-IsRejection forced faithful placed order states state s (found o, s') h r = tt
  remember-IsRejection forced faithful placed order states state s (rejected c, s') h r =
      elim (Bool-cases (not c && not s'.search_limit_exceeded)) [
        | inl e ↦
            rw (e, remember_prefix)
              (record {
                memo = λ key' m placed' order' states' state' h' same.
                    elim (Bool-cases (list_eq key key')) [
                      | inl y ↦ λ rest serial.
                          let equal : stm_opacity_search_state_key placed state
                              ≡ stm_opacity_search_state_key placed' state' =
                            (list_eq_iff key key').0 y ∙ sym same in
                          let flags =
                            key-injective placed placed' state state'
                              (h.is_prefix.size ∙ sym h'.is_prefix.size) equal in
                          r.dead (ground (arith, e)) (ground (arith, e)) rest (
                            exchange-IsSerialRun history committed observers max graph forced
                              faithful placed order order' states states' state state' h
                              (subst
                                (λ p.
                                  Prefix history committed observers max graph p order' states'
                                    state')
                                (sym flags) h')
                              (equal ∙ ap (λ p. stm_opacity_search_state_key p state') (sym flags))
                              rest serial)
                      | inr n ↦
                          r.memo key' (ground (arith, m, n, member-add key key' s'.failed_prefixes))
                            placed' order' states' state' h' same
                    ];
                limited = r.limited;
                unaccepted = r.unaccepted;
                dead = r.dead;
              })
        | inr e ↦ rw (e, remember_prefix) r
      ]
    where
      key : Str
      key = stm_opacity_search_state_key placed state
