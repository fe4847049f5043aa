-- ===== src/Opacity/Builder/Ends.antt =====
-- include/lincheck/lincheck.hpp, `build_stm_opacity_history`: which begins and ends of transactions
-- the loop accepts.
use lincheck_cpp.Prelude.{
  ℕ, ◌≡◌, ◌≢◌, ◌↔◌, refl, sym, ap, ◌∙◌, subst, true, not, none, some, inl, inr, Option-cases,
  get_elem?, get_elem?-set_self, find, member, discard, Result, ok, err, arith,
}
use lincheck_cpp.Value.{Payloads}
use lincheck_cpp.Opacity.Event.{StmEventRecord}
use lincheck_cpp.Opacity.History.{StmOpacityTransactionAttempt}
use lincheck_cpp.Opacity.Builder.{
  BuildState, HistoryError, find_tx, require_tx, store_tx, ended_twice,
}
use lincheck_cpp.Opacity.Builder.Handlers.{event_key, end_transaction, ended}
use lincheck_cpp.Opacity.Builder.Consistent.{IsAttempt, IsConsistent}
use lincheck_cpp.Opacity.Builder.Attempts.{require_tx-key, find_tx-none}

module _ {P : Payloads} where
  abbrev pub Accepts : Result HistoryError (BuildState P) → Type 0
  Accepts r = (t : BuildState P) × (r ≡ ok t)

  -- A live transaction is found.
  live-find_tx :
      (event : StmEventRecord P) (s : BuildState P)
      → IsConsistent s
      → member (event_key event) s.live_transactions ≡ true
      → find_tx event s ≢ none
  live-find_tx event s c live none_found =
      let (i, e) = c.lives (event_key event) live in
      let unknown : find (event_key event) s.tx_index_by_id ≡ none =
        find_tx-none event s c none_found in
      cc

  end_of_live :
      (event : StmEventRecord P) (s : BuildState P) (i : ℕ) (tx : StmOpacityTransactionAttempt P)
      → IsConsistent s
      → require_tx event s ≡ some (i, tx)
      → (tx.has_begin ≡ true) × (member (event_key event) s.live_transactions ≡ not tx.has_end)
  end_of_live event s i tx c e =
      let (at_i, same) = require_tx-key event s i tx c e in
      let old : IsAttempt s i tx = c.attempts i tx at_i in
      (old.begun, subst (λ key. member key s.live_transactions ≡ not tx.has_end) same old.is_open)

  require_tx-numbered :
      (event : StmEventRecord P) (s : BuildState P) (i : ℕ) (tx : StmOpacityTransactionAttempt P)
      → require_tx event s ≡ some (i, tx)
      → event.transaction_id ≢ 0
  unfolding require_tx
  require_tx-numbered event s i tx e z = ground arith

  require_tx-none :
      (event : StmEventRecord P) (s : BuildState P)
      → require_tx event s ≡ none
      → event.transaction_id ≢ 0
      → find_tx event s ≡ none
  unfolding require_tx
  require_tx-none event s e z = ground arith

  -- Where the state is consistent, an end is accepted exactly for a transaction with a number that
  -- is live.
  pub end_transaction_iff :
      (event : StmEventRecord P) (s : BuildState P)
      → IsConsistent s
      → Accepts (end_transaction event s)
        ↔ ((event.transaction_id ≢ 0) × (member (event_key event) s.live_transactions ≡ true))
  unfolding end_transaction
  end_transaction_iff event s c = elim (Option-cases (require_tx event s)) [
    | inl e ↦ (
      λ a. absurd (ground (arith, e, a.1)),
      λ h. absurd (live-find_tx event s c h.1 (require_tx-none event s e h.0)),
    )
    | inr ((i, tx), e) ↦
        let (begins, lives) = end_of_live event s i tx c e in
        (
          λ a. (require_tx-numbered event s i tx e, ground (arith, e, a.1, begins, lives)),
          λ h. (
            record (store_tx i (ended event tx) s) {
              live_transactions = discard (event_key event) s.live_transactions;
            },
            ground (arith, e, h.1, begins, lives),
          ),
        )
  ]

  require_tx-at :
      (event : StmEventRecord P) (s : BuildState P) (i : ℕ) (tx : StmOpacityTransactionAttempt P)
      → event.transaction_id ≢ 0
      → find (event_key event) s.tx_index_by_id ≡ some i
      → get_elem? s.transactions i ≡ some tx
      → require_tx event s ≡ some (i, tx)
  unfolding require_tx find_tx
  require_tx-at event s i tx z f e = ground arith

  abbrev after_end :
      StmEventRecord P → BuildState P → ℕ → StmOpacityTransactionAttempt P → BuildState P
  after_end event s i tx = record (store_tx i (ended event tx) s) {
    live_transactions = discard (event_key event) s.live_transactions;
  }

  end_transaction-ended :
      (event : StmEventRecord P) (s : BuildState P) (i : ℕ) (tx : StmOpacityTransactionAttempt P)
      → require_tx event s ≡ some (i, tx)
      → tx.has_begin ≡ true
      → tx.has_end ≡ true
      → end_transaction event s ≡ err (ended_twice event.event_index)
  unfolding end_transaction
  end_transaction-ended event s i tx e b h = ground arith

  -- Once an end is accepted in a consistent state, a second end of the same transaction is
  -- refused for that reason.
  pub end_transaction_once :
      (event later : StmEventRecord P) (s t : BuildState P)
      → IsConsistent s
      → end_transaction event s ≡ ok t
      → event_key later ≡ event_key event
      → later.transaction_id ≢ 0
      → end_transaction later t ≡ err (ended_twice later.event_index)
  unfolding end_transaction store_tx
  end_transaction_once event later s t c e same z = elim (Option-cases (require_tx event s)) [
    | inl r ↦ absurd (ground (arith, r, e))
    | inr ((i, tx), r) ↦
        let (at_i, of_tx) = require_tx-key event s i tx c r in
        let old : IsAttempt s i tx = c.attempts i tx at_i in
        let result : after_end event s i tx ≡ t = ground (arith, r, e) in
        subst (λ u. end_transaction later u ≡ err (ended_twice later.event_index)) result
          (end_transaction-ended later (after_end event s i tx) i (ended event tx)
            (require_tx-at later (after_end event s i tx) i (ended event tx) z
              (ap (λ key. find key s.tx_index_by_id) (same ∙ sym of_tx) ∙ old.indexed)
              (get_elem?-set_self s.transactions i (ended event tx) at_i))
            old.begun refl)
  ]
