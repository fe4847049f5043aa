-- ===== src/Opacity/Builder/Attempts.antt =====
-- include/lincheck/lincheck.hpp, `build_stm_opacity_history`: the handlers of events on
-- transactions keep the state consistent.
use lincheck_cpp.Prelude.{
  ℕ, ◌≡◌, refl, sym, ap, ◌∙◌, subst, false, not, none, some, inl, inr, Bool-cases, Option-cases,
  ◌==◌, if◌then◌else◌, list_eq, list_eq_iff, get_elem?, find, member, discard, member-discard,
  arith,
}
use mathlib.Core.Option.{some_inj}
use lincheck_cpp.Value.{Str, Payloads}
use lincheck_cpp.Opacity.Event.{StmEventRecord, StmEventKind}
use lincheck_cpp.Opacity.History.{StmOpacityTransactionAttempt}
use lincheck_cpp.Opacity.Builder.{BuildState, find_tx, require_tx, store_tx}
use lincheck_cpp.Opacity.Builder.Handlers.{
  event_key, attempt_metadata, ended, end_transaction, outcome_of, is_aborted, retry_transaction,
}
use lincheck_cpp.Opacity.Builder.Table.{Gives, Gives-unless, Gives-if}
use lincheck_cpp.Opacity.Builder.Consistent.{
  attempt_key, IsAttempt, IsConsistent, replaced, replaced-IsConsistent, is_live,
}

module _ {P : Payloads} where
  -- `find_tx` finds the attempt of an event's key, and `require_tx` only that.
  pub find_tx-inverts :
      (event : StmEventRecord P) (s : BuildState P) (i : ℕ) (tx : StmOpacityTransactionAttempt P)
      → find_tx event s ≡ some (i, tx)
      → (find (event_key event) s.tx_index_by_id ≡ some i) × (get_elem? s.transactions i ≡ some tx)
  unfolding find_tx
  find_tx-inverts event s i tx h = ground arith

  pub require_tx-inverts :
      (event : StmEventRecord P) (s : BuildState P) (i : ℕ) (tx : StmOpacityTransactionAttempt P)
      → require_tx event s ≡ some (i, tx)
      → find_tx event s ≡ some (i, tx)
  unfolding require_tx
  require_tx-inverts event s i tx h = ground arith

  pub require_tx-key :
      (event : StmEventRecord P) (s : BuildState P) (i : ℕ) (tx : StmOpacityTransactionAttempt P)
      → IsConsistent s
      → require_tx event s ≡ some (i, tx)
      → (get_elem? s.transactions i ≡ some tx) × (attempt_key tx ≡ event_key event)
  require_tx-key event s i tx c h =
      let (of_key, at_i) = find_tx-inverts event s i tx (require_tx-inverts event s i tx h) in
      let (ty, at_i', same) = c.indices (event_key event) i of_key in
      (at_i, ap attempt_key (some_inj.0 (sym at_i ∙ at_i')) ∙ same)

  -- An event without an attempt has a key that the index does not know.
  pub find_tx-none :
      (event : StmEventRecord P) (s : BuildState P)
      → IsConsistent s
      → find_tx event s ≡ none
      → find (event_key event) s.tx_index_by_id ≡ none
  unfolding find_tx
  find_tx-none event s c h = elim (Option-cases (find (event_key event) s.tx_index_by_id)) [
    | inl e ↦ e
    | inr (i, e) ↦
        let (tx, at_i, same) = c.indices (event_key event) i e in ground (arith, e, at_i, h)
  ]

  -- A change of an attempt that leaves it live or ended, as it was.
  pub same_liveness :
      (s : BuildState P) (i : ℕ) (tx : StmOpacityTransactionAttempt P)
      → IsConsistent s
      → get_elem? s.transactions i ≡ some tx
      → (key : Str)
      → member key s.live_transactions
        ≡ (if list_eq (attempt_key tx) key then not tx.has_end else member key s.live_transactions)
  same_liveness s i tx c e key =
      let open_at : member (attempt_key tx) s.live_transactions ≡ not tx.has_end =
        (c.attempts i tx e).is_open in
      ground (arith, open_at, list_eq_iff (attempt_key tx) key)

  pub attempt_metadata-IsConsistent :
      (event : StmEventRecord P) (s : BuildState P)
      → IsConsistent s
      → Gives IsConsistent (attempt_metadata event s)
  unfolding attempt_metadata store_tx
  attempt_metadata-IsConsistent event s c = elim (Option-cases (require_tx event s)) [
    | inl e ↦ rw (e, attempt_metadata) refl
    | inr ((i, tx), e) ↦
        let at_i : get_elem? s.transactions i ≡ some tx = (require_tx-key event s i tx c e).0 in
        let old : IsAttempt s i tx = c.attempts i tx at_i in
        rw (e, attempt_metadata)
          (replaced-IsConsistent s i tx
            (record tx {
              logical_transaction_id = event.logical_transaction_id;
              attempt = event.attempt;
            })
            s.live_transactions c at_i refl old.begun old.numbered old.undecided old.located
            (same_liveness s i tx c at_i))
  ]

  ended-IsConsistent :
      (event : StmEventRecord P) (s : BuildState P) (i : ℕ) (tx : StmOpacityTransactionAttempt P)
      → IsConsistent s
      → require_tx event s ≡ some (i, tx)
      → IsConsistent (replaced s i (ended event tx) (discard (event_key event) s.live_transactions))
  ended-IsConsistent event s i tx c e =
      let (at_i, same) = require_tx-key event s i tx c e in
      let old : IsAttempt s i tx = c.attempts i tx at_i in
      replaced-IsConsistent s i tx (ended event tx) (discard (event_key event) s.live_transactions)
        c at_i refl old.begun old.numbered (ended_undecided event.kind) old.located
        (λ key.
          subst
            (λ k.
              member key (discard k s.live_transactions)
              ≡ (if list_eq (attempt_key tx) key then false else member key s.live_transactions))
            same (member-discard (attempt_key tx) key s.live_transactions))
    where
      ended_undecided : (kind : StmEventKind) → is_live (outcome_of kind) ≡ false
      ended_undecided kind = ground arith

  pub end_transaction-IsConsistent :
      (event : StmEventRecord P) (s : BuildState P)
      → IsConsistent s
      → Gives IsConsistent (end_transaction event s)
  unfolding end_transaction store_tx
  end_transaction-IsConsistent event s c = elim (Option-cases (require_tx event s)) [
    | inl e ↦ rw (e, end_transaction) refl
    | inr ((i, tx), e) ↦
        rw (e, end_transaction)
          (Gives-if IsConsistent (not tx.has_begin) _ _ refl
            (Gives-unless IsConsistent tx.has_end _ _ refl (ended-IsConsistent event s i tx c e)))
  ]

  pub retry_transaction-IsConsistent :
      (event : StmEventRecord P) (s : BuildState P)
      → IsConsistent s
      → Gives IsConsistent (retry_transaction event s)
  unfolding retry_transaction
  retry_transaction-IsConsistent event s c = elim (Bool-cases (event.transaction_id == 0)) [
    | inl z ↦ rw z c
    | inr z ↦ elim (Option-cases (find_tx event s)) [
      | inl e ↦ rw (z, e, retry_transaction) refl
      | inr ((i, tx), e) ↦ elim (Bool-cases (is_aborted tx.outcome)) [
        | inl a ↦ rw (z, e, a, retry_transaction) c
        | inr a ↦ rw (z, e, a, retry_transaction) refl
      ]
    ]
  ]
