-- ===== src/Opacity/Builder/Begins.antt =====
-- include/lincheck/lincheck.hpp, `build_stm_opacity_history`: the beginning of a transaction.
use lincheck_cpp.Prelude.{
  ℕ, ◌≡◌, refl, sym, subst, true, false, none, some, [], ◌∷◌, ◌++◌, inl, inr, Bool-cases,
  Option-cases, ◌==◌, if◌then◌else◌, list_eq, list_eq_iff, length, get_elem?, find, put, find-put,
  member, add, member-add, arith, get_elem?-snoc, get_elem?-append, get_elem?-snoc_last,
}
use lincheck_cpp.Value.{Str, Payloads}
use lincheck_cpp.Opacity.Event.{StmEventRecord}
use lincheck_cpp.Opacity.History.{StmOpacityTransactionAttempt}
use lincheck_cpp.Opacity.Builder.{BuildState, find_tx}
use lincheck_cpp.Opacity.Builder.Handlers.{event_key, begun, begin_transaction}
use lincheck_cpp.Opacity.Builder.Table.{Gives}
use lincheck_cpp.Opacity.Builder.Consistent.{
  attempt_key, IsAttempt, IsIndexOf, IsIndexed, IsConsistent,
}
use lincheck_cpp.Opacity.Builder.Attempts.{find_tx-none}

module _ {P : Payloads} where
  -- The state after a begin.
  abbrev with_begun : StmEventRecord P → BuildState P → BuildState P
  with_begun event s = record s {
    transactions = s.transactions ++ begun event ∷ [];
    tx_index_by_id = put (event_key event) (length s.transactions) s.tx_index_by_id;
    live_transactions = add (event_key event) s.live_transactions;
  }

  module _ (event : StmEventRecord P) (s : BuildState P) (c : IsConsistent s)
      (numbers : (event.transaction_id == 0) ≡ false)
      (unknown : find (event_key event) s.tx_index_by_id ≡ none) where
    old-IsAttempt :
        (i : ℕ) (tx : StmOpacityTransactionAttempt P)
        → IsAttempt s i tx
        → IsAttempt (with_begun event s) i tx
    old-IsAttempt i tx old = record {
      indexed = ground (
        arith,
        unknown,
        old.indexed,
        find-put (event_key event) (attempt_key tx) (length s.transactions) s.tx_index_by_id,
        list_eq_iff (event_key event) (attempt_key tx),
      );
      begun = old.begun;
      numbered = old.numbered;
      is_open = ground (
        arith,
        unknown,
        old.indexed,
        old.is_open,
        member-add (event_key event) (attempt_key tx) s.live_transactions,
        list_eq_iff (event_key event) (attempt_key tx),
      );
      undecided = old.undecided;
      located = old.located;
    }

    begun-IsAttempt : IsAttempt (with_begun event s) (length s.transactions) (begun event)
    begun-IsAttempt = record {
      indexed = ground (
        arith,
        find-put (event_key event) (event_key event) (length s.transactions) s.tx_index_by_id,
        list_eq_iff (event_key event) (event_key event),
      );
      begun = refl;
      numbered = numbers;
      is_open = ground (
        arith,
        member-add (event_key event) (event_key event) s.live_transactions,
        list_eq_iff (event_key event) (event_key event),
      );
      undecided = refl;
      located = tt;
    }

    begun-attempts :
        (i : ℕ) (tx : StmOpacityTransactionAttempt P)
        → get_elem? (s.transactions ++ begun event ∷ []) i ≡ some tx
        → IsAttempt (with_begun event s) i tx
    begun-attempts i tx e = elim (get_elem?-snoc s.transactions (begun event) i tx e) [
      | inl h ↦ old-IsAttempt i tx (c.attempts i tx h)
      | inr h ↦
          subst (λ k. IsAttempt (with_begun event s) k tx) (sym h.0)
            (subst (IsAttempt (with_begun event s) (length s.transactions)) (sym h.1)
              begun-IsAttempt)
    ]

    begun-indices :
        (key : Str) (i : ℕ)
        → find key (with_begun event s).tx_index_by_id ≡ some i
        → IsIndexOf (with_begun event s) key i
    begun-indices key i e = elim (Bool-cases (list_eq (event_key event) key)) [
      | inl same ↦
          let last : length s.transactions ≡ i = ground (
            arith,
            same,
            e,
            find-put (event_key event) key (length s.transactions) s.tx_index_by_id,
          ) in
          (
            begun event,
            subst (λ k. get_elem? (s.transactions ++ begun event ∷ []) k ≡ some (begun event)) last
                (get_elem?-snoc_last s.transactions (begun event)),
            (list_eq_iff (event_key event) key).0 same,
          )
      | inr different ↦
          let (tx, at_i, of_key) = c.indices key i (
            ground (
              arith,
              different,
              e,
              find-put (event_key event) key (length s.transactions) s.tx_index_by_id,
            )) in
          (tx, get_elem?-append s.transactions (begun event ∷ []) i at_i, of_key)
    ]

    begun-lives :
        (key : Str)
        → member key (add (event_key event) s.live_transactions) ≡ true
        → IsIndexed (with_begun event s) key
    begun-lives key e = elim (Bool-cases (list_eq (event_key event) key)) [
      | inl same ↦ (length s.transactions, ground (arith, same, found key))
      | inr different ↦
          let (i, at_key) =
            c.lives key (
              ground (arith, different, e, member-add (event_key event) key s.live_transactions)) in
          (i, ground (arith, different, at_key, found key))
    ]
      where
        found :
            (key : Str)
            → find key (with_begun event s).tx_index_by_id ≡ (
                if list_eq (event_key event) key
                then some (length s.transactions)
                else find key s.tx_index_by_id)
        found key = find-put (event_key event) key (length s.transactions) s.tx_index_by_id

    with_begun-IsConsistent : IsConsistent (with_begun event s)
    with_begun-IsConsistent = record {
      table = record {
        named = c.table.named;
        by_address = c.table.by_address;
        by_handle = c.table.by_handle;
      };
      attempts = begun-attempts;
      indices = begun-indices;
      lives = begun-lives;
    }

  pub begin_transaction-IsConsistent :
      (event : StmEventRecord P) (s : BuildState P)
      → IsConsistent s
      → Gives IsConsistent (begin_transaction event s)
  unfolding begin_transaction
  begin_transaction-IsConsistent event s c = elim (Bool-cases (event.transaction_id == 0)) [
    | inl z ↦ rw z refl
    | inr z ↦ elim (Option-cases (find_tx event s)) [
      | inr (found, e) ↦ rw (z, e, begin_transaction) refl
      | inl e ↦
          rw (z, e, begin_transaction)
            (with_begun-IsConsistent event s c z (find_tx-none event s c e))
    ]
  ]
