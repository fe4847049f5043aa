-- ===== src/Opacity/Builder/Sorted.antt =====
-- include/lincheck/lincheck.hpp, `build_stm_opacity_history`: the sort of the attempts.
use lincheck_cpp.Prelude.{◌≡◌, ◌≢◌, sym, false, List, [], ◌∷◌, inl, inr, Bool-cases, arith}
use lincheck_cpp.Value.{Payloads}
use lincheck_cpp.Opacity.History.{StmOpacityTransactionAttempt}
use lincheck_cpp.Opacity.Builder.Build.{begins_before, insert_transaction, sort_transactions}
use lincheck_cpp.Opacity.Builder.Consistent.{attempt_key}

abbrev pub All {ℓ} : {A : Type 0} → (A → Type ℓ) → List A → Type ℓ
All Q [] = Unit
All Q (x ∷ xs) = Q x × All Q xs

module _ {P : Payloads} where
  -- No two attempts have the same thread and transaction id.
  abbrev pub IsDistinct : List (StmOpacityTransactionAttempt P) → Type 0
  IsDistinct [] = Unit
  IsDistinct (tx ∷ txs) = All (λ ty. attempt_key tx ≢ attempt_key ty) txs × IsDistinct txs

  -- No attempt begins before one that is listed earlier.
  abbrev pub IsOrdered : List (StmOpacityTransactionAttempt P) → Type 0
  IsOrdered [] = Unit
  IsOrdered (tx ∷ txs) = All (λ ty. begins_before ty tx ≡ false) txs × IsOrdered txs

  All-insert :
      (Q : StmOpacityTransactionAttempt P → Type 0) (tx : StmOpacityTransactionAttempt P)
      (txs : List (StmOpacityTransactionAttempt P))
      → Q tx
      → All Q txs
      → All Q (insert_transaction tx txs)
  unfolding insert_transaction
  All-insert Q tx [] q h = (q, tt)
  All-insert Q tx (t ∷ ts) q h = elim (Bool-cases (begins_before t tx)) [
    | inl e ↦ rw e (h.0, All-insert Q tx ts q h.1)
    | inr e ↦ rw e (q, h)
  ]

  pub All-sort :
      (Q : StmOpacityTransactionAttempt P → Type 0) (txs : List (StmOpacityTransactionAttempt P))
      → All Q txs
      → All Q (sort_transactions txs)
  unfolding sort_transactions
  All-sort Q [] h = tt
  All-sort Q (tx ∷ txs) h = All-insert Q tx (sort_transactions txs) h.0 (All-sort Q txs h.1)

  insert-IsDistinct :
      (tx : StmOpacityTransactionAttempt P) (txs : List (StmOpacityTransactionAttempt P))
      → All (λ ty. attempt_key tx ≢ attempt_key ty) txs
      → IsDistinct txs
      → IsDistinct (insert_transaction tx txs)
  unfolding insert_transaction
  insert-IsDistinct tx [] h d = (tt, tt)
  insert-IsDistinct tx (t ∷ ts) h d = elim (Bool-cases (begins_before t tx)) [
    | inl e ↦ rw e (
      All-insert (λ ty. attempt_key t ≢ attempt_key ty) tx ts (λ q. h.0 (sym q)) d.0,
      insert-IsDistinct tx ts h.1 d.1,
    )
    | inr e ↦ rw e (h, d)
  ]

  pub sort-IsDistinct :
      (txs : List (StmOpacityTransactionAttempt P))
      → IsDistinct txs
      → IsDistinct (sort_transactions txs)
  unfolding sort_transactions
  sort-IsDistinct [] d = tt
  sort-IsDistinct (tx ∷ txs) d =
      insert-IsDistinct tx (sort_transactions txs)
        (All-sort (λ ty. attempt_key tx ≢ attempt_key ty) txs d.0) (sort-IsDistinct txs d.1)

  not_before_after :
      (t tx : StmOpacityTransactionAttempt P) (ts : List (StmOpacityTransactionAttempt P))
      → begins_before t tx ≡ false
      → All (λ ty. begins_before ty t ≡ false) ts
      → All (λ ty. begins_before ty tx ≡ false) ts
  not_before_after t tx [] e h = tt
  not_before_after t tx (u ∷ us) e h =
      let first : begins_before u t ≡ false = h.0 in (ground arith, not_before_after t tx us e h.1)

  insert-IsOrdered :
      (tx : StmOpacityTransactionAttempt P) (txs : List (StmOpacityTransactionAttempt P))
      → IsOrdered txs
      → IsOrdered (insert_transaction tx txs)
  unfolding insert_transaction
  insert-IsOrdered tx [] h = (tt, tt)
  insert-IsOrdered tx (t ∷ ts) h = elim (Bool-cases (begins_before t tx)) [
    | inl e ↦ rw e (
      All-insert (λ ty. begins_before ty t ≡ false) tx ts (ground arith) h.0,
      insert-IsOrdered tx ts h.1,
    )
    | inr e ↦ rw e ((e, not_before_after t tx ts e h.0), h)
  ]

  pub sort-IsOrdered :
      (txs : List (StmOpacityTransactionAttempt P)) → IsOrdered (sort_transactions txs)
  unfolding sort_transactions
  sort-IsOrdered [] = tt
  sort-IsOrdered (tx ∷ txs) = insert-IsOrdered tx (sort_transactions txs) (sort-IsOrdered txs)
