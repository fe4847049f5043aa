-- ===== src/Opacity/Builder/WellFormed.antt =====
-- include/lincheck/lincheck.hpp, `build_stm_opacity_history`: the histories that it returns.
use lincheck_cpp.Prelude.{
  ℕ, suc, ◌+◌, ◌≤◌, ◌≡◌, ◌≢◌, refl, sym, ap, ◌∙◌, subst, Bool, true, false, not, some, List, [],
  ◌∷◌, inl, inr, Bool-cases, ◌==◌, get_elem?, find, ok, arith, member,
}
use mathlib.Core.Option.{some_inj}
use lincheck_cpp.Value.{Str, Payloads}
use lincheck_cpp.Opacity.Event.{StmEventRecord}
use lincheck_cpp.Opacity.History.{
  StmOpacityLocation, StmOpacityAccess, StmOpacityTransactionAttempt, StmOpacityHistory,
  StmLifetimePolicy,
}
use lincheck_cpp.Opacity.Builder.{BuildState, empty_state}
use lincheck_cpp.Opacity.Builder.Handlers.{handle_event}
use lincheck_cpp.Opacity.Builder.Build.{
  is_strict, handle_events, is_initialised, check_accesses, check_transactions, history_of,
  finish_history, build_stm_opacity_history,
}
use lincheck_cpp.Opacity.Builder.Table.{Gives, Gives-bind, Gives-weaken, Gives-then}
use lincheck_cpp.Opacity.Builder.Consistent.{attempt_key, IsAttempt, IsConsistent, is_live}
use lincheck_cpp.Opacity.Builder.Sorted.{
  All, IsDistinct, IsOrdered, All-sort, sort-IsDistinct, sort-IsOrdered,
}
use lincheck_cpp.Opacity.Builder.Events.{handle_event-IsConsistent}

module _ {P : Payloads} where
  -- An attempt that has begun under a number, has an outcome exactly if it has ended, and accesses
  -- only locations with an initial value.
  pub record IsComplete (locations : List (Str × StmOpacityLocation P))
      (tx : StmOpacityTransactionAttempt P) : Type 0 where
    pub begun : tx.has_begin ≡ true
    pub numbered : (tx.transaction_id == 0) ≡ false
    pub undecided : is_live tx.outcome ≡ not tx.has_end
    pub initialised : All (λ access. is_initialised locations access.location_id ≡ true) tx.accesses

  pub record IsWellFormed (history : StmOpacityHistory P) : Type 0 where
    pub distinct : IsDistinct history.transactions
    pub ordered : IsOrdered history.transactions
    pub complete : All (IsComplete history.locations) history.transactions

  pub handle_events-IsConsistent :
      (strict : Bool) (events : List (StmEventRecord P)) (s : BuildState P)
      → IsConsistent s
      → Gives IsConsistent (handle_events strict events s)
  unfolding handle_events
  handle_events-IsConsistent strict [] s c = c
  handle_events-IsConsistent strict (event ∷ events) s c =
      Gives-bind IsConsistent IsConsistent (handle_event strict event s)
        (handle_events strict events) (handle_event-IsConsistent strict event s c)
        (handle_events-IsConsistent strict events)

  pub empty-IsConsistent : IsConsistent {P = P} empty_state
  unfolding empty_state find member
  empty-IsConsistent = record {
    table = record {
      named = λ key location e. cc;
      by_address = λ a key e. cc;
      by_handle = λ a key e. cc;
    };
    attempts = λ i tx e. cc;
    indices = λ key i e. cc;
    lives = λ key e. cc;
  }

  -- Attempts that the index leads to, from position n on, have different keys.
  later-ne :
      (m : List (Str × ℕ)) (n k : ℕ) (tx : StmOpacityTransactionAttempt P)
      (txs : List (StmOpacityTransactionAttempt P))
      → find (attempt_key tx) m ≡ some n
      → n + 1 ≤ k
      → ((i : ℕ) (ty : StmOpacityTransactionAttempt P)
          → get_elem? txs i ≡ some ty
          → find (attempt_key ty) m ≡ some (k + i))
      → All (λ ty. attempt_key tx ≢ attempt_key ty) txs
  later-ne m n k tx [] e h at = tt
  later-ne m n k tx (u ∷ us) e h at = (
    λ same.
        let first : find (attempt_key u) m ≡ some (k + 0) = at 0 u refl in
        let equal : n ≡ k + 0 = some_inj.0 (sym e ∙ (ap (λ key. find key m) same ∙ first)) in
        omega arith,
    later-ne m n (suc k) tx us e (omega arith) (λ i ty f. at (suc i) ty f ∙ ap some (omega arith)),
  )

  indexed-IsDistinct :
      (m : List (Str × ℕ)) (n : ℕ) (txs : List (StmOpacityTransactionAttempt P))
      → ((i : ℕ) (tx : StmOpacityTransactionAttempt P)
          → get_elem? txs i ≡ some tx
          → find (attempt_key tx) m ≡ some (n + i))
      → IsDistinct txs
  indexed-IsDistinct m n [] at = tt
  indexed-IsDistinct m n (tx ∷ txs) at = (
    later-ne m n (suc n) tx txs (at 0 tx refl ∙ ap some (omega arith)) (omega arith)
        (λ i ty f. at (suc i) ty f ∙ ap some (omega arith)),
    indexed-IsDistinct m (suc n) txs (λ i ty f. at (suc i) ty f ∙ ap some (omega arith)),
  )

  check_accesses-Gives :
      (locations : List (Str × StmOpacityLocation P)) (accesses : List (StmOpacityAccess P))
      → Gives
          (λ _. All (λ access. is_initialised locations access.location_id ≡ true) accesses)
          (check_accesses locations accesses)
  unfolding check_accesses
  check_accesses-Gives locations [] = tt
  check_accesses-Gives locations (a ∷ accesses) =
      elim (Bool-cases (is_initialised locations a.location_id)) [
        | inl e ↦ Gives-then _ (is_initialised locations a.location_id) _ _ e (
            Gives-weaken
              (λ _. All (λ access. is_initialised locations access.location_id ≡ true) accesses)
              (λ _.
                All (λ access. is_initialised locations access.location_id ≡ true) (a ∷ accesses))
              (check_accesses locations accesses) (check_accesses-Gives locations accesses)
              (λ _ h. (e, h)))
        | inr e ↦ rw e refl
      ]

  check_transactions_sound :
      (s : BuildState P) (n : ℕ) (txs : List (StmOpacityTransactionAttempt P))
      → ((i : ℕ) (tx : StmOpacityTransactionAttempt P)
          → get_elem? txs i ≡ some tx
          → IsAttempt s (n + i) tx)
      → Gives (λ _. All (IsComplete s.locations) txs) (check_transactions s.locations txs)
  unfolding check_transactions
  check_transactions_sound s n [] at = tt
  check_transactions_sound s n (tx ∷ txs) at =
      let first : IsAttempt s (n + 0) tx = at 0 tx refl in
      let rest =
        check_transactions_sound s (suc n) txs
          (λ i ty f. subst (λ k. IsAttempt s k ty) (omega arith) (at (suc i) ty f)) in
      Gives-then (λ _. All (IsComplete s.locations) (tx ∷ txs)) tx.has_begin _ _ first.begun
        (Gives-bind
          (λ _. All (λ access. is_initialised s.locations access.location_id ≡ true) tx.accesses)
          (λ _. All (IsComplete s.locations) (tx ∷ txs)) (check_accesses s.locations tx.accesses)
          (λ _. check_transactions s.locations txs) (check_accesses-Gives s.locations tx.accesses)
          (λ _ initialised.
            Gives-weaken (λ _. All (IsComplete s.locations) txs)
              (λ _. All (IsComplete s.locations) (tx ∷ txs)) (check_transactions s.locations txs)
              rest
              (λ _ others. (
                record {
                  begun = first.begun;
                  numbered = first.numbered;
                  undecided = first.undecided;
                  initialised = initialised;
                },
                others,
              ))))

  finish_history-IsWellFormed :
      (policy : StmLifetimePolicy) (s : BuildState P)
      → IsConsistent s
      → Gives IsWellFormed (finish_history policy s)
  finish_history-IsWellFormed policy s c =
      Gives-bind (λ _. All (IsComplete s.locations) s.transactions) IsWellFormed
        (check_transactions s.locations s.transactions) (λ _. ok (history_of policy s))
        (check_transactions_sound s 0 s.transactions
          (λ i tx e. subst (λ k. IsAttempt s k tx) (omega arith) (c.attempts i tx e)))
        (λ _ complete. record {
          distinct = sort-IsDistinct s.transactions (
              indexed-IsDistinct s.tx_index_by_id 0 s.transactions
                (λ i tx e. (c.attempts i tx e).indexed ∙ ap some (omega arith)));
          ordered = sort-IsOrdered s.transactions;
          complete = All-sort (IsComplete s.locations) s.transactions complete;
        })

  -- Whatever the events and the lifetime policy, `build_stm_opacity_history` gives a well-formed
  -- history or explains that it is malformed, and no `at` throws. In the history no two attempts
  -- have the same thread and transaction id, none begins before one listed earlier, each has
  -- begun under a number, has an outcome exactly if it has ended, and accesses only locations
  -- with an initial value.
  pub build-IsWellFormed :
      (policy : StmLifetimePolicy) (events : List (StmEventRecord P))
      → Gives IsWellFormed (build_stm_opacity_history policy events)
  unfolding build_stm_opacity_history
  build-IsWellFormed policy events =
      Gives-bind IsConsistent IsWellFormed (handle_events (is_strict policy) events empty_state)
        (finish_history policy)
        (handle_events-IsConsistent (is_strict policy) events empty_state empty-IsConsistent)
        (finish_history-IsWellFormed policy)
