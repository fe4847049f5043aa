-- ===== src/Opacity/Search/Loop.antt =====
-- include/lincheck/lincheck.hpp, `search_stm_opacity_committed_order`: the loop over the candidates,
-- where no candidate leads to an order.
use lincheck_cpp.Prelude.{
  ℕ, ◌≡◌, ◌≢◌, refl, sym, subst, Bool, true, false, Bool-cases, ◌||◌, Option, none, some, List, [],
  ◌∷◌, ◌++◌, inl, inr, snoc_append, set, In, arith,
}
use lincheck_cpp.Value.{Payloads}
use lincheck_cpp.Opacity.History.{StmOpacityTransactionAttempt, StmOpacityHistory, StmOpacityState}
use lincheck_cpp.Opacity.Ordering.{StmOpacityOrderingGraph}
use lincheck_cpp.Opacity.Search.{
  SearchState, Outcome, found, rejected, Child, next_state, try_candidates,
}
use lincheck_cpp.Opacity.Search.Exchange.{IsSerialRun}
use lincheck_cpp.Opacity.Search.Rejects.{IsAccepted, MemoIsRight, IsRejection, Rejects}

module _ {P : Payloads} (history : StmOpacityHistory P)
    (committed observers : List (StmOpacityTransactionAttempt P)) (max : ℕ)
    (graph : StmOpacityOrderingGraph) (child : Child committed observers max graph)
    (placed : List Bool) (order : List ℕ) (states : List (StmOpacityState P))
    (state : StmOpacityState P)
    (longer : (i : ℕ) (next : StmOpacityState P) (s : SearchState)
      → next_state committed observers max graph placed order state i ≡ some next
      → MemoIsRight history committed observers max graph s
      → Rejects history committed observers max graph
          (order ++ i ∷ [])
          s
          (child (set placed i true) (order ++ i ∷ []) next (states ++ next ∷ []) s))
    (possible : (i : ℕ) (rest : List ℕ)
      → IsSerialRun history committed (order ++ i ∷ rest)
      → next_state committed observers max graph placed order state i ≢ none) where
  -- None of the candidates is continued by a serial run, or none by one that is accepted.
  pub record IsTried (is : List ℕ) (completed : Bool) (s : SearchState) (c : Bool)
      (s' : SearchState) : Type 0 where
    pub memo : MemoIsRight history committed observers max graph s'
    pub limited : s.search_limit_exceeded ≡ true → s'.search_limit_exceeded ≡ true
    pub seen : completed ≡ true → c ≡ true
    pub unaccepted :
        s'.search_limit_exceeded ≡ false
        → (i : ℕ) (rest : List ℕ) → In i is
        → IsSerialRun history committed (order ++ i ∷ rest)
        → IsAccepted history committed observers max graph (order ++ i ∷ rest)
        → ⊥
    pub dead :
        s'.search_limit_exceeded ≡ false
        → c ≡ false
        → (i : ℕ) (rest : List ℕ) → In i is
        → IsSerialRun history committed (order ++ i ∷ rest)
        → ⊥

  abbrev pub Tries : List ℕ → Bool → SearchState → Option (Outcome × SearchState) → Type 0
  Tries is completed s none = Unit
  Tries is completed s (some (found _, s')) = Unit
  Tries is completed s (some (rejected c, s')) = IsTried is completed s c s'

  skipped :
      (i : ℕ) (is : List ℕ) (completed : Bool) (s : SearchState)
      (o : Option (Outcome × SearchState))
      → next_state committed observers max graph placed order state i ≡ none
      → Tries is completed s o
      → Tries (i ∷ is) completed s o
  skipped i is completed s none e h = tt
  skipped i is completed s (some (found _, s')) e h = tt
  skipped i is completed s (some (rejected c, s')) e h = record {
    memo = h.memo;
    limited = h.limited;
    seen = h.seen;
    unaccepted = λ l j rest. elim [
      | inl same ↦ λ r a. possible j rest r (
          subst (λ k. next_state committed observers max graph placed order state k ≡ none)
            (sym same) e)
      | inr m ↦ h.unaccepted l j rest m
    ];
    dead = λ l f j rest. elim [
      | inl same ↦ λ r. possible j rest r (
          subst (λ k. next_state committed observers max graph placed order state k ≡ none)
            (sym same) e)
      | inr m ↦ h.dead l f j rest m
    ];
  }

  went_on :
      (i : ℕ) (is : List ℕ) (completed c : Bool) (s s' : SearchState)
      (o : Option (Outcome × SearchState))
      → IsRejection history committed observers max graph (order ++ i ∷ []) s c s'
      → Tries is (completed || c) s' o
      → Tries (i ∷ is) completed s o
  went_on i is completed c s s' none r h = tt
  went_on i is completed c s s' (some (found _, s'')) r h = tt
  went_on i is completed c s s' (some (rejected d, s'')) r h = record {
    memo = h.memo;
    limited = λ l. h.limited (r.limited l);
    seen = λ e. h.seen (ground (arith, e));
    unaccepted = λ l j rest. elim [
      | inl same ↦ λ run a.
          r.unaccepted (before l) rest
            (subst (IsSerialRun history committed) (shift j rest same) run)
            (subst (IsAccepted history committed observers max graph) (shift j rest same) a)
      | inr m ↦ h.unaccepted l j rest m
    ];
    dead = λ l f j rest. elim [
      | inl same ↦ λ run.
          r.dead (before l) (not_seen f) rest
            (subst (IsSerialRun history committed) (shift j rest same) run)
      | inr m ↦ h.dead l f j rest m
    ];
  }
    where
      shift : (j : ℕ) (rest : List ℕ) → j ≡ i → order ++ j ∷ rest ≡ (order ++ i ∷ []) ++ rest
      shift j rest same =
          subst (λ k. order ++ j ∷ rest ≡ (order ++ k ∷ []) ++ rest) same
            (sym (snoc_append order j rest))

      before : s''.search_limit_exceeded ≡ false → s'.search_limit_exceeded ≡ false
      before l = elim (Bool-cases s'.search_limit_exceeded) [
        | inl e ↦ absurd (let f = h.limited e in cc)
        | inr e ↦ e
      ]

      not_seen : d ≡ false → c ≡ false
      not_seen f = elim (Bool-cases c) [
        | inl e ↦ absurd (let g = h.seen (ground (arith, e)) in cc)
        | inr e ↦ e
      ]

  pub try_candidates-Tries :
      (is : List ℕ) (completed : Bool) (s : SearchState)
      → MemoIsRight history committed observers max graph s
      → Tries is completed s (
          try_candidates committed observers max graph child placed order state states is completed
            s)
  unfolding try_candidates
  try_candidates-Tries [] completed s memo = record {
    memo = memo;
    limited = λ l. l;
    seen = λ e. e;
    unaccepted = λ l i rest m. absurd m;
    dead = λ l e i rest m. absurd m;
  }
  try_candidates-Tries (i ∷ is) completed s memo =
      tried (next_state committed observers max graph placed order state i) refl
        (try_candidates-Tries is)
    where
      Rest : Type 0
      Rest =
          (c : Bool) (t : SearchState)
          → MemoIsRight history committed observers max graph t
          → Tries is c t
              (try_candidates committed observers max graph child placed order state states is c t)

      after :
          (o : Option (Outcome × SearchState))
          → Rejects history committed observers max graph (order ++ i ∷ []) s o
          → Rest
          → Tries (i ∷ is) completed s (elim o [
            | none ↦ none
            | some (outcome, s') ↦ elim outcome [
              | found order' ↦ some (found order', s')
              | rejected c ↦
                  try_candidates committed observers max graph child placed order state states is
                    (completed || c)
                    s'
            ]
          ])
      after none h rest = tt
      after (some (found order', s')) h rest = tt
      after (some (rejected c, s')) h rest =
          went_on i is completed c s s' _ h (rest (completed || c) s' h.memo)

      tried :
          (o : Option (StmOpacityState P))
          → next_state committed observers max graph placed order state i ≡ o
          → Rest
          → Tries (i ∷ is) completed s (elim o [
            | none ↦
                try_candidates committed observers max graph child placed order state states is
                  completed s
            | some next ↦
                elim (child (set placed i true) (order ++ i ∷ []) next (states ++ next ∷ []) s) [
                  | none ↦ none
                  | some (outcome, s') ↦ elim outcome [
                    | found order' ↦ some (found order', s')
                    | rejected c ↦
                        try_candidates committed observers max graph child placed order state states
                          is
                          (completed || c)
                          s'
                  ]
                ]
          ])
      tried none e rest = skipped i is completed s _ e (rest completed s memo)
      tried (some next) e rest = after _ (longer i next s e memo) rest
