-- ===== src/Opacity/Placement/Candidates.antt =====
-- The candidate prefixes of an observer, against the prefixes that it can read.
use mathlib.Core.Option.{some_inj}
use lincheck_cpp.Prelude.{
  ℕ, zero, suc, ◌+◌, ◌≡◌, ◌↔◌, refl, sym, subst, true, false, Option, none, some, List, [], ◌∷◌,
  ◌⊎◌, inl, inr, get_elem?, In, arith,
}
use lincheck_cpp.Value.{Payloads}
use lincheck_cpp.Opacity.History.{StmOpacityTransactionAttempt, StmOpacityState, find_value}
use lincheck_cpp.Opacity.Reads.{
  IsLegal, ReadsCorrect, validate_stm_opacity_transaction_reads, validate-ReadsCorrect,
}
use lincheck_cpp.Opacity.Observers.{stm_opacity_prefix_respects_real_time}
use lincheck_cpp.Opacity.Observers.Compatible.{Fits, prefix_respects_iff}
use lincheck_cpp.Opacity.Placement.{reads_accepted, candidate_loop}

module _ {P : Payloads} (order : List (StmOpacityTransactionAttempt P))
    (states : List (StmOpacityState P)) where
  -- The transaction reads what it would read after `size` committed transactions, and that is after
  -- all that precede it and before all that it precedes.
  pub record CanRead (tx : StmOpacityTransactionAttempt P) (size : ℕ) : Type 0 where
    pub legal :
        (state : StmOpacityState P) × (get_elem? states size ≡ some state)
        × IsLegal (λ k. find_value k state) tx.accesses
    pub real_time :
        (i : ℕ) (c : StmOpacityTransactionAttempt P) → get_elem? order i ≡ some c → Fits tx size i c

  reads_accepted_iff :
      (x : StmOpacityTransactionAttempt P) (state : StmOpacityState P)
      → (reads_accepted x state ≡ true) ↔ IsLegal (λ k. find_value k state) x.accesses
  unfolding reads_accepted
  reads_accepted_iff x state =
      answer (validate_stm_opacity_transaction_reads x state) (validate-ReadsCorrect x state)
    where
      answer :
          (r : Option (StmOpacityState P))
          → ReadsCorrect x state r
          → ((elim r [ none ↦ false | some _ ↦ true ]) ≡ true)
            ↔ IsLegal (λ k. find_value k state) x.accesses
      answer none h = (λ e. cc, λ legal. absurd (h legal))
      answer (some after) h = (λ e. h.0, λ legal. refl)

  -- What the loop over the prefixes keeps.
  abbrev Kept : StmOpacityTransactionAttempt P → ℕ → StmOpacityState P → Type 0
  Kept x p state =
      (stm_opacity_prefix_respects_real_time x order p ≡ true) × (reads_accepted x state ≡ true)

  candidate_loop-cons :
      (x : StmOpacityTransactionAttempt P) (q p : ℕ) (state : StmOpacityState P)
      (rest : List (StmOpacityState P))
      → In q (candidate_loop order states x p (state ∷ rest))
        ↔ ((q ≡ p) × Kept x p state) ⊎ In q (candidate_loop order states x (suc p) rest)
  unfolding candidate_loop
  candidate_loop-cons x q p state rest = ground arith

  candidate_loop→ :
      (x : StmOpacityTransactionAttempt P) (q p : ℕ) (rest : List (StmOpacityState P))
      → In q (candidate_loop order states x p rest)
      → (k : ℕ) × (q ≡ p + k)
        × (state : StmOpacityState P) × (get_elem? rest k ≡ some state)
        × Kept x q state
  unfolding candidate_loop
  candidate_loop→ x q p [] m = absurd m
  candidate_loop→ x q p (state ∷ rest) m = elim ((candidate_loop-cons x q p state rest).0 m) [
    | inl (e, kept) ↦ (0, omega arith, state, refl, rw e kept)
    | inr m' ↦
        let (k, e, state', get, kept) = candidate_loop→ x q (suc p) rest m' in
        (suc k, omega arith, state', get, kept)
  ]

  candidate_loop← :
      (x : StmOpacityTransactionAttempt P) (p k : ℕ) (rest : List (StmOpacityState P))
      (state : StmOpacityState P)
      → get_elem? rest k ≡ some state
      → Kept x (p + k) state
      → In (p + k) (candidate_loop order states x p rest)
  candidate_loop← x p k [] state e kept = cc
  candidate_loop← x p zero (s ∷ rest) state e kept = (candidate_loop-cons x (p + 0) p s rest).1 (
      inl (
        omega arith,
        subst (Kept x p) (sym (some_inj.0 e)) (subst (λ n. Kept x n state) (omega arith) kept),
      ))
  candidate_loop← x p (suc k) (s ∷ rest) state e kept =
      (candidate_loop-cons x (p + suc k) p s rest).1 (
        inr (
          subst (λ n. In n (candidate_loop order states x (suc p) rest)) (omega arith)
            (candidate_loop← x (suc p) k rest state e
              (subst (λ n. Kept x n state) (omega arith) kept))))

  -- The candidates of an observer are the prefixes that it can read.
  pub candidate_iff :
      (x : StmOpacityTransactionAttempt P) (q : ℕ)
      → In q (candidate_loop order states x 0 states) ↔ CanRead x q
  candidate_iff x q = (to, from)
    where
      to : In q (candidate_loop order states x 0 states) → CanRead x q
      to m =
          let (k, e, state, get, (r, a)) = candidate_loop→ x q 0 states m in
          record {
            legal = (
              state,
              subst (λ n. get_elem? states n ≡ some state) (omega arith) get,
              (reads_accepted_iff x state).0 a,
            );
            real_time = (prefix_respects_iff x order q).0 r;
          }

      from : CanRead x q → In q (candidate_loop order states x 0 states)
      from c =
          let (state, get, legal) = c.legal in
          let kept : Kept x q state =
            ((prefix_respects_iff x order q).1 c.real_time, (reads_accepted_iff x state).1 legal) in
          subst (λ n. In n (candidate_loop order states x 0 states)) (omega arith)
            (candidate_loop← x 0 q states state get
              (subst (λ n. Kept x n state) (omega arith) kept))
