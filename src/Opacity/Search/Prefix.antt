-- ===== src/Opacity/Search/Prefix.antt =====
-- include/lincheck/lincheck.hpp, `search_stm_opacity_committed_order`: serial runs of committed
-- transactions, and the prefixes of orders that the search builds.
use lincheck_cpp.Prelude.{
  ℕ, zero, suc, ◌<◌, ◌≡◌, ◌≢◌, refl, sym, ap, subst, ◌∙◌, Bool, true, false, some, List, [], ◌∷◌,
  ◌++◌, inl, inr, Option-cases, length, length-set, get_elem?, get_or, set, get_or-set_self,
  get_or-set_ne, get_elem?-snoc, get_elem?-append, get_elem?-snoc_last, lt_of_get_elem?, In,
  In-range_from, range_from, arith,
}
use native.Mathlib.Decide.{ℕ_discrete, dec_lt}
use lincheck_cpp.Value.{Payloads}
use lincheck_cpp.Opacity.History.{StmOpacityTransactionAttempt, StmOpacityState, find_value}
use lincheck_cpp.Opacity.Reads.{
  IsLegal, run_memory, validate_stm_opacity_transaction_reads, ReadsCorrect, validate-ReadsCorrect,
}
use lincheck_cpp.Opacity.Ordering.{StmOpacityOrderingGraph, at}
use lincheck_cpp.Opacity.Ordering.Matrix.{get_or_past}
use lincheck_cpp.Opacity.Search.{next_state}
use lincheck_cpp.Opacity.Search.Predecessors.{
  predecessors_loop, stm_opacity_committed_predecessors_placed,
}

-- A run of transactions one after the other, each with legal reads on the state that the ones
-- before it leave: the order, the states of its prefixes, and the last of them.
pub data Run {P : Payloads} (committed : List (StmOpacityTransactionAttempt P))
    (initial : StmOpacityState P)
    : List ℕ → List (StmOpacityState P) → StmOpacityState P → Type 0 where
  begins : Run committed initial [] (initial ∷ []) initial
  continues :
      (order : List ℕ) (states : List (StmOpacityState P)) (state after : StmOpacityState P) (i : ℕ)
      (tx : StmOpacityTransactionAttempt P)
      → Run committed initial order states state
      → get_elem? committed i ≡ some tx
      → IsLegal (λ k. find_value k state) tx.accesses
      → ((k : List ℕ) → find_value k after ≡ run_memory (λ j. find_value j state) tx.accesses k)
      → Run committed initial (order ++ i ∷ []) (states ++ after ∷ []) after

module _ {P : Payloads} (committed observers : List (StmOpacityTransactionAttempt P))
    (max_committed_orders : ℕ) (graph : StmOpacityOrderingGraph) (initial : StmOpacityState P) where
  abbrev pub Earlier : List ℕ → ℕ → ℕ → Type 0
  Earlier order i q = (p : ℕ) × (p < q) × (get_elem? order p ≡ some i)

  -- The flags say which transactions are in the order, none is there twice, those that have to
  -- precede one in the order stand before it, and the order is a run.
  pub record IsPrefix (placed : List Bool) (order : List ℕ) (states : List (StmOpacityState P))
      (state : StmOpacityState P) : Type 0 where
    pub size : length placed ≡ length committed
    pub listed : (i : ℕ) → get_or placed i false ≡ true → (p : ℕ) × (get_elem? order p ≡ some i)
    pub flagged : (p i : ℕ) → get_elem? order p ≡ some i → get_or placed i false ≡ true
    pub distinct : (p q i : ℕ) → get_elem? order p ≡ some i → get_elem? order q ≡ some i → p ≡ q
    pub respects :
        (q i j : ℕ)
        → get_elem? order q ≡ some j
        → i < length graph.must_precede
        → i ≢ j
        → at graph.must_precede i j ≡ true
        → Earlier order i q
    pub run : Run committed initial order states state

  -- What the two tests of a candidate say.
  pub record IsCandidate (placed : List Bool) (order : List ℕ) (state next : StmOpacityState P)
      (i : ℕ) : Type 0 where
    pub fresh : get_or placed i true ≡ false
    pub ready : stm_opacity_committed_predecessors_placed graph placed order i ≡ true
    pub leads :
        (tx : StmOpacityTransactionAttempt P) × (get_elem? committed i ≡ some tx)
        × (validate_stm_opacity_transaction_reads tx state ≡ some next)

  pub next_state-IsCandidate :
      (placed : List Bool) (order : List ℕ) (state next : StmOpacityState P) (i : ℕ)
      → next_state committed observers max_committed_orders graph placed order state i ≡ some next
      → IsCandidate placed order state next i
  unfolding next_state
  next_state-IsCandidate placed order state next i e = elim (Option-cases (get_elem? committed i)) [
    | inl f ↦ absurd (ground (arith, e, f))
    | inr (tx, f) ↦ record {
      fresh = ground (arith, e, f);
      ready = ground (arith, e, f);
      leads = (tx, f, ground (arith, e, f));
    }
  ]

  predecessors_loop_sound :
      (placed : List Bool) (candidate i : ℕ) (is : List ℕ)
      → predecessors_loop graph.must_precede placed candidate is ≡ true
      → In i is
      → i ≢ candidate
      → at graph.must_precede i candidate ≡ true
      → get_or placed i false ≡ true
  unfolding predecessors_loop
  predecessors_loop_sound placed candidate i [] h m ne e = absurd m
  predecessors_loop_sound placed candidate i (j ∷ is) h (inl same) ne e = ground (
    arith,
    h,
    e,
    ne,
    same,
    ap (λ k. at graph.must_precede k candidate) same,
    ap (λ k. get_or placed k false) same,
  )
  predecessors_loop_sound placed candidate i (j ∷ is) h (inr m) ne e =
      predecessors_loop_sound placed candidate i is (ground (arith, h)) m ne e

  ready-placed :
      (placed : List Bool) (order : List ℕ) (i j : ℕ)
      → stm_opacity_committed_predecessors_placed graph placed order j ≡ true
      → i < length graph.must_precede
      → i ≢ j
      → at graph.must_precede i j ≡ true
      → get_or placed i false ≡ true
  unfolding stm_opacity_committed_predecessors_placed
  ready-placed placed order i j h l ne e =
      predecessors_loop_sound placed j i (range_from 0 (length graph.must_precede))
        (ground (arith, h))
        (In-range_from i 0 (length graph.must_precede) (omega arith) (omega arith)) ne e

  fresh_in_range : (placed : List Bool) (i : ℕ) → get_or placed i true ≡ false → i < length placed
  fresh_in_range placed i e = elim (dec_lt i (length placed)) [
    | yes l ↦ l
    | no n ↦ absurd (let past = get_or_past placed i true (omega arith) in cc)
  ]

  fresh_not_placed :
      (placed : List Bool) (i : ℕ) → get_or placed i true ≡ false → get_or placed i false ≡ false
  fresh_not_placed [] i e = refl
  fresh_not_placed (b ∷ placed) zero e = e
  fresh_not_placed (b ∷ placed) (suc i) e = fresh_not_placed placed i e

  module _ (placed : List Bool) (order : List ℕ) (states : List (StmOpacityState P))
      (state next : StmOpacityState P) (i : ℕ) (h : IsPrefix placed order states state)
      (c : IsCandidate placed order state next i) where
    in_range : i < length placed
    in_range = fresh_in_range placed i c.fresh

    not_listed : (p : ℕ) → get_elem? order p ≢ some i
    not_listed p e =
        let flag = h.flagged p i e in let open_flag = fresh_not_placed placed i c.fresh in cc

    longer_listed :
        (j : ℕ)
        → get_or (set placed i true) j false ≡ true
        → (p : ℕ) × (get_elem? (order ++ i ∷ []) p ≡ some j)
    longer_listed j e = elim (ℕ_discrete i j) [
      | yes same ↦ (
        length order,
        subst (λ k. get_elem? (order ++ i ∷ []) (length order) ≡ some k) same
            (get_elem?-snoc_last order i),
      )
      | no ne ↦
          let (p, f) = h.listed j (sym (get_or-set_ne placed i j true false ne) ∙ e) in
          (p, get_elem?-append order (i ∷ []) p f)
    ]

    longer_flagged :
        (p j : ℕ)
        → get_elem? (order ++ i ∷ []) p ≡ some j
        → get_or (set placed i true) j false ≡ true
    longer_flagged p j e = elim (get_elem?-snoc order i p j e) [
      | inl f ↦
          get_or-set_ne placed i j true false
            (λ same. not_listed p (subst (λ k. get_elem? order p ≡ some k) (sym same) f))
          ∙ h.flagged p j f
      | inr f ↦
          subst (λ k. get_or (set placed i true) k false ≡ true) (sym f.1)
            (get_or-set_self placed i true false in_range)
    ]

    longer_distinct :
        (p q j : ℕ)
        → get_elem? (order ++ i ∷ []) p ≡ some j
        → get_elem? (order ++ i ∷ []) q ≡ some j
        → p ≡ q
    longer_distinct p q j e f = elim (get_elem?-snoc order i p j e) [
      | inl e' ↦ elim (get_elem?-snoc order i q j f) [
        | inl f' ↦ h.distinct p q j e' f'
        | inr f' ↦ absurd (not_listed p (subst (λ k. get_elem? order p ≡ some k) f'.1 e'))
      ]
      | inr e' ↦ elim (get_elem?-snoc order i q j f) [
        | inl f' ↦ absurd (not_listed q (subst (λ k. get_elem? order q ≡ some k) e'.1 f'))
        | inr f' ↦ e'.0 ∙ sym f'.0
      ]
    ]

    longer_respects :
        (q k j : ℕ)
        → get_elem? (order ++ i ∷ []) q ≡ some j
        → k < length graph.must_precede
        → k ≢ j
        → at graph.must_precede k j ≡ true
        → Earlier (order ++ i ∷ []) k q
    longer_respects q k j e l ne m = elim (get_elem?-snoc order i q j e) [
      | inl f ↦
          let (p, lp, g) = h.respects q k j f l ne m in (p, lp, get_elem?-append order (i ∷ []) p g)
      | inr f ↦
          let flag =
            ready-placed placed order k i c.ready l (λ same. ne (same ∙ sym f.1))
              (subst (λ t. at graph.must_precede k t ≡ true) f.1 m) in
          let (p, g) = h.listed k flag in
          (p, omega (arith, f.0, lt_of_get_elem? order p g), get_elem?-append order (i ∷ []) p g)
    ]

    longer_run : Run committed initial (order ++ i ∷ []) (states ++ next ∷ []) next
    longer_run =
        let (tx, at_i, valid) = c.leads in
        let correct : ReadsCorrect tx state (some next) =
          subst (ReadsCorrect tx state) valid (validate-ReadsCorrect tx state) in
        continues order states state next i tx h.run at_i correct.0 correct.1

    pub longer-IsPrefix : IsPrefix (set placed i true) (order ++ i ∷ []) (states ++ next ∷ []) next
    longer-IsPrefix = record {
      size = length-set placed i true ∙ h.size;
      listed = longer_listed;
      flagged = longer_flagged;
      distinct = longer_distinct;
      respects = longer_respects;
      run = longer_run;
    }
