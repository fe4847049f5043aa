-- ===== src/Opacity/Search/Exhausts.antt =====
-- include/lincheck/lincheck.hpp, `search_stm_opacity_committed_order`: a search that finds no order
-- has left none out.
use lincheck_cpp.Prelude.{
  ℕ, zero, suc, ◌<◌, ◌≡◌, ◌≢◌, refl, sym, subst, ap, ◌∙◌, Bool, true, false, ◌==◌, ==_iff, Option,
  none, some, List, [], ◌∷◌, ◌++◌, inl, inr, Bool-cases, length, append_nil, get_elem?,
  get_elem?-append, get_elem?-past, lt_of_get_elem?, get_or, range_from, In, In-range_from, set,
  member, arith,
}
use lincheck_cpp.Value.{Str, Payloads}
use lincheck_cpp.Opacity.History.{
  StmOpacityTransactionAttempt, StmOpacityHistory, StmOpacityState, make_initial_stm_opacity_state,
}
use lincheck_cpp.Opacity.Reads.{
  validate_stm_opacity_transaction_reads, ReadsCorrect, validate-ReadsCorrect,
}
use lincheck_cpp.Opacity.Ordering.{StmOpacityOrderingGraph}
use lincheck_cpp.Opacity.Ordering.Serial.{IsSerial}
use lincheck_cpp.Opacity.Search.{
  SearchState, Outcome, found, rejected, Child, next_state, remember_prefix, search_prefix,
  search_stm_opacity_committed_order,
}
use lincheck_cpp.Opacity.Search.Key.{stm_opacity_search_state_key}
use lincheck_cpp.Opacity.Search.Prefix.{next_state-IsCandidate, longer-IsPrefix}
use lincheck_cpp.Opacity.Search.Serial.{LegalAt, memory_of, Runs-append→, Run-Forward}
use lincheck_cpp.Opacity.Search.Places.{place_in}
use lincheck_cpp.Opacity.Search.Legal.{Runs-lt}
use lincheck_cpp.Opacity.Search.Ready.{predecessors_placed_complete}
use lincheck_cpp.Opacity.Search.Exchange.{IsSerialRun, KeysAreFaithful, HasRealTime}
use lincheck_cpp.Opacity.Search.Rejects.{Prefix, IsAccepted, MemoIsRight, Rejects}
use lincheck_cpp.Opacity.Search.Locations.{AllInitialised, step-location_ids}
use lincheck_cpp.Opacity.Search.Tried.{complete_order-Rejects, remember-IsRejection}
use lincheck_cpp.Opacity.Search.Loop.{Tries, try_candidates-Tries}

placed_in_range :
    (placed : List Bool) (i : ℕ) → i < length placed → get_or placed i true ≡ get_or placed i false
placed_in_range [] i l = absurd (omega arith)
placed_in_range (b ∷ placed) zero l = refl
placed_in_range (b ∷ placed) (suc i) l = placed_in_range placed i (omega arith)

module _ {P : Payloads} (history : StmOpacityHistory P)
    (committed observers : List (StmOpacityTransactionAttempt P)) (max : ℕ)
    (graph : StmOpacityOrderingGraph) (forced : HasRealTime history committed graph)
    (faithful : KeysAreFaithful history committed) (initialised : AllInitialised history committed)
    (allowed : (order : List ℕ)
      → IsSerialRun history committed order
      → IsSerial (place_in order) graph) where
  abbrev initial : StmOpacityState P
  initial = make_initial_stm_opacity_state history

  module _ (placed : List Bool) (order : List ℕ) (states : List (StmOpacityState P))
      (state : StmOpacityState P)
      (h : Prefix history committed observers max graph placed order states state) where
    -- The search never passes over a transaction that may come next.
    next_possible :
        (i : ℕ) (rest : List ℕ)
        → IsSerialRun history committed (order ++ i ∷ rest)
        → next_state committed observers max graph placed order state i ≢ none
    unfolding next_state
    next_possible i rest r e =
        let at_end : get_elem? (order ++ i ∷ rest) (length order) ≡ some i =
          ap (get_elem? (order ++ i ∷ rest)) (omega arith) ∙ get_elem?-past order (i ∷ rest) 0 in
        let (_, runs) =
          Runs-append→ committed (memory_of initial) order (i ∷ rest) r.complete.runs in
        let l =
          Runs-lt history committed (order ++ i ∷ rest) _ (length order) i r.complete.runs at_end in
        let fresh : get_or placed i true ≡ false = elim (Bool-cases (get_or placed i true)) [
          | inl t ↦
              let (p, f) =
                h.is_prefix.listed i
                  (sym (placed_in_range placed i (omega (arith, l, h.is_prefix.size))) ∙ t) in
              let clash =
                r.complete.once p (length order) i (get_elem?-append order (i ∷ rest) p f) at_end in
              absurd (omega (arith, clash, lt_of_get_elem? order p f))
          | inr f ↦ f
        ] in
        let ready =
          predecessors_placed_complete (order ++ i ∷ rest) order i rest r.complete.once refl placed
            h.is_prefix.flagged graph (allowed (order ++ i ∷ rest) r) in
        let legal =
          subst (λ m. LegalAt committed m (get_elem? committed i))
            (sym (Run-Forward committed initial order states state h.is_prefix.run).final) runs.0 in
        read (get_elem? committed i) legal (ground (arith, e, fresh, ready))
      where
        read :
            (o : Option (StmOpacityTransactionAttempt P))
            → LegalAt committed (memory_of state) o
            → (elim o [ none ↦ none | some tx ↦ validate_stm_opacity_transaction_reads tx state ])
              ≢ none
        read none legal f = legal
        read (some tx) legal f =
            subst (ReadsCorrect tx state) f (validate-ReadsCorrect tx state) legal

    -- A prefix that is not complete goes on with one of the transactions.
    goes_on :
        length order ≢ length committed
        → (rest : List ℕ) → IsSerialRun history committed (order ++ rest)
        → (i : ℕ) × (rest' : List ℕ) × (In i (range_from 0 (length committed))) × (rest ≡ i ∷ rest')
    goes_on open_order [] r =
        absurd (open_order (ap length (sym (append_nil order)) ∙ r.complete.full))
    goes_on open_order (i ∷ rest) r = (
      i,
      rest,
      In-range_from i 0 (length committed) (omega arith) (
          omega (
            arith,
            Runs-lt history committed (order ++ i ∷ rest) (memory_of initial) (length order) i
                r.complete.runs
                (ap (get_elem? (order ++ i ∷ rest)) (omega arith)
                  ∙ get_elem?-past order (i ∷ rest) 0),
          )),
      refl,
    )

    module _ (open_order : length order ≢ length committed)
        (child : Child committed observers max graph)
        (longer : (i : ℕ) (next : StmOpacityState P) (s : SearchState)
          → next_state committed observers max graph placed order state i ≡ some next
          → MemoIsRight history committed observers max graph s
          → Rejects history committed observers max graph
              (order ++ i ∷ [])
              s
              (child (set placed i true) (order ++ i ∷ []) next (states ++ next ∷ []) s)) where
      tried-Rejects :
          (s : SearchState) (o : Option (Outcome × SearchState))
          → Tries history committed observers max graph child placed order states state longer
              next_possible
              (range_from 0 (length committed))
              false
              s
              o
          → Rejects history committed observers max graph order s o
      tried-Rejects s none t = tt
      tried-Rejects s (some (found _, s')) t = tt
      tried-Rejects s (some (rejected c, s')) t = record {
        memo = t.memo;
        limited = t.limited;
        unaccepted = λ l rest r a.
            let (i, rest', m, e) = goes_on open_order rest r in
            t.unaccepted l i rest' m (subst (λ x. IsSerialRun history committed (order ++ x)) e r)
              (subst (λ x. IsAccepted history committed observers max graph (order ++ x)) e a);
        dead = λ l f rest r.
            let (i, rest', m, e) = goes_on open_order rest r in
            t.dead l f i rest' m (subst (λ x. IsSerialRun history committed (order ++ x)) e r);
      }

      search_prefix-Rejects :
          (s : SearchState)
          → MemoIsRight history committed observers max graph s
          → Rejects history committed observers max graph order s
              (search_prefix committed observers max graph child placed order state states s)
      unfolding search_prefix
      search_prefix-Rejects s memo = elim (Bool-cases (member key s.failed_prefixes)) [
        | inl e ↦
            let gone = memo key e placed order states state h refl in
            rw (e, search_prefix)
              (record {
                memo = memo;
                limited = λ l. l;
                unaccepted = λ l rest r a. gone rest r;
                dead = λ l f. gone;
              })
        | inr e ↦
            rw (e, search_prefix)
              (finished _ (
                tried-Rejects s _ (
                  try_candidates-Tries history committed observers max graph child placed order
                    states state longer next_possible (range_from 0 (length committed)) false s
                    memo)))
      ]
        where
          key : Str
          key = stm_opacity_search_state_key placed state

          finished :
              (o : Option (Outcome × SearchState))
              → Rejects history committed observers max graph order s o
              → Rejects history committed observers max graph order s (elim o [
                | none ↦ none
                | some answer ↦ some (remember_prefix committed observers max graph key answer)
              ])
          finished none t = tt
          finished (some answer) t =
              remember-IsRejection history committed observers max graph forced faithful placed
                order states state s answer h t

  longer-IsKnown :
      (placed : List Bool) (order : List ℕ) (states : List (StmOpacityState P))
      (state : StmOpacityState P)
      → Prefix history committed observers max graph placed order states state
      → (i : ℕ) (next : StmOpacityState P)
      → next_state committed observers max graph placed order state i ≡ some next
      → Prefix history committed observers max graph
          (set placed i true)
          (order ++ i ∷ [])
          (states ++ next ∷ [])
          next
  longer-IsKnown placed order states state h i next e =
      let c =
        next_state-IsCandidate committed observers max graph initial placed order state next i e in
      let (tx, there, valid) = c.leads in
      record {
        is_prefix =
            longer-IsPrefix committed observers max graph initial placed order states state next i
              h.is_prefix c;
        ids = step-location_ids history committed i tx state next initialised there h.ids valid;
      }

  pub search_order-Rejects :
      (fuel : ℕ) (placed : List Bool) (order : List ℕ) (state : StmOpacityState P)
      (states : List (StmOpacityState P)) (s : SearchState)
      → Prefix history committed observers max graph placed order states state
      → MemoIsRight history committed observers max graph s
      → Rejects history committed observers max graph order s (
          search_stm_opacity_committed_order committed observers max graph fuel placed order state
            states s)
  unfolding search_stm_opacity_committed_order
  search_order-Rejects zero placed order state states s h memo = tt
  search_order-Rejects (suc fuel) placed order state states s h memo =
      elim (Bool-cases (length order == length committed)) [
        | inl e ↦
            rw (e, search_stm_opacity_committed_order)
              (complete_order-Rejects history committed observers max graph placed order states
                state s h ((==_iff (length order) (length committed)).0 e) memo)
        | inr e ↦
            rw (e, search_stm_opacity_committed_order)
              (search_prefix-Rejects placed order states state h (λ same. ground (arith, e, same))
                (search_stm_opacity_committed_order committed observers max graph fuel)
                (λ i next t f m.
                  search_order-Rejects fuel (set placed i true) (order ++ i ∷ []) next
                    (states ++ next ∷ []) t (longer-IsKnown placed order states state h i next f) m)
                s memo)
      ]
