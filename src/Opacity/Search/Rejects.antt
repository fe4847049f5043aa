-- ===== src/Opacity/Search/Rejects.antt =====
-- include/lincheck/lincheck.hpp, `search_stm_opacity_committed_order`: what it means that the
-- search finds no order, step by step.
use lincheck_cpp.Prelude.{
  ℕ, ◌≡◌, sym, subst, ap, ◌∙◌, Bool, true, false, Option, none, some, List, ◌++◌, map, get_elem?,
  get_elem?-map, get_elem?-map→, member,
}
use lincheck_cpp.Value.{Str, Payloads}
use lincheck_cpp.Opacity.History.{
  StmOpacityTransactionAttempt, StmOpacityHistory, StmOpacityState, make_initial_stm_opacity_state,
}
use lincheck_cpp.Opacity.Reads.{IsLegal}
use lincheck_cpp.Opacity.Ordering.{StmOpacityOrderingGraph}
use lincheck_cpp.Opacity.Placement.Decide.{IsPlacement}
use lincheck_cpp.Opacity.Search.{SearchState, Outcome, found, rejected, transactions_of}
use lincheck_cpp.Opacity.Search.Key.{stm_opacity_search_state_key}
use lincheck_cpp.Opacity.Search.Prefix.{Run}
use lincheck_cpp.Opacity.Search.Serial.{memory_of, Run-Forward}
use lincheck_cpp.Opacity.Search.Exchange.{IsKnown, IsSerialRun}

module _ {P : Payloads} (history : StmOpacityHistory P)
    (committed observers : List (StmOpacityTransactionAttempt P)) (max : ℕ)
    (graph : StmOpacityOrderingGraph) where
  abbrev initial : StmOpacityState P
  initial = make_initial_stm_opacity_state history

  abbrev pub Prefix : List Bool → List ℕ → List (StmOpacityState P) → StmOpacityState P → Type 0
  Prefix = IsKnown history committed observers max graph

  -- The observers can be placed in the order.
  pub record IsAccepted (order : List ℕ) : Type 0 where
    pub states : List (StmOpacityState P)
    pub state : StmOpacityState P
    pub run : Run committed initial order states state
    pub prefix : ℕ → ℕ
    pub placement : IsPlacement (transactions_of committed order) states observers prefix

  -- No continuation of a prefix is a serial run, or none that the observers accept.
  abbrev pub IsDead : List ℕ → Type 0
  IsDead order = (rest : List ℕ) → IsSerialRun history committed (order ++ rest) → ⊥

  abbrev pub IsUnaccepted : List ℕ → Type 0
  IsUnaccepted order =
      (rest : List ℕ)
      → IsSerialRun history committed (order ++ rest)
      → IsAccepted (order ++ rest)
      → ⊥

  -- What is remembered is dead.
  abbrev pub MemoIsRight : SearchState → Type 0
  MemoIsRight s =
      (key : Str)
      → member key s.failed_prefixes ≡ true
      → (placed : List Bool) (order : List ℕ) (states : List (StmOpacityState P))
        (state : StmOpacityState P)
      → Prefix placed order states state
      → stm_opacity_search_state_key placed state ≡ key
      → IsDead order

  -- The search found nothing on a prefix, coming from the state s.
  pub record IsRejection (order : List ℕ) (s : SearchState) (completed : Bool) (s' : SearchState)
      : Type 0 where
    pub memo : MemoIsRight s'
    pub limited : s.search_limit_exceeded ≡ true → s'.search_limit_exceeded ≡ true
    pub unaccepted : s'.search_limit_exceeded ≡ false → IsUnaccepted order
    pub dead : s'.search_limit_exceeded ≡ false → completed ≡ false → IsDead order

  abbrev pub Rejects : List ℕ → SearchState → Option (Outcome × SearchState) → Type 0
  Rejects order s none = Unit
  Rejects order s (some (found _, s')) = Unit
  Rejects order s (some (rejected c, s')) = IsRejection order s c s'

  -- The values of the states do not depend on how they were computed.
  pub IsAccepted-IsPlacement :
      (order : List ℕ) (states : List (StmOpacityState P)) (state : StmOpacityState P)
      → Run committed initial order states state
      → (a : IsAccepted order)
      → IsPlacement (transactions_of committed order) states observers a.prefix
  IsAccepted-IsPlacement order states state run a = record {
    can_read = λ i x e.
        let c = a.placement.can_read i x e in
        let (s, f, legal) = c.legal in
        let (t, g, same) = get_elem?-map→ memory_of states (a.prefix i) (
          ap (λ ms. get_elem? ms (a.prefix i)) all_same
          ∙ get_elem?-map memory_of a.states (a.prefix i) f) in
        record {
          legal = (t, g, subst (λ m. IsLegal m x.accesses) (sym same) legal);
          real_time = c.real_time;
        };
    ordered = a.placement.ordered;
  }
    where
      all_same : map memory_of states ≡ map memory_of a.states
      all_same =
          (Run-Forward committed initial order states state run).each
          ∙ sym (Run-Forward committed initial order a.states a.state a.run).each
