-- ===== src/Opacity/Search/Exchange.antt =====
-- The memo of the search: two prefixes of the same key have the same continuations.
use mathlib.Core.Path.{fun_ext}
use lincheck_cpp.Prelude.{
  ℕ, ◌+◌, ◌<◌, ◌≡◌, ◌≢◌, sym, subst, ◌∙◌, Bool, true, false, some, List, ◌++◌, inl, inr, length,
  length-append, get_elem?, get_elem?-append, get_elem?-append_cases, get_elem?-past,
  lt_of_get_elem?, get_or, arith,
}
use lincheck_cpp.Value.{Str, Payloads}
use lincheck_cpp.Opacity.History.{
  StmOpacityTransactionAttempt, StmOpacityHistory, StmOpacityState, find_value,
  make_initial_stm_opacity_state, stm_opacity_precedes,
}
use lincheck_cpp.Opacity.Ordering.{StmOpacityOrderingGraph, at}
use lincheck_cpp.Opacity.Search.Key.{location_ids, stm_opacity_search_state_key}
use lincheck_cpp.Opacity.Search.Prefix.{Run, IsPrefix}
use lincheck_cpp.Opacity.Search.Serial.{
  memory_of, memory_after, Runs, Runs-append→, Runs-append←, Run-Forward,
}
use lincheck_cpp.Opacity.Search.Places.{AreOnce, length-le_of_listed}
use lincheck_cpp.Opacity.Search.Legal.{IsComplete}

module _ {P : Payloads} (history : StmOpacityHistory P)
    (committed : List (StmOpacityTransactionAttempt P)) where
  -- The order keeps the transactions' real-time order.
  abbrev pub KeepsPlaces : List ℕ → Type 0
  KeepsPlaces order =
      (p q i j : ℕ) (x y : StmOpacityTransactionAttempt P)
      → get_elem? order p ≡ some i
      → get_elem? order q ≡ some j
      → get_elem? committed i ≡ some x
      → get_elem? committed j ≡ some y
      → i ≢ j
      → stm_opacity_precedes x y ≡ true
      → p < q

  -- A complete run that keeps the real-time order.
  pub record IsSerialRun (order : List ℕ) : Type 0 where
    pub complete : IsComplete history committed order
    pub real_time : KeepsPlaces order

  abbrev initial : StmOpacityState P
  initial = make_initial_stm_opacity_state history

  -- The flags say which transactions the run has placed, and the state holds the locations of the
  -- initial state.
  pub record IsReached (placed : List Bool) (state : StmOpacityState P) : Type 0 where
    pub order : List ℕ
    pub states : List (StmOpacityState P)
    pub run : Run committed initial order states state
    pub once : AreOnce order
    pub flagged : (p i : ℕ) → get_elem? order p ≡ some i → get_or placed i false ≡ true
    pub listed : (i : ℕ) → get_or placed i false ≡ true → (p : ℕ) × (get_elem? order p ≡ some i)
    pub ids : location_ids state ≡ location_ids initial

  -- A prefix of the search, whose state holds the locations of the initial state.
  pub record IsKnown (observers : List (StmOpacityTransactionAttempt P)) (max : ℕ)
      (graph : StmOpacityOrderingGraph) (placed : List Bool) (order : List ℕ)
      (states : List (StmOpacityState P)) (state : StmOpacityState P) : Type 0 where
    pub is_prefix : IsPrefix committed observers max graph initial placed order states state
    pub ids : location_ids state ≡ location_ids initial

  -- Runs of the same transactions that lead to states with equal keys lead to equal values.
  abbrev pub KeysAreFaithful : Type 0
  KeysAreFaithful =
      (placed : List Bool) (a b : StmOpacityState P)
      → IsReached placed a
      → IsReached placed b
      → stm_opacity_search_state_key placed a ≡ stm_opacity_search_state_key placed b
      → (k : Str) → find_value k a ≡ find_value k b

  -- The graph has an edge for each pair in real-time order.
  abbrev pub HasRealTime : StmOpacityOrderingGraph → Type 0
  HasRealTime graph =
      (i j : ℕ) (x y : StmOpacityTransactionAttempt P)
      → get_elem? committed i ≡ some x
      → get_elem? committed j ≡ some y
      → i ≢ j
      → stm_opacity_precedes x y ≡ true
      → (i < length graph.must_precede) × (at graph.must_precede i j ≡ true)

  module _ (observers : List (StmOpacityTransactionAttempt P)) (max : ℕ)
      (graph : StmOpacityOrderingGraph) (forced : HasRealTime graph)
      (faithful : KeysAreFaithful) where
    abbrev Prefix : List Bool → List ℕ → List (StmOpacityState P) → StmOpacityState P → Type 0
    Prefix = IsKnown observers max graph

    prefix-IsReached :
        (placed : List Bool) (a : List ℕ) (states : List (StmOpacityState P))
        (state : StmOpacityState P)
        → Prefix placed a states state
        → IsReached placed state
    prefix-IsReached placed a states state h = record {
      order = a;
      states = states;
      run = h.is_prefix.run;
      once = h.is_prefix.distinct;
      flagged = h.is_prefix.flagged;
      listed = h.is_prefix.listed;
      ids = h.ids;
    }

    module _ (placed : List Bool) (a b : List ℕ) (states_a states_b : List (StmOpacityState P))
        (state_a state_b : StmOpacityState P) (ha : Prefix placed a states_a state_a)
        (hb : Prefix placed b states_b state_b)
        (same_key : stm_opacity_search_state_key placed state_a
          ≡ stm_opacity_search_state_key placed state_b)
        (rest : List ℕ) (h : IsSerialRun (b ++ rest)) where
      same_size : length a ≡ length b
      same_size =
          let l =
            length-le_of_listed a b ha.is_prefix.distinct
              (λ p i e. hb.is_prefix.listed i (ha.is_prefix.flagged p i e)) in
          let g =
            length-le_of_listed b a hb.is_prefix.distinct
              (λ p i e. ha.is_prefix.listed i (hb.is_prefix.flagged p i e)) in
          omega arith

      same_memory :
          memory_after committed (memory_of initial) b
          ≡ memory_after committed (memory_of initial) a
      same_memory =
          let fa = Run-Forward committed initial a states_a state_a ha.is_prefix.run in
          let fb = Run-Forward committed initial b states_b state_b hb.is_prefix.run in
          sym fb.final
          ∙ fun_ext (λ k. sym (
              faithful placed state_a state_b (prefix-IsReached placed a states_a state_a ha)
                (prefix-IsReached placed b states_b state_b hb) same_key k))
          ∙ fa.final

      -- A place in one order, seen in the other.
      at_front :
          (p i : ℕ)
          → get_elem? a p ≡ some i
          → (q : ℕ) × (q < length b) × (get_elem? (b ++ rest) q ≡ some i)
      at_front p i e =
          let (q, f) = hb.is_prefix.listed i (ha.is_prefix.flagged p i e) in
          (q, lt_of_get_elem? b q f, get_elem?-append b rest q f)

      at_back :
          (q i : ℕ) → get_elem? rest q ≡ some i → get_elem? (b ++ rest) (length b + q) ≡ some i
      at_back q i e = get_elem?-past b rest q ∙ e

      exchange-AreOnce : AreOnce (a ++ rest)
      exchange-AreOnce p q i e f = elim (get_elem?-append_cases a rest p e) [
        | inl e' ↦ elim (get_elem?-append_cases a rest q f) [
          | inl f' ↦ ha.is_prefix.distinct p q i e' f'
          | inr (q', s, f') ↦
              let (r, l, g) = at_front p i e' in
              let clash = h.complete.once r (length b + q') i g (at_back q' i f') in
              absurd (omega arith)
        ]
        | inr (p', s, e') ↦ elim (get_elem?-append_cases a rest q f) [
          | inl f' ↦
              let (r, l, g) = at_front q i f' in
              let clash = h.complete.once r (length b + p') i g (at_back p' i e') in
              absurd (omega arith)
          | inr (q', t, f') ↦
              let same =
                h.complete.once (length b + p') (length b + q') i (at_back p' i e')
                  (at_back q' i f') in
              omega arith
        ]
      ]

      exchange-KeepsPlaces : KeepsPlaces (a ++ rest)
      exchange-KeepsPlaces p q i j x y e f ei ej ne before =
          elim (get_elem?-append_cases a rest p e) [
            | inl e' ↦ elim (get_elem?-append_cases a rest q f) [
              | inl f' ↦
                  let (l, m) = forced i j x y ei ej ne before in
                  let (r, less, g) = ha.is_prefix.respects q i j f' l ne m in
                  subst (λ t. t < q) (ha.is_prefix.distinct r p i g e') less
              | inr (q', s, f') ↦ omega (arith, lt_of_get_elem? a p e', s)
            ]
            | inr (p', s, e') ↦ elim (get_elem?-append_cases a rest q f) [
              | inl f' ↦
                  let (r, l, g) = at_front q j f' in
                  let clash =
                    h.real_time (length b + p') r i j x y (at_back p' i e') g ei ej ne before in
                  absurd (omega arith)
              | inr (q', t, f') ↦
                  let less =
                    h.real_time (length b + p') (length b + q') i j x y (at_back p' i e')
                      (at_back q' j f') ei ej ne before in
                  omega arith
            ]
          ]

      pub exchange-IsSerialRun : IsSerialRun (a ++ rest)
      exchange-IsSerialRun =
          let (_, runs) = Runs-append→ committed (memory_of initial) b rest h.complete.runs in
          let fa = Run-Forward committed initial a states_a state_a ha.is_prefix.run in
          record {
            complete = record {
              full =
                  let size = h.complete.full in
                  omega (arith, length-append a rest, length-append b rest, same_size, size);
              once = exchange-AreOnce;
              runs =
                  Runs-append← committed (memory_of initial) a rest fa.runs
                    (subst (λ m. Runs committed m rest) same_memory runs);
            };
            real_time = exchange-KeepsPlaces;
          }
