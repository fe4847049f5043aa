-- ===== src/Opacity/Observers/Solve.antt =====
-- The search for observer prefixes, against the solutions.
use lincheck_cpp.Prelude.{
  open_count-set, open_count, ℕ, zero, suc, ◌<◌, ◌≡◌, refl, subst, true, false, none, List, [], ◌∷◌,
  inl, inr, Bool-cases, length, get_or, In, range_from, In-range_from, range_from_bounds, arith,
}
use lincheck_cpp.Value.{Payloads}
use lincheck_cpp.Opacity.History.{StmOpacityTransactionAttempt}
use lincheck_cpp.Opacity.Observers.{
  Assignment, is_assigned, prefix_of, assign, Choice, dead, all_assigned, chosen, Found, solved,
  unsolved, out_of_fuel, try_prefixes, choose_loop, search_stm_opacity_observer_prefixes,
  stm_opacity_observer_prefix_compatible,
}
use lincheck_cpp.Opacity.Observers.Choose.{
  ChoiceCorrect, IsDead, viable_count-zero, choose_loop_lem,
}
use lincheck_cpp.Opacity.Observers.Partial.{
  IsSolution, IsPartial, Extends, IsPartial-complete, IsSolution-compatible, IsPartial-assign,
  Extends-assign, Extends-before,
}

module _ {P : Payloads} (observers : List (StmOpacityTransactionAttempt P))
    (candidates : List (List ℕ)) where
  -- What the search says of the solutions that extend an assignment.
  abbrev pub FoundCorrect : Assignment → Found → Type 0
  FoundCorrect a (solved b) =
      IsSolution observers candidates (prefix_of b) × Extends observers candidates (prefix_of b) a
  FoundCorrect a unsolved =
      (prefix : ℕ → ℕ)
      → IsSolution observers candidates prefix
      → Extends observers candidates prefix a
      → ⊥
  FoundCorrect a out_of_fuel = ⊥

  -- The same of the solutions that give observer i one of the listed prefixes.
  abbrev TryCorrect : Assignment → ℕ → List ℕ → Found → Type 0
  TryCorrect a i prefixes (solved b) = FoundCorrect a (solved b)
  TryCorrect a i prefixes unsolved =
      (prefix : ℕ → ℕ)
      → IsSolution observers candidates prefix
      → Extends observers candidates prefix a
      → In (prefix i) prefixes
      → ⊥
  TryCorrect a i prefixes out_of_fuel = ⊥

  module _ (search : Assignment → Found) (a : Assignment) (i : ℕ) where
    try-incompatible :
        (p : ℕ) (ps : List ℕ)
        → stm_opacity_observer_prefix_compatible observers a i p ≡ false
        → try_prefixes observers search a i (p ∷ ps) ≡ try_prefixes observers search a i ps
    unfolding try_prefixes
    try-incompatible p ps e = rw (e, try_prefixes) refl

    -- What follows the recursive call.
    abbrev or_else : Found → Found → Found
    or_else unsolved rest = rest
    or_else found rest = found

    try-compatible :
        (p : ℕ) (ps : List ℕ)
        → stm_opacity_observer_prefix_compatible observers a i p ≡ true
        → try_prefixes observers search a i (p ∷ ps)
          ≡ or_else (search (assign a i p)) (try_prefixes observers search a i ps)
    unfolding try_prefixes
    try-compatible p ps e = ground arith

    module _ (h : IsPartial observers candidates a) (l : i < length observers)
        (u : is_assigned a i ≡ false)
        (correct : (p : ℕ)
          → In p (get_or candidates i [])
          → stm_opacity_observer_prefix_compatible observers a i p ≡ true
          → FoundCorrect (assign a i p) (search (assign a i p))) where
      skip_correct :
          (p : ℕ) (ps : List ℕ)
          → stm_opacity_observer_prefix_compatible observers a i p ≡ false
          → (f : Found) → TryCorrect a i ps f
          → TryCorrect a i (p ∷ ps) f
      skip_correct p ps e (solved b) t = t
      skip_correct p ps e unsolved t = λ prefix s ext. elim [
        | inl q ↦
            let c = IsSolution-compatible observers candidates a prefix s ext i l in
            let c' =
              subst (λ n. stm_opacity_observer_prefix_compatible observers a i n ≡ true) q c in
            cc
        | inr m ↦ t prefix s ext m
      ]
      skip_correct p ps e out_of_fuel t = elim t [ ]

      or_else_correct :
          (p : ℕ) (ps : List ℕ) (found rest : Found)
          → FoundCorrect (assign a i p) found
          → TryCorrect a i ps rest
          → TryCorrect a i (p ∷ ps) (or_else found rest)
      or_else_correct p ps (solved b) rest (s, ext) t =
          (s, Extends-before observers candidates a i p (prefix_of b) h u ext)
      or_else_correct p ps unsolved (solved b) unfit t = t
      or_else_correct p ps unsolved unsolved unfit t = λ prefix s ext. elim [
        | inl q ↦ unfit prefix s (Extends-assign observers candidates a i p prefix h l q ext)
        | inr m ↦ t prefix s ext m
      ]
      or_else_correct p ps out_of_fuel rest found t = elim found [ ]
      or_else_correct p ps unsolved out_of_fuel unfit t = elim t [ ]

      pub try_correct :
          (ps : List ℕ)
          → ((p : ℕ) → In p ps → In p (get_or candidates i []))
          → TryCorrect a i ps (try_prefixes observers search a i ps)
      unfolding try_prefixes
      try_correct [] sub = λ prefix s ext m. absurd m
      try_correct (p ∷ ps) sub =
          let rest = try_correct ps (λ q m. sub q (inr m)) in
          elim (Bool-cases (stm_opacity_observer_prefix_compatible observers a i p)) [
            | inl c ↦ rw (try-compatible p ps c) (
                or_else_correct p ps (search (assign a i p)) _ (correct p (sub p (inl refl)) c)
                  rest)
            | inr n ↦ rw (try-incompatible p ps n) (skip_correct p ps n _ rest)
          ]

  -- One round of the search, where the recursive calls are right.
  module _ (search : Assignment → Found) (a : Assignment) (h : IsPartial observers candidates a)
      (correct : (i p : ℕ)
        → i < length observers
        → is_assigned a i ≡ false
        → IsPartial observers candidates (assign a i p)
        → FoundCorrect (assign a i p) (search (assign a i p))) where
    abbrev indices : List ℕ
    indices = range_from 0 (length observers)

    index_lt : (i : ℕ) → In i indices → i < length observers
    index_lt i m = omega (arith, range_from_bounds i 0 (length observers) m)

    dead_correct :
        (i : ℕ) → i < length observers → IsDead observers candidates a i → FoundCorrect a unsolved
    dead_correct i l d = λ prefix s ext.
        let viable = IsSolution-compatible observers candidates a prefix s ext i l in
        let unviable =
          viable_count-zero observers a i (get_or candidates i []) d.none_viable (prefix i)
            (s.member i l) in
        cc

    -- One of the chosen observer's candidates has to be its prefix.
    all_tried :
        (i : ℕ)
        → i < length observers
        → (found : Found) → TryCorrect a i (get_or candidates i []) found
        → FoundCorrect a found
    all_tried i l (solved b) t = t
    all_tried i l unsolved t = λ prefix s ext. t prefix s ext (s.member i l)
    all_tried i l out_of_fuel t = t

    round_correct :
        (c : Choice)
        → ChoiceCorrect observers candidates a none indices c
        → FoundCorrect a (elim c [
          | dead ↦ unsolved
          | all_assigned ↦ solved a
          | chosen i ↦ try_prefixes observers search a i (get_or candidates i [])
        ])
    round_correct dead (i, m, d) = dead_correct i (index_lt i m) d
    round_correct all_assigned (b, all) = (
      IsPartial-complete observers candidates a h
          (λ i l. all i (In-range_from i 0 (length observers) (omega arith) (omega arith))),
      λ i t. refl,
    )
    round_correct (chosen i) (inl (c, b)) = absurd cc
    round_correct (chosen i) (inr (m, u)) = all_tried i l _ (
        try_correct search a i h l u
          (λ p member c. correct i p l u (IsPartial-assign observers candidates a i p h l member c))
          (get_or candidates i []) (λ p member. member))
      where
        l : i < length observers
        l = index_lt i m

  -- From a partial assignment and with more fuel than observers are open, the search ends within
  -- its fuel. It finds a solution that extends the assignment, or there is none.
  pub search_lem :
      (fuel : ℕ) (a : Assignment)
      → IsPartial observers candidates a
      → open_count a.assigned < fuel
      → FoundCorrect a (search_stm_opacity_observer_prefixes observers candidates fuel a)
  unfolding search_stm_opacity_observer_prefixes
  search_lem zero a h f = elim f [ ]
  search_lem (suc fuel) a h f =
      round_correct (search_stm_opacity_observer_prefixes observers candidates fuel) a h
        (λ i p l u h'.
          search_lem fuel (assign a i p) h'
            (omega (arith, open_count-set a.assigned i (omega (arith, h.flags)) u)))
        (choose_loop observers candidates a none (range_from 0 (length observers)))
        (choose_loop_lem observers candidates a none (range_from 0 (length observers)))
