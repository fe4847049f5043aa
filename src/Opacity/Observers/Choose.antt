-- ===== src/Opacity/Observers/Choose.antt =====
-- The loop that chooses the next observer.
use mathlib.Core.Option.{some_inj}
use lincheck_cpp.Prelude.{
  ℕ, ◌≡◌, refl, sym, ap, ==_iff, true, false, ◌==◌, Option, none, some, List, [], ◌∷◌, ◌⊎◌, inl,
  inr, Bool-cases, get_or, In, arith,
}
use lincheck_cpp.Value.{Payloads}
use lincheck_cpp.Opacity.History.{StmOpacityTransactionAttempt}
use lincheck_cpp.Opacity.Observers.{
  Assignment, is_assigned, Choice, dead, all_assigned, chosen, better, viable_count, choose_loop,
  stm_opacity_observer_prefix_compatible,
}

module _ {P : Payloads} (observers : List (StmOpacityTransactionAttempt P)) where
  pub viable_count-zero :
      (a : Assignment) (i : ℕ) (prefixes : List ℕ)
      → viable_count observers a i prefixes ≡ 0
      → (p : ℕ) → In p prefixes
      → stm_opacity_observer_prefix_compatible observers a i p ≡ false
  unfolding viable_count
  viable_count-zero a i [] z p h = absurd h
  viable_count-zero a i (q ∷ prefixes) z p (inl e) = ground arith
  viable_count-zero a i (q ∷ prefixes) z p (inr h) =
      viable_count-zero a i prefixes (ground arith) p h

  -- The observer is not assigned and has no viable prefix.
  pub record IsDead (candidates : List (List ℕ)) (a : Assignment) (i : ℕ) : Type 0 where
    pub unassigned : is_assigned a i ≡ false
    pub none_viable : viable_count observers a i (get_or candidates i []) ≡ 0

  -- What the rest of the loop, over the indices `is`, says; `best` is the one chosen so far.
  abbrev pub ChoiceCorrect : List (List ℕ) → Assignment → Option (ℕ × ℕ) → List ℕ → Choice → Type 0
  ChoiceCorrect candidates a best is dead = (i : ℕ) × In i is × IsDead candidates a i
  ChoiceCorrect candidates a best is all_assigned =
      (best ≡ none) × ((i : ℕ) → In i is → is_assigned a i ≡ true)
  ChoiceCorrect candidates a best is (chosen i) =
      ((c : ℕ) × (best ≡ some (i, c))) ⊎ (In i is × (is_assigned a i ≡ false))

  choose_loop-assigned :
      (candidates : List (List ℕ)) (a : Assignment) (best : Option (ℕ × ℕ)) (i : ℕ) (is : List ℕ)
      → is_assigned a i ≡ true
      → choose_loop observers candidates a best (i ∷ is)
        ≡ choose_loop observers candidates a best is
  unfolding choose_loop
  choose_loop-assigned candidates a none i is e = rw (e, choose_loop) refl
  choose_loop-assigned candidates a (some b) i is e = rw (e, choose_loop) refl

  choose_loop-dead :
      (candidates : List (List ℕ)) (a : Assignment) (best : Option (ℕ × ℕ)) (i : ℕ) (is : List ℕ)
      → IsDead candidates a i
      → choose_loop observers candidates a best (i ∷ is) ≡ dead
  unfolding choose_loop
  choose_loop-dead candidates a none i is d = rw (d.unassigned, d.none_viable, choose_loop) refl
  choose_loop-dead candidates a (some b) i is d = rw (d.unassigned, d.none_viable, choose_loop) refl

  choose_loop-viable :
      (candidates : List (List ℕ)) (a : Assignment) (best : Option (ℕ × ℕ)) (i : ℕ) (is : List ℕ)
      → is_assigned a i ≡ false
      → (viable_count observers a i (get_or candidates i []) == 0) ≡ false
      → choose_loop observers candidates a best (i ∷ is)
        ≡ choose_loop observers candidates a
            (better i (viable_count observers a i (get_or candidates i [])) best)
            is
  unfolding choose_loop
  choose_loop-viable candidates a none i is u v = rw (u, v, choose_loop) refl
  choose_loop-viable candidates a (some b) i is u v = rw (u, v, choose_loop) refl

  better_cases :
      (i count : ℕ) (best : Option (ℕ × ℕ)) (j c : ℕ)
      → better i count best ≡ some (j, c)
      → (j ≡ i) ⊎ (best ≡ some (j, c))
  better_cases i count none j c e = inl (sym (ap (λ (p : ℕ × ℕ). p.0) (some_inj.0 e)))
  better_cases i count (some (k, d)) j c e = ground arith

  better-some : (i count : ℕ) (best : Option (ℕ × ℕ)) → better i count best ≡ none → ⊥
  better-some i count none e = cc
  better-some i count (some (k, d)) e = ground arith

  ChoiceCorrect-assigned :
      (candidates : List (List ℕ)) (a : Assignment) (best : Option (ℕ × ℕ)) (i : ℕ) (is : List ℕ)
      → is_assigned a i ≡ true
      → (c : Choice) → ChoiceCorrect candidates a best is c
      → ChoiceCorrect candidates a best (i ∷ is) c
  ChoiceCorrect-assigned candidates a best i is e dead (j, h, d) = (j, inr h, d)
  ChoiceCorrect-assigned candidates a best i is e all_assigned (b, all) =
      (b, λ j. elim [ inl y ↦ rw y e | inr h ↦ all j h ])
  ChoiceCorrect-assigned candidates a best i is e (chosen j) (inl b) = inl b
  ChoiceCorrect-assigned candidates a best i is e (chosen j) (inr (h, u)) = inr (inr h, u)

  ChoiceCorrect-viable :
      (candidates : List (List ℕ)) (a : Assignment) (best : Option (ℕ × ℕ)) (i count : ℕ)
      (is : List ℕ)
      → is_assigned a i ≡ false
      → (c : Choice) → ChoiceCorrect candidates a (better i count best) is c
      → ChoiceCorrect candidates a best (i ∷ is) c
  ChoiceCorrect-viable candidates a best i count is u dead (j, h, d) = (j, inr h, d)
  ChoiceCorrect-viable candidates a best i count is u all_assigned (b, all) =
      absurd (better-some i count best b)
  ChoiceCorrect-viable candidates a best i count is u (chosen j) (inl (c, b)) =
      elim (better_cases i count best j c b) [ inl e ↦ inr (inl e, rw e u) | inr e ↦ inl (c, e) ]
  ChoiceCorrect-viable candidates a best i count is u (chosen j) (inr (h, v)) = inr (inr h, v)

  -- The loop finds an observer without viable prefixes, finds that all are assigned, or chooses one
  -- that is not.
  pub choose_loop_lem :
      (candidates : List (List ℕ)) (a : Assignment) (best : Option (ℕ × ℕ)) (is : List ℕ)
      → ChoiceCorrect candidates a best is (choose_loop observers candidates a best is)
  unfolding choose_loop
  choose_loop_lem candidates a none [] = (refl, λ i h. absurd h)
  choose_loop_lem candidates a (some (i, c)) [] = inl (c, refl)
  choose_loop_lem candidates a best (i ∷ is) = elim (Bool-cases (is_assigned a i)) [
    | inl e ↦
        rw (choose_loop-assigned candidates a best i is e)
          (ChoiceCorrect-assigned candidates a best i is e _ (choose_loop_lem candidates a best is))
    | inr u ↦ elim (Bool-cases (count == 0)) [
      | inl z ↦
          let d : IsDead candidates a i = record {
            unassigned = u;
            none_viable = (==_iff count 0).0 z;
          } in
          rw (choose_loop-dead candidates a best i is d) (i, inl refl, d)
      | inr v ↦ rw (choose_loop-viable candidates a best i is u v) (
          ChoiceCorrect-viable candidates a best i count is u _
            (choose_loop_lem candidates a (better i count best) is))
    ]
  ]
    where
      count : ℕ
      count = viable_count observers a i (get_or candidates i [])
