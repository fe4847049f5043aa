-- ===== src/Opacity/Placement/Decide.antt =====
-- `verify_stm_opacity_observers` against the placements that it looks for.
use mathlib.Core.Option.{some_inj}
use lincheck_cpp.Prelude.{
  open_count-le, ℕ, zero, suc, ◌≤◌, ◌≡◌, ◌↔◌, refl, sym, subst, ap, ◌∙◌, Bool, true, false, Option,
  none, some, List, [], ◌∷◌, length, get_elem?, get_or, In, length-replicate, get_or-replicate,
  lt_of_get_elem?, get_elem?-lt, arith,
}
use lincheck_cpp.Value.{Payloads}
use lincheck_cpp.Opacity.History.{
  StmOpacityTransactionAttempt, StmOpacityState, stm_opacity_precedes,
}
use lincheck_cpp.Opacity.Observers.{
  prefix_of, is_assigned, Found, solved, unsolved, out_of_fuel,
  search_stm_opacity_observer_prefixes,
}
use lincheck_cpp.Opacity.Observers.Partial.{IsSolution, IsPartial}
use lincheck_cpp.Opacity.Observers.Solve.{FoundCorrect, search_lem}
use lincheck_cpp.Opacity.Placement.{
  candidate_loop, candidate_prefixes, start, returned, verify_stm_opacity_observers,
}
use lincheck_cpp.Opacity.Placement.Candidates.{CanRead, candidate_iff}

module _ {P : Payloads} where
  pub start-IsPartial :
      (observers : List (StmOpacityTransactionAttempt P)) (candidates : List (List ℕ))
      → IsPartial observers candidates (start (length observers))
  start-IsPartial observers candidates = record {
    flags = length-replicate (length observers) false;
    slots = length-replicate (length observers) 0;
    member = λ i t. absurd (none_assigned i t);
    ordered = λ i j x y ex ey t t' r. absurd (none_assigned i t);
  }
    where
      none_assigned : (i : ℕ) → is_assigned (start (length observers)) i ≡ true → ⊥
      none_assigned i t = let f = get_or-replicate (length observers) i false in cc

module _ {P : Payloads} (order : List (StmOpacityTransactionAttempt P))
    (states : List (StmOpacityState P)) where
  -- A prefix for each observer, that it can read, in the observers' own real-time order.
  pub record IsPlacement (observers : List (StmOpacityTransactionAttempt P)) (prefix : ℕ → ℕ)
      : Type 0 where
    pub can_read :
        (i : ℕ) (x : StmOpacityTransactionAttempt P)
        → get_elem? observers i ≡ some x
        → CanRead order states x (prefix i)
    pub ordered :
        (i j : ℕ) (x y : StmOpacityTransactionAttempt P)
        → get_elem? observers i ≡ some x
        → get_elem? observers j ≡ some y
        → stm_opacity_precedes x y ≡ true
        → prefix i ≤ prefix j

  -- What the loop over the observers finds.
  abbrev CandidatesCorrect : List (StmOpacityTransactionAttempt P) → Option (List (List ℕ)) → Type 0
  CandidatesCorrect observers none =
      (i : ℕ) × (x : StmOpacityTransactionAttempt P) × (get_elem? observers i ≡ some x)
      × ((q : ℕ) → CanRead order states x q → ⊥)
  CandidatesCorrect observers (some candidates) =
      (i : ℕ) (x : StmOpacityTransactionAttempt P)
      → get_elem? observers i ≡ some x
      → get_or candidates i [] ≡ candidate_loop order states x 0 states

  candidate_prefixes_lem :
      (observers : List (StmOpacityTransactionAttempt P))
      → CandidatesCorrect observers (candidate_prefixes order states observers)
  unfolding candidate_prefixes
  candidate_prefixes_lem [] = λ i x e. cc
  candidate_prefixes_lem (x ∷ observers) =
      first (candidate_loop order states x 0 states) (candidate_prefixes order states observers)
        refl (candidate_prefixes_lem observers)
    where
      first :
          (ps : List ℕ) (rest : Option (List (List ℕ)))
          → candidate_loop order states x 0 states ≡ ps
          → CandidatesCorrect observers rest
          → CandidatesCorrect (x ∷ observers) (elim ps [
            | [] ↦ none
            | p ∷ ps ↦ elim rest [ none ↦ none | some candidates ↦ some ((p ∷ ps) ∷ candidates) ]
          ])
      first [] rest e h = (0, x, refl, λ q c. subst (In q) e ((candidate_iff order states x q).1 c))
      first (p ∷ ps) none e (i, y, get, h) = (suc i, y, get, h)
      first (p ∷ ps) (some candidates) e h = at
        where
          at :
              (i : ℕ) (y : StmOpacityTransactionAttempt P)
              → get_elem? (x ∷ observers) i ≡ some y
              → get_or ((p ∷ ps) ∷ candidates) i [] ≡ candidate_loop order states y 0 states
          at zero y get = sym e ∙ ap (λ x. candidate_loop order states x 0 states) (some_inj.0 get)
          at (suc i) y get = h i y get

  module _ (observers : List (StmOpacityTransactionAttempt P)) (candidates : List (List ℕ))
      (h : CandidatesCorrect observers (some candidates)) where
    IsSolution-iff :
        (prefix : ℕ → ℕ) → IsSolution observers candidates prefix ↔ IsPlacement observers prefix
    IsSolution-iff prefix = (
      λ s. record {
        can_read = λ i x e.
            (candidate_iff order states x (prefix i)).0
              (subst (In (prefix i)) (h i x e) (s.member i (lt_of_get_elem? observers i e)));
        ordered = s.ordered;
      },
      λ s. record {
        member = λ i l.
            let (x, e) = get_elem?-lt observers i l in
            subst (In (prefix i)) (sym (h i x e))
              ((candidate_iff order states x (prefix i)).1 (s.can_read i x e));
        ordered = s.ordered;
      },
    )

  -- What `verify_stm_opacity_observers` says of the placements.
  abbrev pub ObserversCorrect : List (StmOpacityTransactionAttempt P) → Option Bool → Type 0
  ObserversCorrect observers none = ⊥
  ObserversCorrect observers (some true) = (prefix : ℕ → ℕ) × IsPlacement observers prefix
  ObserversCorrect observers (some false) = (prefix : ℕ → ℕ) → IsPlacement observers prefix → ⊥

  -- `verify_stm_opacity_observers` returns within its fuel: true exactly if each observer can be
  -- given a prefix of the committed order whose state its reads agree with, such that the real-time
  -- order of the observers with the committed transactions and among each other is kept.
  pub verify-ObserversCorrect :
      (observers : List (StmOpacityTransactionAttempt P))
      → ObserversCorrect observers (verify_stm_opacity_observers observers order states)
  unfolding verify_stm_opacity_observers
  verify-ObserversCorrect observers =
      answer (candidate_prefixes order states observers) (candidate_prefixes_lem observers)
    where
      searched :
          (candidates : List (List ℕ))
          → CandidatesCorrect observers (some candidates)
          → (f : Found) → FoundCorrect observers candidates (start (length observers)) f
          → ObserversCorrect observers (returned f)
      searched candidates h (solved b) (s, ext) =
          (prefix_of b, (IsSolution-iff observers candidates h (prefix_of b)).0 s)
      searched candidates h unsolved n = λ prefix s.
          n prefix ((IsSolution-iff observers candidates h prefix).1 s)
            (λ i t. absurd (let f = get_or-replicate (length observers) i false in cc))
      searched candidates h out_of_fuel n = n

      answer :
          (c : Option (List (List ℕ)))
          → CandidatesCorrect observers c
          → ObserversCorrect observers (elim c [
            | none ↦ some false
            | some candidates ↦ returned (
                search_stm_opacity_observer_prefixes observers candidates
                  (suc (length observers))
                  (start (length observers)))
          ])
      answer none (i, x, e, h) = λ prefix s. h (prefix i) (s.can_read i x e)
      answer (some candidates) h = searched candidates h _ (
          search_lem observers candidates (suc (length observers)) (start (length observers))
            (start-IsPartial observers candidates)
            (omega (
              arith,
              open_count-le (start (length observers)).assigned,
              length-replicate (length observers) false,
            )))
