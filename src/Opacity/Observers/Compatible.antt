-- ===== src/Opacity/Observers/Compatible.antt =====
-- The tests on prefixes: what `stm_opacity_prefix_respects_real_time` and
-- `stm_opacity_observer_prefix_compatible` find out.
use mathlib.Core.Option.{some_inj}
use lincheck_cpp.Prelude.{
  ℕ, zero, suc, ◌+◌, ◌≤◌, ◌<◌, ◌≡◌, ◌↔◌, refl, subst, true, some, List, [], ◌∷◌, get_elem?, arith,
}
use lincheck_cpp.Value.{Payloads}
use lincheck_cpp.Opacity.History.{StmOpacityTransactionAttempt, stm_opacity_precedes}
use lincheck_cpp.Opacity.Observers.{
  Assignment, is_assigned, prefix_of, respects_loop, stm_opacity_prefix_respects_real_time,
  conflicts, compatible_loop, stm_opacity_observer_prefix_compatible,
}

-- What the committed transaction at index i asks of an observer's prefix.
abbrev pub Fits :
    {P : Payloads}
    → StmOpacityTransactionAttempt P
    → ℕ
    → ℕ
    → StmOpacityTransactionAttempt P
    → Type 0
Fits observer size i committed =
    (stm_opacity_precedes committed observer ≡ true → i < size)
    × (stm_opacity_precedes observer committed ≡ true → size ≤ i)

module _ {P : Payloads} (observer : StmOpacityTransactionAttempt P) where
  respects_loop-cons :
      (size i : ℕ) (x : StmOpacityTransactionAttempt P)
      (order : List (StmOpacityTransactionAttempt P))
      → (respects_loop observer size i (x ∷ order) ≡ true)
        ↔ Fits observer size i x × (respects_loop observer size (suc i) order ≡ true)
  unfolding respects_loop
  respects_loop-cons size i x order = ground arith

  respects_loop→ :
      (size i : ℕ) (order : List (StmOpacityTransactionAttempt P))
      → respects_loop observer size i order ≡ true
      → (k : ℕ) (c : StmOpacityTransactionAttempt P) → get_elem? order k ≡ some c
      → Fits observer size (i + k) c
  respects_loop→ size i [] h k c e = cc
  respects_loop→ size i (x ∷ order) h zero c e =
      subst (λ c. Fits observer size (i + 0) c) (some_inj.0 e)
        (subst (λ j. Fits observer size j x) (omega arith)
          ((respects_loop-cons size i x order).0 h).0)
  respects_loop→ size i (x ∷ order) h (suc k) c e =
      subst (λ j. Fits observer size j c) (omega arith)
        (respects_loop→ size (suc i) order ((respects_loop-cons size i x order).0 h).1 k c e)

  respects_loop← :
      (size i : ℕ) (order : List (StmOpacityTransactionAttempt P))
      → ((k : ℕ) (c : StmOpacityTransactionAttempt P)
          → get_elem? order k ≡ some c
          → Fits observer size (i + k) c)
      → respects_loop observer size i order ≡ true
  unfolding respects_loop
  respects_loop← size i [] h = refl
  respects_loop← size i (x ∷ order) h = (respects_loop-cons size i x order).1 (
    subst (λ j. Fits observer size j x) (omega arith) (h 0 x refl),
    respects_loop← size (suc i) order
        (λ k c e. subst (λ j. Fits observer size j c) (omega arith) (h (suc k) c e)),
  )

-- A prefix of the committed order respects the real-time order of an observer exactly if it holds
-- every transaction that precedes the observer and none that the observer precedes.
pub prefix_respects_iff :
    {P : Payloads} (observer : StmOpacityTransactionAttempt P)
    (order : List (StmOpacityTransactionAttempt P)) (size : ℕ)
    → (stm_opacity_prefix_respects_real_time observer order size ≡ true) ↔ (
        (i : ℕ) (c : StmOpacityTransactionAttempt P)
        → get_elem? order i ≡ some c
        → Fits observer size i c)
unfolding stm_opacity_prefix_respects_real_time
prefix_respects_iff observer order size = (
  λ h i c e.
      subst (λ j. Fits observer size j c) (omega arith)
        (respects_loop→ observer size 0 order h i c e),
  λ h.
      respects_loop← observer size 0 order
        (λ k c e. subst (λ j. Fits observer size j c) (omega arith) (h k c e)),
)

module _ {P : Payloads} (observers : List (StmOpacityTransactionAttempt P)) where
  -- Prefixes p of x and q of y agree with the real-time order of x and y.
  abbrev pub Ordered :
      StmOpacityTransactionAttempt P → ℕ → StmOpacityTransactionAttempt P → ℕ → Type 0
  Ordered x p y q =
      (stm_opacity_precedes x y ≡ true → p ≤ q) × (stm_opacity_precedes y x ≡ true → q ≤ p)

  compatible_loop-cons :
      (a : Assignment) (x : StmOpacityTransactionAttempt P) (p i : ℕ)
      (y : StmOpacityTransactionAttempt P) (others : List (StmOpacityTransactionAttempt P))
      → (compatible_loop observers a x p i (y ∷ others) ≡ true)
        ↔ (is_assigned a i ≡ true → Ordered y (prefix_of a i) x p)
          × (compatible_loop observers a x p (suc i) others ≡ true)
  unfolding compatible_loop conflicts
  compatible_loop-cons a x p i y others = ground arith

  compatible_loop→ :
      (a : Assignment) (x : StmOpacityTransactionAttempt P) (p i : ℕ)
      (others : List (StmOpacityTransactionAttempt P))
      → compatible_loop observers a x p i others ≡ true
      → (k : ℕ) (y : StmOpacityTransactionAttempt P) → get_elem? others k ≡ some y
      → is_assigned a (i + k) ≡ true
      → Ordered y (prefix_of a (i + k)) x p
  compatible_loop→ a x p i [] h k y e = cc
  compatible_loop→ a x p i (z ∷ others) h zero y e =
      subst (λ y. is_assigned a (i + 0) ≡ true → Ordered y (prefix_of a (i + 0)) x p) (some_inj.0 e)
        (subst (λ j. is_assigned a j ≡ true → Ordered z (prefix_of a j) x p) (omega arith)
          ((compatible_loop-cons a x p i z others).0 h).0)
  compatible_loop→ a x p i (z ∷ others) h (suc k) y e =
      subst (λ j. is_assigned a j ≡ true → Ordered y (prefix_of a j) x p) (omega arith)
        (compatible_loop→ a x p (suc i) others ((compatible_loop-cons a x p i z others).0 h).1 k y
          e)

  compatible_loop← :
      (a : Assignment) (x : StmOpacityTransactionAttempt P) (p i : ℕ)
      (others : List (StmOpacityTransactionAttempt P))
      → ((k : ℕ) (y : StmOpacityTransactionAttempt P)
          → get_elem? others k ≡ some y
          → is_assigned a (i + k) ≡ true
          → Ordered y (prefix_of a (i + k)) x p)
      → compatible_loop observers a x p i others ≡ true
  unfolding compatible_loop
  compatible_loop← a x p i [] h = refl
  compatible_loop← a x p i (z ∷ others) h = (compatible_loop-cons a x p i z others).1 (
    subst (λ j. is_assigned a j ≡ true → Ordered z (prefix_of a j) x p) (omega arith) (h 0 z refl),
    compatible_loop← a x p (suc i) others (λ k y e.
        subst (λ j. is_assigned a j ≡ true → Ordered y (prefix_of a j) x p) (omega arith)
          (h (suc k) y e)),
  )

  -- A prefix is compatible exactly if it agrees with those of all assigned observers.
  pub compatible_iff :
      (a : Assignment) (i p : ℕ) (x : StmOpacityTransactionAttempt P)
      → get_elem? observers i ≡ some x
      → (stm_opacity_observer_prefix_compatible observers a i p ≡ true) ↔ (
          (j : ℕ) (y : StmOpacityTransactionAttempt P)
          → get_elem? observers j ≡ some y
          → is_assigned a j ≡ true
          → Ordered y (prefix_of a j) x p)
  unfolding stm_opacity_observer_prefix_compatible
  compatible_iff a i p x e =
      rw (e, stm_opacity_observer_prefix_compatible)
        (
          λ h j y e. subst (At y) (omega arith) (compatible_loop→ a x p 0 observers h j y e),
          λ h. compatible_loop← a x p 0 observers (λ k y e. subst (At y) (omega arith) (h k y e)),
        )
    where
      At : StmOpacityTransactionAttempt P → ℕ → Type 0
      At y j = is_assigned a j ≡ true → Ordered y (prefix_of a j) x p
