-- ===== src/Opacity/Observers/Partial.antt =====
-- Partial assignments of prefixes to observers, and the solutions that extend them.
use native.Mathlib.Decide.{ℕ_discrete}
use lincheck_cpp.Prelude.{
  ℕ, ◌≤◌, ◌<◌, ◌≡◌, ◌≢◌, sym, subst, ap, ◌∙◌, true, false, some, List, [], ◌⊎◌, inl, inr, length,
  get_elem?, get_or, In, length-set, get_or-set_self, get_or-set_ne, lt_of_get_elem?, get_elem?-lt,
  arith,
}
use lincheck_cpp.Value.{Payloads}
use lincheck_cpp.Opacity.History.{StmOpacityTransactionAttempt, stm_opacity_precedes}
use lincheck_cpp.Opacity.Observers.{
  Assignment, is_assigned, prefix_of, assign, stm_opacity_observer_prefix_compatible,
}
use lincheck_cpp.Opacity.Observers.Compatible.{Ordered, compatible_iff}

module _ {P : Payloads} (observers : List (StmOpacityTransactionAttempt P))
    (candidates : List (List ℕ)) where
  -- A prefix for each observer, from its candidates, that keeps the real-time order.
  pub record IsSolution (prefix : ℕ → ℕ) : Type 0 where
    pub member : (i : ℕ) → i < length observers → In (prefix i) (get_or candidates i [])
    pub ordered :
        (i j : ℕ) (x y : StmOpacityTransactionAttempt P)
        → get_elem? observers i ≡ some x
        → get_elem? observers j ≡ some y
        → stm_opacity_precedes x y ≡ true
        → prefix i ≤ prefix j

  pub record IsPartial (a : Assignment) : Type 0 where
    pub flags : length a.assigned ≡ length observers
    pub slots : length a.prefixes ≡ length observers
    pub member : (i : ℕ) → is_assigned a i ≡ true → In (prefix_of a i) (get_or candidates i [])
    pub ordered :
        (i j : ℕ) (x y : StmOpacityTransactionAttempt P)
        → get_elem? observers i ≡ some x
        → get_elem? observers j ≡ some y
        → is_assigned a i ≡ true
        → is_assigned a j ≡ true
        → stm_opacity_precedes x y ≡ true
        → prefix_of a i ≤ prefix_of a j

  abbrev pub Extends : (ℕ → ℕ) → Assignment → Type 0
  Extends prefix a = (i : ℕ) → is_assigned a i ≡ true → prefix i ≡ prefix_of a i

  -- A partial assignment of all observers is a solution.
  pub IsPartial-complete :
      (a : Assignment)
      → IsPartial a
      → ((i : ℕ) → i < length observers → is_assigned a i ≡ true)
      → IsSolution (prefix_of a)
  IsPartial-complete a h all = record {
    member = λ i l. h.member i (all i l);
    ordered = λ i j x y ex ey.
        h.ordered i j x y ex ey (all i (lt_of_get_elem? observers i ex))
          (all j (lt_of_get_elem? observers j ey));
  }

  -- Whatever a solution gives an open observer is compatible with what is assigned.
  pub IsSolution-compatible :
      (a : Assignment) (prefix : ℕ → ℕ)
      → IsSolution prefix
      → Extends prefix a
      → (i : ℕ) → i < length observers
      → stm_opacity_observer_prefix_compatible observers a i (prefix i) ≡ true
  IsSolution-compatible a prefix h ext i l =
      let (x, e) = get_elem?-lt observers i l in
      (compatible_iff observers a i (prefix i) x e).1 (λ j y ey t. (
        λ r. subst (λ n. n ≤ prefix i) (ext j t) (h.ordered j i y x ey e r),
        λ r. subst (λ n. prefix i ≤ n) (ext j t) (h.ordered i j x y e ey r),
      ))

  module _ (a : Assignment) (i p : ℕ) where
    -- What is assigned after observer i is given p: i itself, or what was assigned before.
    assigned_cases :
        IsPartial a
        → i < length observers
        → (j : ℕ) → is_assigned (assign a i p) j ≡ true
        → ((j ≡ i) × (prefix_of (assign a i p) j ≡ p))
          ⊎ ((is_assigned a j ≡ true) × (prefix_of (assign a i p) j ≡ prefix_of a j))
    assigned_cases h l j t = elim (ℕ_discrete i j) [
      | yes e ↦ inl (
        sym e,
        subst (λ k. prefix_of (assign a i p) k ≡ p) e
            (get_or-set_self a.prefixes i p 0 (omega (arith, h.slots))),
      )
      | no ne ↦ inr (
        sym (get_or-set_ne a.assigned i j true false ne) ∙ t,
        get_or-set_ne a.prefixes i j p 0 ne,
      )
    ]

    module _ (h : IsPartial a) (l : i < length observers) (m : In p (get_or candidates i []))
        (c : stm_opacity_observer_prefix_compatible observers a i p ≡ true) where
      assign-member :
          (j : ℕ)
          → is_assigned (assign a i p) j ≡ true
          → In (prefix_of (assign a i p) j) (get_or candidates j [])
      assign-member j t = elim (assigned_cases h l j t) [
        | inl (e, q) ↦ rw (q, e) m
        | inr (t', q) ↦ rw q (h.member j t')
      ]

      assign-ordered :
          (j k : ℕ) (x y : StmOpacityTransactionAttempt P)
          → get_elem? observers j ≡ some x
          → get_elem? observers k ≡ some y
          → is_assigned (assign a i p) j ≡ true
          → is_assigned (assign a i p) k ≡ true
          → stm_opacity_precedes x y ≡ true
          → prefix_of (assign a i p) j ≤ prefix_of (assign a i p) k
      assign-ordered j k x y ex ey tj tk r = elim (assigned_cases h l j tj) [
        | inl (ej, qj) ↦ elim (assigned_cases h l k tk) [
          | inl (ek, qk) ↦ omega arith
          | inr (sk, qk) ↦
              omega (arith, (at_most x (sym (ap (get_elem? observers) ej) ∙ ex) k y ey sk).1 r)
        ]
        | inr (sj, qj) ↦ elim (assigned_cases h l k tk) [
          | inl (ek, qk) ↦
              omega (arith, (at_most y (sym (ap (get_elem? observers) ek) ∙ ey) j x ex sj).0 r)
          | inr (sk, qk) ↦ omega (arith, h.ordered j k x y ex ey sj sk r)
        ]
      ]
        where
          at_most :
              (z : StmOpacityTransactionAttempt P)
              → get_elem? observers i ≡ some z
              → (j : ℕ) (y : StmOpacityTransactionAttempt P) → get_elem? observers j ≡ some y
              → is_assigned a j ≡ true
              → Ordered observers y (prefix_of a j) z p
          at_most z e = (compatible_iff observers a i p z e).0 c

      -- To give an open observer a compatible candidate keeps the assignment partial.
      pub IsPartial-assign : IsPartial (assign a i p)
      IsPartial-assign = record {
        flags = length-set a.assigned i true ∙ h.flags;
        slots = length-set a.prefixes i p ∙ h.slots;
        member = assign-member;
        ordered = assign-ordered;
      }

    pub Extends-assign :
        (prefix : ℕ → ℕ)
        → IsPartial a
        → i < length observers
        → prefix i ≡ p
        → Extends prefix a
        → Extends prefix (assign a i p)
    Extends-assign prefix h l e ext j t = elim (assigned_cases h l j t) [
      | inl (ej, q) ↦ ap prefix ej ∙ (e ∙ sym q)
      | inr (t', q) ↦ ext j t' ∙ sym q
    ]

    -- What extends the longer assignment extends the shorter.
    pub Extends-before :
        (prefix : ℕ → ℕ)
        → IsPartial a
        → is_assigned a i ≡ false
        → Extends prefix (assign a i p)
        → Extends prefix a
    Extends-before prefix h u ext j t =
        ext j (get_or-set_ne a.assigned i j true false ne ∙ t) ∙ get_or-set_ne a.prefixes i j p 0 ne
      where
        ne : i ≢ j
        ne e = let t' = ap (is_assigned a) e in cc
