-- ===== src/Verifier/Complete.antt =====
-- The orders that are complete from some positions on, and their first operation.
use native.Mathlib.Decide.{dec_le}
use lincheck_cpp.Prelude.{
  ℕ, zero, suc, ◌-◌, ◌≤◌, ◌<◌, ◌≡◌, ◌≢◌, refl, sym, subst, ap, ◌∙◌, true, false, List, [], ◌∷◌, inl,
  inr, Bool-cases, ==_iff, ◌==◌, length, get_or-set_self, get_or-set_ne, range_from, arith,
}
use lincheck_cpp.Value.{Payloads}
use lincheck_cpp.Scenario.{ExecutionScenario}
use lincheck_cpp.Verifier.Intervals.{position, advanced, row}
use lincheck_cpp.Verifier.Order.{of_thread, IsComplete}
use lincheck_cpp.Verifier.Remaining.{row-lt}

range_suc : (p n : ℕ) → p < n → range_from p (n - p) ≡ p ∷ range_from (suc p) (n - suc p)
range_suc p n h = let e : n - p ≡ suc (n - suc p) = omega arith in rw e

range_none : (p n : ℕ) → n ≤ p → range_from p (n - p) ≡ []
range_none p n h = let e : n - p ≡ 0 = omega arith in rw e

range_head :
    (p k i : ℕ) (ps : List ℕ)
    → p ∷ ps ≡ range_from i k
    → (j : ℕ) × (k ≡ suc j) × (p ≡ i) × (ps ≡ range_from (suc i) j)
range_head p zero i ps h = cc
range_head p (suc k) i ps h = (k, refl, cc, cc)

range_nil : (i k : ℕ) → [] ≡ range_from i k → k ≡ 0
range_nil i zero h = refl
range_nil i (suc k) h = cc

self_eq : (t : ℕ) → (t == t) ≡ true
self_eq t = (==_iff t t).1 refl

ne_of_differ : (t u : ℕ) → (t == u) ≡ false → t ≢ u
ne_of_differ t u h e = let y = (==_iff t u).1 e in cc

module _ {P : Payloads} (scenario : ExecutionScenario P) (positions : List ℕ) (t : ℕ)
    (sized : length positions ≡ length scenario.parallel) where
  pub moved :
      position positions t < length (row scenario t)
      → position (advanced positions t) t ≡ suc (position positions t)
  moved first =
      get_or-set_self positions t _ 0 (omega (arith, row-lt scenario.parallel t (omega arith)))

  pub IsComplete-next :
      (ops : List (ℕ × ℕ))
      → position positions t < length (row scenario t)
      → IsComplete scenario (advanced positions t) ops
      → IsComplete scenario positions ((t, position positions t) ∷ ops)
  IsComplete-next ops first rest u = elim (Bool-cases (t == u)) [
    | inl same ↦
        let e : t ≡ u = (==_iff t u).0 same in
        rw (same) (
          subst
            (λ u.
              position positions t ∷ of_thread u ops
              ≡ range_from (position positions u) (length (row scenario u) - position positions u))
            e
            (ap (λ ps. position positions t ∷ ps) (rw (moved first) at (rest t))
              ∙ sym (range_suc _ _ first)))
    | inr other ↦ rw other (
        rw (get_or-set_ne positions t u (suc (position positions t)) 0 (ne_of_differ t u other)) at
          (rest u))
  ]

  head_of :
      (p : ℕ) (ops : List (ℕ × ℕ))
      → IsComplete scenario positions ((t, p) ∷ ops)
      → p ∷ of_thread t ops
        ≡ range_from (position positions t) (length (row scenario t) - position positions t)
  head_of p ops all = rw (self_eq t) at (all t)

  pub IsComplete-head :
      (p : ℕ) (ops : List (ℕ × ℕ))
      → IsComplete scenario positions ((t, p) ∷ ops)
      → (p ≡ position positions t) × (position positions t < length (row scenario t))
  IsComplete-head p ops all =
      let (j, more, e, rest) = range_head _ _ _ _ (head_of p ops all) in (e, omega arith)

  pub IsComplete-tail :
      (p : ℕ) (ops : List (ℕ × ℕ))
      → IsComplete scenario positions ((t, p) ∷ ops)
      → IsComplete scenario (advanced positions t) ops
  IsComplete-tail p ops all u =
      let (j, more, here, rest) = range_head _ _ _ _ (head_of p ops all) in
      let first : position positions t < length (row scenario t) = omega arith in
      elim (Bool-cases (t == u)) [
        | inl same ↦
            let e : t ≡ u = (==_iff t u).0 same in
            subst
              (λ u.
                of_thread u ops
                ≡ range_from (position (advanced positions t) u)
                    (length (row scenario u) - position (advanced positions t) u))
              e (rw (moved first) (rest ∙ ap (range_from _) (omega arith)))
        | inr other ↦
            rw (get_or-set_ne positions t u (suc (position positions t)) 0 (ne_of_differ t u other))
              (rw other at (all u))
      ]

module _ {P : Payloads} (scenario : ExecutionScenario P) (positions : List ℕ) where
  -- The empty order is complete exactly where nothing is pending.
  pub IsComplete-nil :
      ((t : ℕ) → t < length scenario.parallel → length (row scenario t) ≤ position positions t)
      → IsComplete scenario positions []
  IsComplete-nil all t = sym (
      range_none _ _ (elim (dec_le (length (row scenario t)) 0) [
        | yes none_there ↦ omega arith
        | no some_there ↦ all t (row-lt scenario.parallel t (omega arith))
      ]))

  pub done_of_complete :
      IsComplete scenario positions [] → (t : ℕ) → length (row scenario t) ≤ position positions t
  done_of_complete all t = omega (arith, range_nil _ _ (all t))
