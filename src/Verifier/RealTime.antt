-- ===== src/Verifier/RealTime.antt =====
-- `all_done` and `real_time_blocker`: whether nothing is pending, and whether a pending operation
-- precedes the candidate.
use lincheck_cpp.Prelude.{
  ℕ, ◌-◌, ◌≤◌, ◌≡◌, ◌↔◌, refl, sym, subst, true, false, none, some, List, [], ◌∷◌, inl, inr,
  Bool-cases, Option-cases, ◌==◌, length, In, In-range_from, range_from_bounds, range_from, arith,
}
use lincheck_cpp.Value.{Payloads}
use lincheck_cpp.Scenario.{ExecutionScenario, ExecutionResult}
use lincheck_cpp.Verifier.Intervals.{
  position, row, threads, all_done, interval, has_complete_intervals, blocks, scan_positions,
  scan_threads, real_time_blocker,
}
use lincheck_cpp.Verifier.Linearization.{AllDone, Precedes, Unblocked}

module _ {P : Payloads} (scenario : ExecutionScenario P) where
  all_done→In :
      (positions ts : List ℕ)
      → all_done scenario positions ts ≡ true
      → (t : ℕ) → In t ts
      → length (row scenario t) ≤ position positions t
  unfolding all_done
  all_done→In positions [] e t i = absurd i
  all_done→In positions (u ∷ ts) e t (inl same) = rw same (ground arith)
  all_done→In positions (u ∷ ts) e t (inr i) = ground (arith, all_done→In positions ts _ t i)

  In→all_done :
      (positions ts : List ℕ)
      → ((t : ℕ) → In t ts → length (row scenario t) ≤ position positions t)
      → all_done scenario positions ts ≡ true
  unfolding all_done
  In→all_done positions [] h = refl
  In→all_done positions (t ∷ ts) h =
      let here = h t (inl refl) in
      let rest = In→all_done positions ts (λ u i. h u (inr i)) in ground arith

  -- `complete` is true exactly when every thread's operations are all in the order.
  pub all_done_iff :
      (positions : List ℕ)
      → (all_done scenario positions (threads scenario) ≡ true) ↔ AllDone scenario positions
  all_done_iff positions = (
    λ e t h.
        all_done→In positions (threads scenario) e t
          (In-range_from t 0 _ (omega arith) (omega arith)),
    λ h.
        In→all_done positions (threads scenario)
          (λ t i. h t (omega (arith, range_from_bounds t 0 _ i))),
  )

module _ {P : Payloads} (scenario : ExecutionScenario P) (results : ExecutionResult P) where
  blocks→Precedes :
      (t p u q : ℕ)
      → has_complete_intervals scenario results ≡ true
      → ((interval scenario results t p).invocation_clock == 0) ≡ false
      → blocks scenario results t p u q ≡ true
      → Precedes scenario results u q t p × ((u ≡ t) × (q ≡ p) → ⊥)
  unfolding blocks
  blocks→Precedes t p u q c i h = ground arith

  blocks_of_Precedes :
      (t p u q : ℕ)
      → blocks scenario results t p u q ≡ false
      → Precedes scenario results u q t p
      → (u ≡ t) × (q ≡ p)
  unfolding blocks
  blocks_of_Precedes t p u q h b = ground arith

  scan_positions-none :
      (t p u : ℕ) (qs : List ℕ)
      → scan_positions scenario results t p u qs ≡ none
      → (q : ℕ) → In q qs
      → blocks scenario results t p u q ≡ false
  unfolding scan_positions
  scan_positions-none t p u [] h q i = absurd i
  scan_positions-none t p u (r ∷ qs) h q (inl e) =
      subst (λ q. blocks scenario results t p u q ≡ false) (sym e) (ground arith)
  scan_positions-none t p u (r ∷ qs) h q (inr i) = scan_positions-none t p u qs (ground arith) q i

  scan_positions-some :
      (t p u : ℕ) (qs : List ℕ) {b : ℕ × ℕ}
      → scan_positions scenario results t p u qs ≡ some b
      → (q : ℕ) × In q qs × (blocks scenario results t p u q ≡ true)
  unfolding scan_positions
  scan_positions-some t p u [] h = cc
  scan_positions-some t p u (r ∷ qs) {b} h = elim (Bool-cases (blocks scenario results t p u r)) [
    | inl y ↦ (r, inl refl, y)
    | inr n ↦ let (q, i, y) = scan_positions-some t p u qs {b = b} (ground arith) in (q, inr i, y)
  ]

  scan_threads-none :
      (positions : List ℕ) (t p : ℕ) (us : List ℕ)
      → scan_threads scenario results positions t p us ≡ none
      → (u : ℕ) → In u us
      → scan_positions scenario results t p u
          (range_from (position positions u) (length (row scenario u) - position positions u))
        ≡ none
  unfolding scan_threads
  scan_threads-none positions t p [] h u i = absurd i
  scan_threads-none positions t p (x ∷ us) h u (inl e) = rw e (ground arith)
  scan_threads-none positions t p (x ∷ us) h u (inr i) =
      scan_threads-none positions t p us (ground arith) u i

  scan_threads-some :
      (positions : List ℕ) (t p : ℕ) (us : List ℕ) {b : ℕ × ℕ}
      → scan_threads scenario results positions t p us ≡ some b
      → (u : ℕ) × In u us
        × (scan_positions scenario results t p u
              (range_from (position positions u) (length (row scenario u) - position positions u))
            ≡ some b)
  unfolding scan_threads
  scan_threads-some positions t p [] h = cc
  scan_threads-some positions t p (x ∷ us) {b} h =
      elim (Option-cases (
        scan_positions scenario results t p x
          (range_from (position positions x) (length (row scenario x) - position positions x)))) [
            | inl e ↦
                let (u, i, found) = scan_threads-some positions t p us {b = b} (ground arith) in
                (u, inr i, found)
            | inr (c, e) ↦ (x, inl refl, ground arith)
          ]

  pub real_time_blocker-none :
      (positions : List ℕ) (t p : ℕ)
      → real_time_blocker scenario results positions t p ≡ none
      → Unblocked scenario results positions t p
  unfolding real_time_blocker
  real_time_blocker-none positions t p h u q pending b =
      blocks_of_Precedes t p u q
        (scan_positions-none t p u _
          (scan_threads-none positions t p (threads scenario) scanned u
            (In-range_from u 0 _ (omega arith) (omega arith)))
          q (In-range_from q _ _ (omega arith) (omega arith)))
        b
    where
      scanned : scan_threads scenario results positions t p (threads scenario) ≡ none
      scanned = ground arith

  pub real_time_blocker-some :
      (positions : List ℕ) (t p : ℕ) {b : ℕ × ℕ}
      → real_time_blocker scenario results positions t p ≡ some b
      → ¬ Unblocked scenario results positions t p
  unfolding real_time_blocker
  real_time_blocker-some positions t p {b} h free =
      let (complete, invoked, scanned) = conditions in
      let (u, i, found) = scan_threads-some positions t p (threads scenario) scanned in
      let (q, j, y) = scan_positions-some t p u _ found in
      let (precedes, other) = blocks→Precedes t p u q complete invoked y in
      let in_row = range_from_bounds q _ _ j in
      other (free u q (omega (arith, range_from_bounds u 0 _ i), omega arith, omega arith) precedes)
    where
      conditions :
          (has_complete_intervals scenario results ≡ true)
          × (((interval scenario results t p).invocation_clock == 0) ≡ false)
          × (scan_threads scenario results positions t p (threads scenario) ≡ some b)
      conditions = ground arith

  -- `real_time_blocker` finds nothing exactly for a candidate that no other pending operation
  -- precedes. That takes complete intervals, one for each parallel operation of the scenario,
  -- clocks recorded for the operation's response and for the candidate's invocation, and a response
  -- before that invocation; so where the intervals are not complete it finds nothing.
  pub real_time_blocker_iff :
      (positions : List ℕ) (t p : ℕ)
      → (real_time_blocker scenario results positions t p ≡ none)
        ↔ Unblocked scenario results positions t p
  real_time_blocker_iff positions t p = (
    real_time_blocker-none positions t p,
    λ free. elim (Option-cases (real_time_blocker scenario results positions t p)) [
      | inl e ↦ e
      | inr (b, e) ↦ absurd (real_time_blocker-some positions t p e free)
    ],
  )
