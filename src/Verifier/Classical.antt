-- ===== src/Verifier/Classical.antt =====
-- The steps of `Linearizes` and the orders of `IsLinearization`, compared.
use lincheck_cpp.Prelude.{
  ℕ, ◌≤◌, ◌<◌, ◌≡◌, ◌↔◌, ◌⊎◌, sym, subst, ◌∙◌, some, List, [], ◌∷◌, inl, inr, Bool-cases, ==_iff,
  ◌==◌, length, length-set, length-replicate, get_elem?, In, In-range_from, range_from_bounds,
  lt_of_get_elem?, arith,
}
use lincheck_cpp.Value.{Payloads}
use lincheck_cpp.Scenario.{ExecutionScenario, ExecutionResult, TestSpec}
use lincheck_cpp.Verifier.Intervals.{position, advanced, row, start_positions, observed}
use lincheck_cpp.Verifier.Linearization.{
  Precedes, Pending, Unblocked, Replays, Linearizes, done, next, Linearizable,
}
use lincheck_cpp.Verifier.Order.{
  of_thread, IsComplete, ReplaysOrder, nothing, call, IsLinearization,
}
use lincheck_cpp.Verifier.Complete.{
  moved, IsComplete-next, IsComplete-head, IsComplete-tail, IsComplete-nil, done_of_complete,
}
use lincheck_cpp.Verifier.Remaining.{row-lt}

of_thread-tail :
    (t p u q : ℕ) (ops : List (ℕ × ℕ)) → In q (of_thread u ops) → In q (of_thread u ((t, p) ∷ ops))
of_thread-tail t p u q ops i = elim (Bool-cases (t == u)) [
  | inl same ↦ rw same (inr i)
  | inr other ↦ rw other i
]

of_thread-cases :
    (t p u q : ℕ) (ops : List (ℕ × ℕ))
    → In q (of_thread u ((t, p) ∷ ops))
    → (u ≡ t) × (q ≡ p) ⊎ In q (of_thread u ops)
of_thread-cases t p u q ops i = elim (Bool-cases (t == u)) [
  | inl same ↦ elim (rw same at i) [ inl e ↦ inl (sym ((==_iff t u).0 same), e) | inr i' ↦ inr i' ]
  | inr other ↦ inr (rw other at i)
]

module _ {P : Payloads} (spec : TestSpec P) (scenario : ExecutionScenario P)
    (results : ExecutionResult P) where
  -- What stands in a complete order is pending.
  In→Pending :
      (positions : List ℕ) (ops : List (ℕ × ℕ))
      → IsComplete scenario positions ops
      → (u q : ℕ) → In q (of_thread u ops)
      → Pending scenario positions u q
  In→Pending positions ops all u q i =
      let i' = subst (In q) (all u) i in
      let bounds = range_from_bounds q _ _ i' in
      (row-lt scenario.parallel u (omega arith), omega arith, omega arith)

  Pending→In :
      (positions : List ℕ) (ops : List (ℕ × ℕ))
      → IsComplete scenario positions ops
      → (u q : ℕ) → Pending scenario positions u q
      → In q (of_thread u ops)
  Pending→In positions ops all u q (_, low, high) =
      subst (In q) (sym (all u)) (In-range_from q _ _ low (omega arith))

  Unblocked→respects :
      (positions : List ℕ) (t : ℕ) (ops : List (ℕ × ℕ))
      → length positions ≡ length scenario.parallel
      → position positions t < length (row scenario t)
      → IsComplete scenario (advanced positions t) ops
      → Unblocked scenario results positions t (position positions t)
      → (u q : ℕ) → In q (of_thread u ops)
      → ¬ Precedes scenario results u q t (position positions t)
  Unblocked→respects positions t ops sized first rest free u q i b =
      let all = IsComplete-next scenario positions t sized ops first rest in
      let (same, here) =
        free u q
          (In→Pending positions ((t, position positions t) ∷ ops) all u q
            (of_thread-tail t (position positions t) u q ops i))
          b in
      let (_, later, _) = In→Pending (advanced positions t) ops rest u q i in
      let later' = subst (λ u. position (advanced positions t) u ≤ q) same later in
      omega (arith, moved scenario positions t sized first)

  respects→Unblocked :
      (positions : List ℕ) (t p : ℕ) (ops : List (ℕ × ℕ))
      → IsComplete scenario positions ((t, p) ∷ ops)
      → p ≡ position positions t
      → ((u q : ℕ) → In q (of_thread u ops) → ¬ Precedes scenario results u q t p)
      → Unblocked scenario results positions t (position positions t)
  respects→Unblocked positions t p ops all here free u q pending b =
      elim (of_thread-cases t p u q ops (Pending→In positions ((t, p) ∷ ops) all u q pending)) [
        | inl (same, first) ↦ (same, first ∙ here)
        | inr i ↦ absurd (free u q i (subst (Precedes scenario results u q t) (sym here) b))
      ]

  Linearizes→order :
      (positions : List ℕ) {m m' : spec.State}
      → length positions ≡ length scenario.parallel
      → Linearizes spec scenario results m positions m'
      → (ops : List (ℕ × ℕ)) × IsLinearization spec scenario results positions m m' ops
  Linearizes→order positions {m} sized (done all r) = (
    [],
    record {
      complete = IsComplete-nil scenario positions all;
      respects = tt;
      between = m;
      replayed = nothing;
      post = r;
    },
  )
  Linearizes→order positions {m} {m'} sized (next t h l) =
      let (ops, o) = Linearizes→order (advanced positions t) (length-set positions t _ ∙ sized) l in
      let first = lt_of_get_elem? (row scenario t) (position positions t) h.listed in
      let all = IsComplete-next scenario positions t sized ops first o.complete in
      (
        (t, position positions t) ∷ ops,
        record {
          complete = all;
          respects =
              (Unblocked→respects positions t ops sized first o.complete h.unblocked, o.respects);
          between = o.between;
          replayed = call h.actor h.result h.answer h.listed h.seen h.ran h.agrees o.replayed;
          post = o.post;
        },
      )

  order→Linearizes :
      (positions : List ℕ) (ops : List (ℕ × ℕ)) {m m' : spec.State}
      → length positions ≡ length scenario.parallel
      → IsLinearization spec scenario results positions m m' ops
      → Linearizes spec scenario results m positions m'
  order→Linearizes positions [] {m} {m'} sized o = finish o.replayed o.post
    where
      finish :
          {n : spec.State}
          → ReplaysOrder spec scenario results [] m n
          → Replays spec scenario.post results.post_results n m'
          → Linearizes spec scenario results m positions m'
      finish nothing r = done (λ t _. done_of_complete scenario positions o.complete t) r
  order→Linearizes positions ((t, p) ∷ ops) {m} {m'} sized o = start o.replayed λ n r.
      order→Linearizes (advanced positions t) ops (length-set positions t _ ∙ sized) (record {
        complete = IsComplete-tail scenario positions t sized p ops o.complete;
        respects = o.respects.1;
        between = o.between;
        replayed = r;
        post = o.post;
      })
    where
      start :
          ReplaysOrder spec scenario results ((t, p) ∷ ops) m o.between
          → ((n : spec.State)
              → ReplaysOrder spec scenario results ops n o.between
              → Linearizes spec scenario results n (advanced positions t) m')
          → Linearizes spec scenario results m positions m'
      start (call {m' = n} a v w listed seen ran agrees r) rest =
          let (here, _) = IsComplete-head scenario positions t sized p ops o.complete in
          next t
            (record {
              actor = a;
              result = v;
              answer = w;
              listed = subst (λ p. get_elem? (row scenario t) p ≡ some a) here listed;
              seen = subst (λ p. observed scenario results t p ≡ some v) here seen;
              unblocked = respects→Unblocked positions t p ops o.complete here o.respects.0;
              ran = ran;
              agrees = agrees;
            })
            (rest n r)

  -- The history has a linearization in the usual sense: after the `init` section, one order of all
  -- the parallel operations, then the `post` section.
  pub record HasOrder : Type 0 where
    pub started : spec.State
    pub ended : spec.State
    pub order : List (ℕ × ℕ)
    pub init : Replays spec scenario.init results.init_results spec.make_sequential started
    pub linear :
        IsLinearization spec scenario results (start_positions scenario) started ended order

  sized_start : length (start_positions scenario) ≡ length scenario.parallel
  sized_start = length-replicate (length scenario.parallel) 0

  pub Linearizable_iff_order : Linearizable spec scenario results ↔ HasOrder
  Linearizable_iff_order = (
    λ l.
        let (ops, o) = Linearizes→order (start_positions scenario) sized_start l.parallel in
        record { started = l.started; ended = l.ended; order = ops; init = l.init; linear = o },
    λ o. record {
      started = o.started;
      ended = o.ended;
      init = o.init;
      parallel = order→Linearizes (start_positions scenario) o.order sized_start o.linear;
    },
  )
