-- ===== src/Verifier/Candidate.antt =====
-- One round of the loop over the threads: `try_candidate`, against the operations that may come
-- first among the pending ones.
use mathlib.Core.Option.{some_inj}
use lincheck_cpp.Prelude.{
  ℕ, ◌≡◌, sym, subst, ◌∙◌, none, some, List, get_elem?, inl, inr, Bool-cases, Option-cases,
}
use lincheck_cpp.Value.{Payloads, Value, value_eq}
use lincheck_cpp.Scenario.{Actor, ExecutionScenario, ExecutionResult, TestSpec}
use lincheck_cpp.Verifier.Model.{answered, run_sequential}
use lincheck_cpp.Verifier.Intervals.{position, row, observed, real_time_blocker}
use lincheck_cpp.Verifier.Search.{Candidate, advance, skip, stop, compare_result, try_candidate}
use lincheck_cpp.Verifier.Linearization.{Throws, in_thread, IsFaithful, Enabled}
use lincheck_cpp.Verifier.Replay.{Called-cases, answered-injective}
use lincheck_cpp.Verifier.RealTime.{real_time_blocker-none, real_time_blocker-some}

module _ {P : Payloads} (spec : TestSpec P) (scenario : ExecutionScenario P)
    (results : ExecutionResult P) (faithful : IsFaithful spec) where
  abbrev pub CandidateCorrect : spec.State → List ℕ → ℕ → Candidate spec.State → Type 0
  CandidateCorrect m positions t (advance n) =
      Enabled spec scenario results m positions t n
      × ((n' : spec.State) → Enabled spec scenario results m positions t n' → n' ≡ n)
  CandidateCorrect m positions t skip =
      (n : spec.State) → ¬ Enabled spec scenario results m positions t n
  CandidateCorrect m positions t (stop x) = Throws spec scenario x

  -- What all the enabled next operations of a thread have in common.
  module _ (m : spec.State) (positions : List ℕ) (t : ℕ) where
    abbrev p : ℕ
    p = position positions t

    ran_the_same :
        {a : Actor P} {n n' : spec.State} {w : Value P}
        → get_elem? (row scenario t) p ≡ some a
        → run_sequential spec m a ≡ answered n w
        → (h : Enabled spec scenario results m positions t n') → (n' ≡ n) × (h.answer ≡ w)
    ran_the_same e r h =
        let same : h.actor ≡ _ = some_inj.0 (sym h.listed ∙ e) in
        answered-injective
          (sym (subst (λ a. run_sequential spec m a ≡ answered _ h.answer) same h.ran) ∙ r)

    checked :
        (a : Actor P) (v : Value P) (n : spec.State) (w : Value P)
        → get_elem? (row scenario t) p ≡ some a
        → observed scenario results t p ≡ some v
        → real_time_blocker scenario results positions t p ≡ none
        → run_sequential spec m a ≡ answered n w
        → CandidateCorrect m positions t (compare_result v (answered n w))
    checked a v n w e o b r = elim (Bool-cases (value_eq w v)) [
      | inl y ↦ rw y (
        record {
          actor = a;
          result = v;
          answer = w;
          listed = e;
          seen = o;
          unblocked = real_time_blocker-none scenario results positions t p b;
          ran = r;
          agrees = y;
        },
        λ n' h. (ran_the_same e r h).0,
      )
      | inr differ ↦ rw differ (λ n' h.
          let (_, answer) = ran_the_same e r h in let result = some_inj.0 (sym h.seen ∙ o) in cc)
    ]

    answer_lem :
        {a : Actor P} {v : Value P}
        → get_elem? (row scenario t) p ≡ some a
        → observed scenario results t p ≡ some v
        → real_time_blocker scenario results positions t p ≡ none
        → CandidateCorrect m positions t (compare_result v (run_sequential spec m a))
    answer_lem {a} {v} e o free = elim (Called-cases (run_sequential spec m a)) [
      | inl (_, r) ↦ rw r (in_thread t (p, a, m, e, r))
      | inr (n, w, r) ↦ rw r (checked a v n w e o free r)
    ]

    pub try_candidate_lem :
        CandidateCorrect m positions t (try_candidate spec scenario results m positions t)
    unfolding try_candidate
    try_candidate_lem = elim (Option-cases (get_elem? (row scenario t) p)) [
      | inl e ↦ rw (e, try_candidate) (λ n h. let bad = h.listed in cc)
      | inr (a, e) ↦ elim (Option-cases (observed scenario results t p)) [
        | inl o ↦ rw (e, try_candidate) (rw (o, try_candidate) (λ n h. let bad = h.seen in cc))
        | inr (v, o) ↦ elim (Option-cases (real_time_blocker scenario results positions t p)) [
          | inr (b, blocked) ↦
              rw (e, try_candidate)
                (rw (o, try_candidate)
                  (rw (blocked, try_candidate)
                    (λ n h.
                      real_time_blocker-some scenario results positions t p blocked h.unblocked)))
          | inl free ↦
              rw (e, try_candidate)
                (rw (o, try_candidate)
                  (rw (free, try_candidate) (rw (faithful.copies m) (answer_lem e o free))))
        ]
      ]
    ]
