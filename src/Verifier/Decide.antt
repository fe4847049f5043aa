-- ===== src/Verifier/Decide.antt =====
-- `verify_parallel`, against the orders of the pending operations.
use lincheck_cpp.Prelude.{
  ℕ, zero, suc, ◌<◌, ◌≡◌, refl, sym, subst, ◌∙◌, Bool, false, List, [], ◌∷◌, inl, inr, Bool-cases,
  Option-cases, length, length-set, In, In-range_from, lt_of_get_elem?, arith,
}
use lincheck_cpp.Value.{Payloads}
use lincheck_cpp.Scenario.{ExecutionScenario, ExecutionResult, TestSpec}
use lincheck_cpp.Verifier.Model.{Applied, accepted, rejected}
use lincheck_cpp.Verifier.Intervals.{position, advanced, row, threads, all_done}
use lincheck_cpp.Verifier.Cache.{
  Verdict, linearized, refuted, out_of_fuel, VerifierCache, Search, make_cache_key, consult,
  otherwise,
}
use lincheck_cpp.Verifier.Search.{
  Candidate, advance, skip, stop, has_post, finish_with, finish, try_candidate, try_threads,
  verify_parallel,
}
use lincheck_cpp.Verifier.Linearization.{
  in_post, IsFaithful, Enabled, Replays, nothing, Linearizes, done, next, AllDone,
}
use lincheck_cpp.Verifier.Replay.{AppliedCorrect, apply_sequence_lem}
use lincheck_cpp.Verifier.RealTime.{all_done_iff}
use lincheck_cpp.Verifier.Candidate.{CandidateCorrect, try_candidate_lem}
use lincheck_cpp.Verifier.Memo.{Cannot, CacheOk, SearchCorrect, remember_lem, consult_lem}
use lincheck_cpp.Verifier.Remaining.{remaining, remaining-advance, row-lt}

no_post :
    {A B : Type 0} (xs : List A) (ys : List B) → has_post xs ys ≡ false → (xs ≡ []) × (ys ≡ [])
no_post [] [] h = (refl, refl)
no_post [] (y ∷ ys) h = cc
no_post (x ∷ xs) ys h = cc

module _ {P : Payloads} (spec : TestSpec P) (scenario : ExecutionScenario P)
    (results : ExecutionResult P) (faithful : IsFaithful spec) where
  abbrev Correct : spec.State → List ℕ → Search spec → Type 0
  Correct = SearchCorrect spec scenario results faithful

  abbrev Ok : VerifierCache P spec.State → Type 0
  Ok = CacheOk spec scenario results faithful

  Enabled-lt :
      {m n : spec.State} {positions : List ℕ} {t : ℕ}
      → Enabled spec scenario results m positions t n
      → position positions t < length (row scenario t)
  Enabled-lt {positions} {t} h = lt_of_get_elem? (row scenario t) (position positions t) h.listed

  -- With all operations in the order there is no other way to go on.
  Linearizes-AllDone :
      {m m' : spec.State} {positions : List ℕ}
      → AllDone scenario positions
      → Linearizes spec scenario results m positions m'
      → Replays spec scenario.post results.post_results m m'
  Linearizes-AllDone all (done _ r) = r
  Linearizes-AllDone all (next t h l) =
      let shorter = Enabled-lt h in
      absurd (omega (arith, all t (row-lt scenario.parallel t (omega arith))))

  finished :
      (m : spec.State) (positions : List ℕ) (cache : VerifierCache P spec.State)
      (applied : Applied spec.State)
      → AllDone scenario positions
      → Ok cache
      → AppliedCorrect spec m scenario.post results.post_results applied
      → Correct m positions (finish_with applied, cache)
  finished m positions cache (accepted m') all ok h = done all h
  finished m positions cache rejected all ok h = (λ m' l. h m' (Linearizes-AllDone all l), ok)
  finished m positions cache (Applied.threw x) all ok h = in_post h

  finish_lem :
      (m : spec.State) (positions : List ℕ) (cache : VerifierCache P spec.State)
      → AllDone scenario positions
      → Ok cache
      → Correct m positions (finish spec scenario results m, cache)
  unfolding finish
  finish_lem m positions cache all ok =
      elim (Bool-cases (has_post scenario.post results.post_results)) [
        | inl y ↦
            rw (y, finish)
              (rw (faithful.copies m) (
                finished m positions cache _ all ok
                  (apply_sequence_lem spec m scenario.post results.post_results)))
        | inr n ↦
            let (no_actors, no_results) = no_post _ _ n in
            rw (n, finish) (done all (rw (no_actors, no_results) nothing))
      ]

  -- What the loop over the threads `ts` has shown.
  abbrev ThreadsCorrect : spec.State → List ℕ → List ℕ → Search spec → Type 0
  ThreadsCorrect m positions ts (refuted, cache) =
      ((t : ℕ)
        → In t ts
        → (n : spec.State) → Enabled spec scenario results m positions t n
        → Cannot spec scenario results faithful n (advanced positions t))
      × Ok cache
  ThreadsCorrect m positions ts search = Correct m positions search

  module _ (m : spec.State) (positions : List ℕ)
      (verify : spec.State → List ℕ → VerifierCache P spec.State → Search spec)
      (ih : (n : spec.State) (t : ℕ) (cache : VerifierCache P spec.State)
        → Enabled spec scenario results m positions t n
        → Ok cache
        → Correct n (advanced positions t) (verify n (advanced positions t) cache)) where
    extend :
        (t : ℕ) (ts : List ℕ) (search : Search spec)
        → ((n : spec.State)
            → Enabled spec scenario results m positions t n
            → Cannot spec scenario results faithful n (advanced positions t))
        → ThreadsCorrect m positions ts search
        → ThreadsCorrect m positions (t ∷ ts) search
    extend t ts (linearized m', cache) dead h = h
    extend t ts (Verdict.threw x, cache) dead h = h
    extend t ts (out_of_fuel, cache) dead h = h
    extend t ts (refuted, cache) dead (others, ok) = (both, ok)
      where
        both :
            (u : ℕ)
            → In u (t ∷ ts)
            → (n : spec.State) → Enabled spec scenario results m positions u n
            → Cannot spec scenario results faithful n (advanced positions u)
        both u (inl e) =
            subst
              (λ u.
                (n : spec.State)
                → Enabled spec scenario results m positions u n
                → Cannot spec scenario results faithful n (advanced positions u))
              (sym e) dead
        both u (inr i) = others u i

    -- After the recursive call on the model `n` that the candidate t leads to.
    resume :
        (t : ℕ) (ts : List ℕ) (n : spec.State) (search : Search spec)
        (continue : VerifierCache P spec.State → Search spec)
        → CandidateCorrect spec scenario results faithful m positions t (advance n)
        → Correct n (advanced positions t) search
        → ((cache : VerifierCache P spec.State)
            → Ok cache
            → ThreadsCorrect m positions ts (continue cache))
        → ThreadsCorrect m positions (t ∷ ts) (otherwise spec search continue)
    resume t ts n (linearized m', cache) continue (h, unique) l rest = next t h l
    resume t ts n (Verdict.threw x, cache) continue (h, unique) l rest = l
    resume t ts n (out_of_fuel, cache) continue (h, unique) l rest = l
    resume t ts n (refuted, cache) continue (h, unique) (cannot, ok) rest =
        extend t ts (continue cache)
          (λ n' h'.
            subst (λ n. Cannot spec scenario results faithful n (advanced positions t))
              (sym (unique n' h')) cannot)
          (rest cache ok)

    try_threads_lem :
        (ts : List ℕ) (cache : VerifierCache P spec.State)
        → Ok cache
        → ThreadsCorrect m positions ts
            (try_threads spec scenario results verify m positions ts cache)
    unfolding try_threads
    try_threads_lem [] cache ok = (λ t i. absurd i, ok)
    try_threads_lem (t ∷ ts) cache ok =
        go (try_candidate spec scenario results m positions t) refl
          (try_candidate_lem spec scenario results faithful m positions t)
          (λ cache'. try_threads_lem ts cache')
      where
        go :
            (c : Candidate spec.State)
            → try_candidate spec scenario results m positions t ≡ c
            → CandidateCorrect spec scenario results faithful m positions t c
            → ((cache : VerifierCache P spec.State)
                → Ok cache
                → ThreadsCorrect m positions ts
                    (try_threads spec scenario results verify m positions ts cache))
            → ThreadsCorrect m positions
                (t ∷ ts)
                (try_threads spec scenario results verify m positions (t ∷ ts) cache)
        go skip e none_enabled rest =
            rw (e, try_threads) (extend t ts _ (λ n h. absurd (none_enabled n h)) (rest cache ok))
        go (stop x) e throws rest = rw (e, try_threads) throws
        go (advance n) e enabled rest =
            rw (e, try_threads) (resume t ts n _ _ enabled (ih n t cache enabled.0 ok) rest)

  -- With a round for every thread, no order is left out.
  all_threads :
      (m : spec.State) (positions : List ℕ) (search : Search spec)
      → all_done scenario positions (threads scenario) ≡ false
      → ThreadsCorrect m positions (threads scenario) search
      → Correct m positions search
  all_threads m positions (linearized m', cache) pending h = h
  all_threads m positions (Verdict.threw x, cache) pending h = h
  all_threads m positions (out_of_fuel, cache) pending h = h
  all_threads m positions (refuted, cache) pending (dead, ok) = (cannot, ok)
    where
      cannot : Cannot spec scenario results faithful m positions
      cannot m' (done all _) = let y = (all_done_iff scenario positions).1 all in cc
      cannot m' (next t h l) =
          let shorter = Enabled-lt h in
          dead t
            (In-range_from t 0 _ (omega arith)
              (omega (arith, row-lt scenario.parallel t (omega arith))))
            _ h m' l

  -- From positions of the right number, more fuel than operations are pending and true facts in the
  -- cache, `verify_parallel` ends within its fuel. It returns true with the model that an order of
  -- the pending operations leads to, it returns false only where there is no such order and leaves
  -- true facts in the cache, and it throws only what a call of an actor throws. The facts are true
  -- if the table of successes is empty, as it is at every call of the program, and the failures are
  -- keys of dead ends.
  pub verify_parallel_lem :
      (explain : Bool) (fuel : ℕ) (m : spec.State) (positions : List ℕ)
      (cache : VerifierCache P spec.State)
      → length positions ≡ length scenario.parallel
      → remaining scenario.parallel positions < fuel
      → CacheOk spec scenario results faithful cache
      → SearchCorrect spec scenario results faithful m positions
          (verify_parallel spec scenario results explain fuel m positions cache)
  unfolding verify_parallel
  verify_parallel_lem explain zero m positions cache same enough ok = absurd (omega arith)
  verify_parallel_lem explain (suc fuel) m positions cache same enough ok =
      elim (Bool-cases (all_done scenario positions (threads scenario))) [
        | inl complete ↦
            rw (complete, verify_parallel)
              (finish_lem m positions cache ((all_done_iff scenario positions).0 complete) ok)
        | inr pending ↦
            rw (pending, verify_parallel)
              (elim (Option-cases (consult spec explain (make_cache_key spec m positions) cache)) [
                | inr (verdict, found) ↦
                    rw (found, verify_parallel)
                      (consult_lem spec scenario results faithful explain m positions cache ok
                        verdict found)
                | inl missing ↦
                    rw (missing, verify_parallel)
                      (remember_lem spec scenario results faithful m positions _ _ refl (
                        all_threads m positions _ pending (
                          try_threads_lem m positions
                            (verify_parallel spec scenario results explain fuel)
                            (λ n t cache' h ok'.
                              verify_parallel_lem explain fuel n (advanced positions t) cache'
                                (length-set positions t _ ∙ same)
                                (omega (
                                  arith,
                                  remaining-advance scenario.parallel positions t same
                                      (Enabled-lt h),
                                ))
                                ok')
                            (threads scenario) cache ok)))
              ])
      ]
