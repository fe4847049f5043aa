-- ===== src/Opacity/Check/Decides.antt =====
-- include/lincheck/lincheck.hpp, `apply_stm_opacity_check`: what its answer says of the events.
use lincheck_cpp.Prelude.{
  ℕ, ◌≡◌, ◌≢◌, inl, inr, refl, ap, Bool, true, false, Option, none, some, Result, ok, err,
}
use lincheck_cpp.Value.{Payloads}
use lincheck_cpp.Value.Symmetric.{EqIsSymmetric}
use lincheck_cpp.Opacity.History.{StmOpacityHistory, StmLifetimePolicy}
use lincheck_cpp.Opacity.Builder.{HistoryError, out_of_range}
use lincheck_cpp.Opacity.Builder.Build.{build_stm_opacity_history}
use lincheck_cpp.Opacity.Builder.Table.{Gives, is_out_of_range}
use lincheck_cpp.Opacity.Builder.Initial.{build-HasInitialValue}
use lincheck_cpp.Opacity.Search.Keys.{HashesDiffer}
use lincheck_cpp.Opacity.Search.Locations.{AllInitialised}
use lincheck_cpp.Opacity.Search.Decides.{IsOpaque, Decides, verify-Decides}
use lincheck_cpp.Opacity.Search.Verify.{
  StmOpacityStatus, malformed_history, violation, search_limit_exceeded,
  StmOpacityVerificationResult, committed_of, verify_stm_opacity,
}
use lincheck_cpp.Opacity.Search.Verify
use lincheck_cpp.Opacity.Check.{
  CheckResult, CheckOutcome, returns, throws_out_of_range, out_of_fuel, opacity_violation,
  malformed, malformed_stm_opacity_history, stm_opacity_violation, stm_opacity_search_limit, judged,
  failure_message, apply_stm_opacity_check,
}

module _ {P : Payloads} (result : CheckResult P) (max : ℕ) (policy : StmLifetimePolicy) where
  abbrev built : Result HistoryError (StmOpacityHistory P)
  built = build_stm_opacity_history policy result.stm_events

  -- What is true of the call's answer and of the result that it leaves.
  pub record IsJudged (answer : Bool) (after : CheckResult P) : Type 0 where
    pub accepted :
        answer ≡ true
        → (after.success ≡ result.success)
          × (history : StmOpacityHistory P) × (built ≡ ok history)
          × IsOpaque history
    pub failed : answer ≡ false → (after.success ≡ false) × (after.failure ≡ opacity_violation)
    pub violated :
        answer ≡ false
        → after.message ≡ stm_opacity_violation
        → (history : StmOpacityHistory P) × (built ≡ ok history) × (IsOpaque history → ⊥)
    pub explained_malformed :
        answer ≡ false
        → after.message ≡ malformed_stm_opacity_history
        → (e : HistoryError) × (built ≡ err e)
    pub limited : answer ≡ false → after.message ≡ stm_opacity_search_limit → max ≢ 0
    pub explained :
        answer ≡ false
        → (after.message ≡ stm_opacity_violation → ⊥)
        → (after.message ≡ malformed_stm_opacity_history → ⊥)
        → after.message ≡ stm_opacity_search_limit

  abbrev pub Judges : CheckOutcome P → Type 0
  Judges (returns answer after) = IsJudged answer after
  Judges throws_out_of_range = ⊥
  Judges out_of_fuel = ⊥

  malformed-Judges :
      (e : HistoryError) → built ≡ err e → is_out_of_range e ≡ false → Judges (malformed e result)
  malformed-Judges out_of_range b n = cc
  malformed-Judges e b n = record {
    accepted = λ q. cc;
    failed = λ _. (refl, refl);
    violated = λ _ q. cc;
    explained_malformed = λ _ _. (e, b);
    limited = λ _ q. cc;
    explained = λ _ _ n. absurd (n refl);
  }

  judged-Judges :
      (history : StmOpacityHistory P) (o : Option StmOpacityVerificationResult)
      → built ≡ ok history
      → Decides history max o
      → Judges (judged result history o)
  judged-Judges history none b d = d
  judged-Judges history (some verdict) b d = go verdict.status refl
    where
      go :
          (s : StmOpacityStatus)
          → verdict.status ≡ s
          → Judges (judged result history (some verdict))
      go Verify.ok e =
          rw (e, judged)
            (record {
              accepted = λ _. (refl, history, b, d.accepted e);
              failed = λ q. cc;
              violated = λ q. cc;
              explained_malformed = λ q. cc;
              limited = λ q. cc;
              explained = λ q. cc;
            })
      go violation e =
          rw (e, judged)
            (record {
              accepted = λ q. cc;
              failed = λ _. (refl, refl);
              violated = λ _ _. (history, b, d.refuted e);
              explained_malformed = λ _ q. cc;
              limited = λ _ q. cc;
              explained = λ _ n. absurd (n (ap failure_message e));
            })
      go search_limit_exceeded e =
          rw (e, judged)
            (record {
              accepted = λ q. cc;
              failed = λ _. (refl, refl);
              violated = λ _ q. cc;
              explained_malformed = λ _ q. cc;
              limited = λ _ _ z. elim (d.settled z) [ inl f ↦ cc | inr f ↦ cc ];
              explained = λ _ _ _. ap failure_message e;
            })
      go malformed_history e = absurd (d.well_formed e)

  -- Where `operator==` of doubles and of user values is symmetric, and different values of a
  -- location of the history that is built have different `stable_hash`, `apply_stm_opacity_check`
  -- returns and is right about the events of the run. It returns true, and leaves the success as it
  -- was, only if they build to a history that is opaque. Otherwise it records an opacity violation
  -- as the failure: with the message of a violation only if they build to a history that is not
  -- opaque, with that of a malformed history only if the builder explains one, with that of the
  -- search limit only if there is a limit, and with no other message.
  pub apply-Judges :
      EqIsSymmetric P
      → ((history : StmOpacityHistory P)
          → built ≡ ok history
          → HashesDiffer history (committed_of history))
      → Judges (apply_stm_opacity_check result max policy)
  unfolding apply_stm_opacity_check
  apply-Judges symmetric differ = go built refl (build-HasInitialValue policy result.stm_events)
    where
      go :
          (o : Result HistoryError (StmOpacityHistory P))
          → built ≡ o
          → Gives (λ history. AllInitialised history history.transactions) o
          → Judges (elim o [
            | err e ↦ malformed e result
            | ok history ↦ judged result history (verify_stm_opacity history max)
          ])
      go (err e) b n = malformed-Judges e b n
      go (ok history) b h =
          judged-Judges history (verify_stm_opacity history max) b
            (verify-Decides history symmetric (differ history b) h max)
