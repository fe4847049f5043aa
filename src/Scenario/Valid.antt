-- ===== src/Scenario/Valid.antt =====
-- `validate_scenario_against_spec` against a description of the valid scenarios.
use mathlib.Core.Option.{some_inj}
use mathlib.Core.Path.{fun_ext}
use lincheck_cpp.Prelude.{
  ◌≡◌, ◌≢◌, ◌↔◌, refl, sym, subst, ap, ◌∙◌, true, Option, none, some, List, [], ◌∷◌, inl, inr,
  Option-cases, ok, err,
}
use lincheck_cpp.Value.{Payloads}
use lincheck_cpp.Scenario.{ExecutionScenario, Operation, TestSpec}
use lincheck_cpp.Scenario.Validate.{
  Check, Seen, validate_actors, validate_threads, validate_sections, validate_scenario_against_spec,
  init_actor, post_actor,
}
use lincheck_cpp.Scenario.Constraints.{
  and_then, Use, run, run_iff, Pairwise, All, allowed, allowed-unseen,
}
use lincheck_cpp.Scenario.Resolve.{
  forget, forget-bind, and_then_assoc, actors_run, threads_run, scenario_run, sections_run,
  resolve_all, resolve_threads, resolve_scenario,
}

-- What is left of the last section's state.
abbrev done : {A : Type 0} → A → Option (Unit {0})
done a = some tt

forget_iff : (r : Check (Unit {0})) → (forget r ≡ some tt) ↔ (r ≡ ok tt)
forget_iff (ok u) = (λ _. refl, λ _. refl)
forget_iff (err e) = (λ h. cc, λ h. cc)

-- The scenario is valid: there are operations, each actor names one and has its number of arguments,
-- and each two actors are compatible.
pub record IsValid {P : Payloads} (spec : TestSpec P) (scenario : ExecutionScenario P)
    : Type 0 where
  pub registered : spec.operations ≢ []
  pub uses : List (Use P spec.State)
  pub resolved : resolve_scenario spec.operations scenario ≡ some uses
  pub compatible : Pairwise uses

abbrev unseen : Seen
unseen = record { one_shots = []; groups = [] }

module _ {P : Payloads} {S : Type 0} where
  sections_forget :
      (operation : Operation P S) (operations : List (Operation P S))
      (scenario : ExecutionScenario P)
      → forget (validate_sections (operation ∷ operations) scenario)
        ≡ and_then (sections_run (operation ∷ operations) scenario unseen) done
  unfolding validate_sections
  sections_forget operation operations scenario =
      forget-bind (validate_actors registered init_actor none 0 scenario.init unseen) _ _ _
        (actors_run registered init_actor none 0 scenario.init unseen)
        (λ a.
          forget-bind (validate_threads registered 0 scenario.parallel a) _ _ _
            (threads_run registered 0 scenario.parallel a)
            (λ b.
              forget-bind (validate_actors registered post_actor none 0 scenario.post b) _ _ _
                (actors_run registered post_actor none 0 scenario.post b) (λ c. refl)))
      ∙ sym (
          and_then_assoc init_part _ _
          ∙ ap (and_then init_part) (fun_ext (λ s. and_then_assoc (parallel_part s) _ _)))
    where
      registered : List (Operation P S)
      registered = operation ∷ operations

      init_part : Option Seen
      init_part = and_then (resolve_all registered none scenario.init) (λ us. run us unseen)

      parallel_part : Seen → Option Seen
      parallel_part s = and_then (resolve_threads registered 0 scenario.parallel) (λ vs. run vs s)

  All-allowed : (us : List (Use P S)) → All (λ u. allowed u unseen ≡ true) us
  All-allowed [] = tt
  All-allowed (u ∷ us) = (allowed-unseen u, All-allowed us)

  accepted_iff :
      (r : Option (List (Use P S)))
      → (and_then (and_then r (λ us. run us unseen)) done ≡ some (tt {0}))
        ↔ ((us : List (Use P S)) × (r ≡ some us) × Pairwise us)
  accepted_iff none = (λ e. cc, λ (us, e, _). cc)
  accepted_iff (some us) = (
    λ e. elim (Option-cases (run us unseen)) [
      | inl n ↦ let n' = ap (λ o. and_then o done) n in cc
      | inr (s, r) ↦ (us, refl, ((run_iff us unseen).0 (s, r)).1)
    ],
    λ (vs, e, pairs).
        let pairs' = subst Pairwise (sym (some_inj.0 e)) pairs in
        let (s, r) = (run_iff us unseen).1 (All-allowed us, pairs') in ap (λ o. and_then o done) r,
  )

  sections_iff :
      (operations : List (Operation P S)) (scenario : ExecutionScenario P)
      → (validate_sections operations scenario ≡ ok tt)
        ↔ (operations ≢ [])
          × ((us : List (Use P S)) × (resolve_scenario operations scenario ≡ some us) × Pairwise us)
  unfolding validate_sections
  sections_iff [] scenario = (λ e. cc, λ (n, _). absurd (n refl))
  sections_iff (operation ∷ operations) scenario =
      let e =
        sections_forget operation operations scenario
        ∙ ap (λ o. and_then o done) (scenario_run (operation ∷ operations) scenario unseen) in
      let (to, from) = forget_iff (validate_sections (operation ∷ operations) scenario) in
      let (to', from') = accepted_iff (resolve_scenario (operation ∷ operations) scenario) in
      (λ h. (λ n. cc, to' (sym e ∙ from h)), λ (_, v). to (e ∙ from' v))

-- `validate_scenario_against_spec` throws nothing exactly for the valid scenarios: those where there
-- are operations, each actor names one and has its number of arguments, and no two actors repeat a
-- one-shot operation or split a non-parallel group over two threads.
pub validate-IsValid :
    {P : Payloads} (spec : TestSpec P) (scenario : ExecutionScenario P)
    → (validate_scenario_against_spec spec scenario ≡ ok tt) ↔ IsValid spec scenario
unfolding validate_scenario_against_spec
validate-IsValid spec scenario =
    let (to, from) = sections_iff spec.operations scenario in
    (
      λ h.
          let (n, (us, e, pairs)) = to h in
          record { registered = n; uses = us; resolved = e; compatible = pairs },
      λ v. from (v.registered, (v.uses, v.resolved, v.compatible)),
    )
