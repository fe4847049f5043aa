-- ===== src/Verifier/Named.antt =====
-- What the calls of a valid scenario throw: each actor names an operation, so that `operations.at`
-- finds it.
use lincheck_cpp.Prelude.{
  ℕ, zero, suc, ◌≡◌, refl, sym, subst, ap, ◌∙◌, Option, none, some, List, [], ◌∷◌, inl, inr,
  Option-cases, get_elem?, get_or, Bool, true, false, ok,
}
use mathlib.Core.Option.{some_inj}
use lincheck_cpp.Value.{Payloads, OperationException}
use lincheck_cpp.Scenario.{Actor, ExecutionScenario, Operation, TestSpec, Ran, returned, raised}
use lincheck_cpp.Scenario.Validate.{validate_scenario_against_spec}
use lincheck_cpp.Scenario.Constraints.{Use, and_then}
use lincheck_cpp.Scenario.Resolve.{resolve_as, resolve, resolve_all, resolve_threads}
use lincheck_cpp.Scenario.Valid.{validate-IsValid}
use lincheck_cpp.Verifier.Model.{Thrown, out_of_range, rethrown, threw, settle, run_sequential}
use lincheck_cpp.Verifier.Intervals.{row}
use lincheck_cpp.Verifier.Linearization.{ThrowsIn, Throws, in_init, in_thread, in_post}

and_then-some :
    {A B : Type 0} (o : Option A) (f : A → Option B) {b : B}
    → and_then o f ≡ some b
    → (a : A) × (o ≡ some a) × (f a ≡ some b)
and_then-some none f e = cc
and_then-some (some a) f e = (a, refl, e)

module _ {P : Payloads} (spec : TestSpec P) where
  -- Each actor of the list names an operation.
  abbrev AreNamed : List (Actor P) → Type 0
  AreNamed [] = Unit
  AreNamed (a ∷ actors) =
      ((op : Operation P spec.State) × (get_elem? spec.operations a.operation_index ≡ some op))
      × AreNamed actors

  resolve-some :
      (thread : Option ℕ) (a : Actor P) {u : Use P spec.State}
      → resolve spec.operations thread a ≡ some u
      → (op : Operation P spec.State) × (get_elem? spec.operations a.operation_index ≡ some op)
  resolve-some thread a e = elim (Option-cases (get_elem? spec.operations a.operation_index)) [
    | inl n ↦ absurd (let f = ap (resolve_as spec.operations a thread) n in cc)
    | inr found ↦ found
  ]

  resolve_all-AreNamed :
      (thread : Option ℕ) (actors : List (Actor P)) {us : List (Use P spec.State)}
      → resolve_all spec.operations thread actors ≡ some us
      → AreNamed actors
  resolve_all-AreNamed thread [] e = tt
  resolve_all-AreNamed thread (a ∷ actors) e =
      let (u, here, rest) = and_then-some (resolve spec.operations thread a) _ e in
      let (vs, there, _) = and_then-some (resolve_all spec.operations thread actors) _ rest in
      (resolve-some thread a here, resolve_all-AreNamed thread actors there)

  resolve_threads-AreNamed :
      (n : ℕ) (threads : List (List (Actor P))) {us : List (Use P spec.State)}
      → resolve_threads spec.operations n threads ≡ some us
      → (t : ℕ) → AreNamed (get_or threads t [])
  resolve_threads-AreNamed n [] e t = tt
  resolve_threads-AreNamed n (actors ∷ threads) e zero =
      let (us, here, _) = and_then-some (resolve_all spec.operations (some n) actors) _ e in
      resolve_all-AreNamed (some n) actors here
  resolve_threads-AreNamed n (actors ∷ threads) e (suc t) =
      let (us, _, rest) = and_then-some (resolve_all spec.operations (some n) actors) _ e in
      let (vs, there, _) = and_then-some (resolve_threads spec.operations (suc n) threads) _ rest in
      resolve_threads-AreNamed (suc n) threads there t

  settle-rethrown :
      (exception_results : Bool) (ran : spec.State × Ran P) (x : Thrown)
      → settle exception_results ran ≡ threw x
      → (e : OperationException) × (x ≡ rethrown e)
  unfolding settle
  settle-rethrown b (m, returned v) x h = cc
  settle-rethrown true (m, raised e) x h = cc
  settle-rethrown false (m, raised e) x h = (e, cc)

  named-rethrown :
      (actors : List (Actor P)) (x : Thrown)
      → AreNamed actors
      → ThrowsIn spec actors x
      → (e : OperationException) × (x ≡ rethrown e)
  unfolding run_sequential
  named-rethrown [] x h (i, a, m, listed, ran) = cc
  named-rethrown (b ∷ actors) x ((op, found), h) (zero, a, m, listed, ran) =
      let found' =
        subst (λ c. get_elem? spec.operations c.operation_index ≡ some op) (some_inj.0 listed)
          found in
      settle-rethrown op.options.exception_results (op.run_sequential m a.arguments) x (
        sym (
          ap
            (λ o. elim o [
              | none ↦ threw out_of_range
              | some o ↦ settle o.options.exception_results (o.run_sequential m a.arguments)
            ])
            found')
        ∙ ran)
  named-rethrown (b ∷ actors) x (_, h) (suc i, a, m, listed, ran) =
      named-rethrown actors x h (i, a, m, listed, ran)

  -- In a valid scenario only the operations throw.
  pub valid-rethrown :
      (scenario : ExecutionScenario P) (x : Thrown)
      → validate_scenario_against_spec spec scenario ≡ ok tt
      → Throws spec scenario x
      → (e : OperationException) × (x ≡ rethrown e)
  valid-rethrown scenario x good throws =
      let valid = (validate-IsValid spec scenario).0 good in
      let (us, init, rest) =
        and_then-some (resolve_all spec.operations none scenario.init) _ valid.resolved in
      let (ws, joined, _) = and_then-some _ _ rest in
      let (vs, parallel, last) =
        and_then-some (resolve_threads spec.operations 0 scenario.parallel) _ joined in
      let (zs, post, _) = and_then-some (resolve_all spec.operations none scenario.post) _ last in
      elim throws [
        | in_init h ↦
            named-rethrown scenario.init x (resolve_all-AreNamed none scenario.init init) h
        | in_thread t h ↦
            named-rethrown (row scenario t) x
              (resolve_threads-AreNamed 0 scenario.parallel parallel t) h
        | in_post h ↦
            named-rethrown scenario.post x (resolve_all-AreNamed none scenario.post post) h
      ]
