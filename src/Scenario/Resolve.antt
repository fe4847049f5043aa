-- ===== src/Scenario/Resolve.antt =====
-- The three loops of `validate_scenario_against_spec` resolve each actor, and run the constraints
-- over what they resolve to.
use mathlib.Core.Path.{fun_ext}
use lincheck_cpp.Prelude.{
  ℕ, suc, ◌≡◌, refl, sym, ap, ◌∙◌, Bool, true, false, ◌==◌, if◌then◌else◌, Option, none, some, List,
  [], ◌∷◌, ◌++◌, length, get_elem?, ok, err, ◌>>=◌, arith,
}
use lincheck_cpp.Value.{Payloads}
use lincheck_cpp.Scenario.{Actor, ExecutionScenario, Operation}
use lincheck_cpp.Scenario.Validate.{
  Check, Location, Seen, check_group, check_one_shot, check_parallel, validate_constraints,
  validate_actor_against_spec, validate_actor, validate_actors, validate_threads,
  wrong_argument_count, unknown_operation, parallel_actor,
}
use lincheck_cpp.Scenario.Constraints.{and_then, Use, step, run}

abbrev pub forget : {A : Type 0} → Check A → Option A
forget (ok a) = some a
forget (err e) = none

pub forget-bind :
    {A B : Type 0} (m : Check A) (f : A → Check B) (o : Option A) (g : A → Option B)
    → forget m ≡ o
    → ((a : A) → forget (f a) ≡ g a)
    → forget (m >>= f) ≡ and_then o g
forget-bind (ok a) f o g e h = h a ∙ ap (λ o. and_then o g) e
forget-bind (err _) f o g e h = ap (λ o. and_then o g) e

pub and_then_assoc :
    {A B C : Type 0} (o : Option A) (f : A → Option B) (g : B → Option C)
    → and_then (and_then o f) g ≡ and_then o (λ a. and_then (f a) g)
and_then_assoc none f g = refl
and_then_assoc (some a) f g = refl

abbrev appended : {A : Type 0} → Option (List A) → Option (List A) → Option (List A)
appended xs ys = and_then xs (λ xs. and_then ys (λ ys. some (xs ++ ys)))

module _ {P : Payloads} {S : Type 0} (operations : List (Operation P S)) where
  -- The actor's operation, if the actor names one and has as many arguments as it takes.
  abbrev pub resolve_as : Actor P → Option ℕ → Option (Operation P S) → Option (Use P S)
  resolve_as actor thread none = none
  resolve_as actor thread (some operation) =
      if length actor.arguments == operation.argument_count
      then some (record { operation = operation; index = actor.operation_index; thread = thread })
      else none

  abbrev pub resolve : Option ℕ → Actor P → Option (Use P S)
  resolve thread actor = resolve_as actor thread (get_elem? operations actor.operation_index)

  abbrev pub resolve_all : Option ℕ → List (Actor P) → Option (List (Use P S))
  resolve_all thread [] = some []
  resolve_all thread (actor ∷ actors) =
      and_then (resolve thread actor)
        (λ u. and_then (resolve_all thread actors) (λ us. some (u ∷ us)))

  abbrev pub resolve_threads : ℕ → List (List (Actor P)) → Option (List (Use P S))
  resolve_threads t [] = some []
  resolve_threads t (actors ∷ threads) =
      appended (resolve_all (some t) actors) (resolve_threads (suc t) threads)

  -- The uses of all actors, in the order of the sections.
  abbrev pub resolve_scenario : ExecutionScenario P → Option (List (Use P S))
  resolve_scenario scenario =
      appended (resolve_all none scenario.init)
        (appended (resolve_threads 0 scenario.parallel) (resolve_all none scenario.post))

  constraints_step :
      (operation : Operation P S) (index : ℕ) (location : Location) (thread : Option ℕ)
      (seen : Seen)
      → forget (validate_constraints operation index location thread seen)
        ≡ step (record { operation = operation; index = index; thread = thread }) seen
  unfolding validate_constraints check_one_shot check_parallel check_group
  constraints_step operation index location none seen = ground arith
  constraints_step operation index location (some t) seen = ground arith

  actor_step :
      (actor : Actor P) (location : Location) (thread : Option ℕ) (seen : Seen)
      → forget (validate_actor operations actor location thread seen)
        ≡ and_then (resolve thread actor) (λ u. step u seen)
  unfolding validate_actor validate_actor_against_spec
  actor_step actor location thread seen = go (get_elem? operations actor.operation_index)
    where
      counted :
          (operation : Operation P S) (b : Bool)
          → forget (
              (if b then ok operation else err (wrong_argument_count location)) >>= λ o.
              validate_constraints o actor.operation_index location thread seen)
            ≡ and_then {A = Use P S}
                (if b
                  then some (record {
                    operation = operation;
                    index = actor.operation_index;
                    thread = thread;
                  })
                  else none)
                (λ u. step u seen)
      counted operation true = constraints_step operation actor.operation_index location thread seen
      counted operation false = refl

      go :
          (o : Option (Operation P S))
          → forget (
              (elim o [
                | none ↦ err (unknown_operation location)
                | some operation ↦
                    if length actor.arguments == operation.argument_count
                    then ok operation
                    else err (wrong_argument_count location)
              ])
              >>= λ o. validate_constraints o actor.operation_index location thread seen)
            ≡ and_then (resolve_as actor thread o) (λ u. step u seen)
      go none = refl
      go (some operation) = counted operation (length actor.arguments == operation.argument_count)

  -- To run through the resolved uses is to resolve and run one after the other.
  run_cons :
      (seen : Seen) (r : Option (Use P S)) (rs : Option (List (Use P S)))
      → and_then (and_then r (λ u. step u seen)) (λ s. and_then rs (λ us. run us s))
        ≡ and_then (and_then r (λ u. and_then rs (λ us. some (u ∷ us)))) (λ us. run us seen)
  run_cons seen none rs = refl
  run_cons seen (some u) (some us) = refl
  run_cons seen (some u) none = no_more (step u seen)
    where
      no_more : (s : Option Seen) → and_then {B = Seen} s (λ s. none) ≡ none
      no_more none = refl
      no_more (some s) = refl

  run-append :
      (us vs : List (Use P S)) (seen : Seen) → run (us ++ vs) seen ≡ and_then (run us seen) (run vs)
  run-append [] vs seen = refl
  run-append (u ∷ us) vs seen =
      ap (and_then (step u seen)) (fun_ext (run-append us vs))
      ∙ sym (and_then_assoc (step u seen) (run us) (run vs))

  pub actors_run :
      (place : ℕ → Location) (thread : Option ℕ) (i : ℕ) (actors : List (Actor P)) (seen : Seen)
      → forget (validate_actors operations place thread i actors seen)
        ≡ and_then (resolve_all thread actors) (λ us. run us seen)
  unfolding validate_actors
  actors_run place thread i [] seen = refl
  actors_run place thread i (actor ∷ actors) seen =
      forget-bind (validate_actor operations actor (place i) thread seen) _ _ _
        (actor_step actor (place i) thread seen) (actors_run place thread (suc i) actors)
      ∙ run_cons seen (resolve thread actor) (resolve_all thread actors)

  run_threads :
      (seen : Seen) (r rs : Option (List (Use P S)))
      → and_then (and_then r (λ us. run us seen)) (λ s. and_then rs (λ vs. run vs s))
        ≡ and_then (appended r rs) (λ us. run us seen)
  run_threads seen none rs = refl
  run_threads seen (some us) (some vs) = sym (run-append us vs seen)
  run_threads seen (some us) none = no_more (run us seen)
    where
      no_more : (s : Option Seen) → and_then {B = Seen} s (λ s. none) ≡ none
      no_more none = refl
      no_more (some s) = refl

  pub threads_run :
      (t : ℕ) (threads : List (List (Actor P))) (seen : Seen)
      → forget (validate_threads operations t threads seen)
        ≡ and_then (resolve_threads t threads) (λ us. run us seen)
  unfolding validate_threads
  threads_run t [] seen = refl
  threads_run t (actors ∷ threads) seen =
      forget-bind (validate_actors operations (parallel_actor t) (some t) 0 actors seen) _ _ _
        (actors_run (parallel_actor t) (some t) 0 actors seen) (threads_run (suc t) threads)
      ∙ run_threads seen (resolve_all (some t) actors) (resolve_threads (suc t) threads)

  -- The three sections, one after the other.
  abbrev pub sections_run : ExecutionScenario P → Seen → Option Seen
  sections_run scenario seen =
      and_then (and_then (resolve_all none scenario.init) (λ us. run us seen)) (λ s.
        and_then (and_then (resolve_threads 0 scenario.parallel) (λ vs. run vs s))
          (λ s'. and_then (resolve_all none scenario.post) (λ ws. run ws s')))

  pub scenario_run :
      (scenario : ExecutionScenario P) (seen : Seen)
      → sections_run scenario seen ≡ and_then (resolve_scenario scenario) (λ us. run us seen)
  scenario_run scenario seen =
      ap (and_then (and_then (resolve_all none scenario.init) (λ us. run us seen))) (
        fun_ext (λ s.
          run_threads s (resolve_threads 0 scenario.parallel) (resolve_all none scenario.post)))
      ∙ run_threads seen (resolve_all none scenario.init)
          (appended (resolve_threads 0 scenario.parallel) (resolve_all none scenario.post))
