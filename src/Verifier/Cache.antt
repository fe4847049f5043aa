-- ===== src/Verifier/Cache.antt =====
-- include/lincheck/lincheck.hpp, `LinearizabilityVerifier`: the verdicts of the search, and
-- `VerifierCache`, which remembers them by the positions and the model's key.
use lincheck_cpp.Prelude.{
  ℕ, Bool, false, not, ◌&&◌, ◌||◌, if◌then◌else◌, Option, none, some, List, [], ◌∷◌, list_eq,
}
use lincheck_cpp.Value.{Payloads, Value, value_eq}
use lincheck_cpp.Scenario.{TestSpec}
use lincheck_cpp.Verifier.Model.{Thrown}

-- How `verify_parallel` ends: true with the final model, false, or an operation's exception.
-- `out_of_fuel` belongs to the model only.
pub data Verdict (S : Type 0) : Type 0 where
  linearized : S → Verdict S
  refuted out_of_fuel : Verdict S
  threw : Thrown → Verdict S

pub record CacheKey (P : Payloads) : Type 0 where
  pub positions : List ℕ
  pub state : Value P

-- The map `successful` is an association list, the newest entry first.
pub record VerifierCache (P : Payloads) (S : Type 0) : Type 0 where
  pub successful : List (CacheKey P × S)
  pub failed : List (CacheKey P)

abbrev pub empty_cache : {P : Payloads} {S : Type 0} → VerifierCache P S
empty_cache = record { successful = []; failed = [] }

module _ {P : Payloads} where
  abbrev pub key_eq : CacheKey P → CacheKey P → Bool
  key_eq a b = list_eq a.positions b.positions && value_eq a.state b.state

  unfoldable pub contains_failed : CacheKey P → List (CacheKey P) → Bool
  contains_failed key [] = false
  contains_failed key (k ∷ keys) = key_eq key k || contains_failed key keys

  unfoldable pub find_successful : {S : Type 0} → CacheKey P → List (CacheKey P × S) → Option S
  find_successful key [] = none
  find_successful key ((k, model) ∷ entries) =
      if key_eq key k then some model else find_successful key entries

module _ {P : Payloads} (spec : TestSpec P) where
  abbrev pub Search : Type 0
  Search = Verdict spec.State × VerifierCache P spec.State

  unfoldable pub make_cache_key : spec.State → List ℕ → Option (CacheKey P)
  make_cache_key model positions = elim spec.sequential_state_key [
    | none ↦ none
    | some state_key ↦ some (record { positions = positions; state = state_key model })
  ]

  -- The lookups before the loop: the verdict, if the cache has it. A search that has to explain a
  -- failure does not read `failed`.
  unfoldable pub consult :
      Bool → Option (CacheKey P) → VerifierCache P spec.State → Option (Verdict spec.State)
  consult explain none cache = none
  consult explain (some key) cache = elim (find_successful key cache.successful) [
    | some model ↦ some (linearized (spec.clone_sequential model))
    | none ↦ if not explain && contains_failed key cache.failed then some refuted else none
  ]

  -- What the loop's verdict adds to the cache.
  unfoldable pub remember : Option (CacheKey P) → Search → Search
  remember (some key) (linearized model, cache) = (
    linearized model,
    record cache { successful = (key, spec.clone_sequential model) ∷ cache.successful },
  )
  remember (some key) (refuted, cache) = (refuted, record cache { failed = key ∷ cache.failed })
  remember key search = search

  -- The loop goes on only after a recursive call that returned false.
  abbrev pub otherwise : Search → (VerifierCache P spec.State → Search) → Search
  otherwise (refuted, cache) continue = continue cache
  otherwise (verdict, cache) continue = (verdict, cache)
