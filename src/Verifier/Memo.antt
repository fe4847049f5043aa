-- ===== src/Verifier/Memo.antt =====
-- The cache: what its entries say of the models with their keys.
use mathlib.Core.Option.{some_inj, some-ne-none}
use lincheck_cpp.Prelude.{
  ℕ, ◌≡◌, refl, sym, subst, ◌∙◌, Bool, true, false, Option, none, some, List, [], ◌∷◌, inl, inr,
  Bool-cases, Option-cases, list_eq_iff, arith,
}
use lincheck_cpp.Value.{Payloads, Value, value_eq}
use lincheck_cpp.Scenario.{ExecutionScenario, ExecutionResult, TestSpec}
use lincheck_cpp.Verifier.Cache.{
  Verdict, linearized, refuted, out_of_fuel, CacheKey, VerifierCache, key_eq, contains_failed,
  empty_cache, find_successful, Search, make_cache_key, consult, remember,
}
use lincheck_cpp.Verifier.Linearization.{Throws, IsFaithful, Linearizes}
use lincheck_cpp.Verifier.SameKey.{Linearizes-of_key}

module _ {P : Payloads} where
  key_parts :
      (ps qs : List ℕ) (v w : Value P)
      → key_eq (record { positions = ps; state = v }) (record { positions = qs; state = w }) ≡ true
      → (ps ≡ qs) × (value_eq v w ≡ true)
  key_parts ps qs v w h = ground (arith, list_eq_iff ps qs)

  contains_failed_tail :
      (key k : CacheKey P) (failed : List (CacheKey P))
      → key_eq key k ≡ false
      → contains_failed key (k ∷ failed) ≡ true
      → contains_failed key failed ≡ true
  unfolding contains_failed
  contains_failed_tail key k failed h e = ground arith

module _ {P : Payloads} (spec : TestSpec P) where
  consult-some :
      (explain : Bool) (key : Option (CacheKey P)) (cache : VerifierCache P spec.State)
      → cache.successful ≡ []
      → {verdict : Verdict spec.State} → consult spec explain key cache ≡ some verdict
      → (k : CacheKey P) × (key ≡ some k)
        × (verdict ≡ refuted)
        × (contains_failed k cache.failed ≡ true)
  unfolding consult find_successful
  consult-some explain none cache unused e = cc
  consult-some explain (some k) cache unused e = (k, refl, ground arith, ground arith)

module _ {P : Payloads} (spec : TestSpec P) (scenario : ExecutionScenario P)
    (results : ExecutionResult P) (faithful : IsFaithful spec) where
  abbrev pub Cannot : spec.State → List ℕ → Type 0
  Cannot m positions = (m' : spec.State) → ¬ Linearizes spec scenario results m positions m'

  -- `successful` is empty while the search goes on, and `failed` holds only keys of dead ends.
  pub record CacheOk (cache : VerifierCache P spec.State) : Type 0 where
    pub unused : cache.successful ≡ []
    pub dead :
        (key : spec.State → Value P)
        → spec.sequential_state_key ≡ some key
        → (m : spec.State) (positions : List ℕ)
        → contains_failed (record { positions = positions; state = key m }) cache.failed ≡ true
        → Cannot m positions

  abbrev pub SearchCorrect : spec.State → List ℕ → Search spec → Type 0
  SearchCorrect m positions (linearized m', cache) = Linearizes spec scenario results m positions m'
  SearchCorrect m positions (refuted, cache) = Cannot m positions × CacheOk cache
  SearchCorrect m positions (Verdict.threw x, cache) = Throws spec scenario x
  SearchCorrect m positions (out_of_fuel, cache) = ⊥

  pub empty_cache-Ok : CacheOk empty_cache
  unfolding contains_failed
  empty_cache-Ok = record { unused = refl; dead = λ key keyed m positions found. cc }

  -- What is stored as a dead end is one, for every model with the key.
  stored_dead :
      (m : spec.State) (positions : List ℕ) (k : CacheKey P)
      → make_cache_key spec m positions ≡ some k
      → Cannot m positions
      → (key : spec.State → Value P) → spec.sequential_state_key ≡ some key
      → (n : spec.State) (ps : List ℕ) → key_eq (record { positions = ps; state = key n }) k ≡ true
      → Cannot n ps
  unfolding make_cache_key
  stored_dead m positions k e cannot key keyed n ps same m' l =
      let stored : record { positions = positions; state = key m } ≡ k =
        some_inj.0 (rw (keyed, make_cache_key) at e) in
      let parts = key_parts ps positions (key n) (key m) (
        subst (λ k. key_eq (record { positions = ps; state = key n }) k ≡ true) (sym stored)
          same) in
      let (m1, l1) = Linearizes-of_key spec faithful key keyed scenario results parts.1 l in
      cannot m1 (subst (λ ps. Linearizes spec scenario results m ps m1) parts.0 l1)

  pub remember_lem :
      (m : spec.State) (positions : List ℕ) (key : Option (CacheKey P)) (search : Search spec)
      → make_cache_key spec m positions ≡ key
      → SearchCorrect m positions search
      → SearchCorrect m positions (remember spec key search)
  unfolding remember
  remember_lem m positions none search e h = h
  remember_lem m positions (some k) (linearized m', cache) e h = h
  remember_lem m positions (some k) (Verdict.threw x, cache) e h = h
  remember_lem m positions (some k) (out_of_fuel, cache) e h = h
  remember_lem m positions (some k) (refuted, cache) e (cannot, ok) = (
    cannot,
    record {
      unused = ok.unused;
      dead = λ key keyed n ps found.
          elim (Bool-cases (key_eq (record { positions = ps; state = key n }) k)) [
            | inl y ↦ stored_dead m positions k e cannot key keyed n ps y
            | inr other ↦ ok.dead key keyed n ps (contains_failed_tail _ k cache.failed other found)
          ];
    },
  )

  -- A remembered verdict is right. It is never a success, as `successful` is empty.
  pub consult_lem :
      (explain : Bool) (m : spec.State) (positions : List ℕ) (cache : VerifierCache P spec.State)
      → CacheOk cache
      → (verdict : Verdict spec.State)
      → consult spec explain (make_cache_key spec m positions) cache ≡ some verdict
      → SearchCorrect m positions (verdict, cache)
  unfolding make_cache_key
  consult_lem explain m positions cache ok verdict e =
      let (k, key_of, again, found) =
        consult-some spec explain (make_cache_key spec m positions) cache ok.unused e in
      elim (Option-cases spec.sequential_state_key) [
        | inl unkeyed ↦ absurd (some-ne-none k (sym key_of ∙ rw (unkeyed, make_cache_key)))
        | inr (key, keyed) ↦
            let same : record { positions = positions; state = key m } ≡ k =
              some_inj.0 (rw (keyed, make_cache_key) at key_of) in
            rw again (
              ok.dead key keyed m positions
                  (subst (λ k. contains_failed k cache.failed ≡ true) (sym same) found),
              ok,
            )
      ]
