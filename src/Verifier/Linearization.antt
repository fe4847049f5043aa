-- ===== src/Verifier/Linearization.antt =====
-- What it means for an observed history to be linearizable, with no search and no cache in it, and
-- what the verifier assumes of the user's test specification.
use lincheck_cpp.Prelude.{ℕ, ◌≤◌, ◌<◌, ◌≡◌, ◌≢◌, true, some, List, [], ◌∷◌, length, get_elem?}
use lincheck_cpp.Value.{Payloads, Value, value_eq}
use lincheck_cpp.Scenario.{Actor, ExecutionScenario, ExecutionResult, TestSpec}
use lincheck_cpp.Verifier.Model.{Thrown, Called, answered, threw, run_sequential}
use lincheck_cpp.Verifier.Intervals.{
  position, advanced, row, start_positions, observed, interval, has_complete_intervals,
}

module _ {P : Payloads} (scenario : ExecutionScenario P) where
  -- Operation q of thread u is not yet in the order.
  abbrev pub Pending : List ℕ → ℕ → ℕ → Type 0
  Pending positions u q =
      (u < length scenario.parallel) × (position positions u ≤ q) × (q < length (row scenario u))

  abbrev pub AllDone : List ℕ → Type 0
  AllDone positions =
      (t : ℕ) → t < length scenario.parallel → length (row scenario t) ≤ position positions t

module _ {P : Payloads} (scenario : ExecutionScenario P) (results : ExecutionResult P) where
  -- There is an interval for each operation, the two clocks were recorded, and operation q of thread
  -- u responded before operation p of thread t
  -- was invoked.
  pub record Precedes (u q t p : ℕ) : Type 0 where
    pub complete : has_complete_intervals scenario results ≡ true
    pub invoked : (interval scenario results t p).invocation_clock ≢ 0
    pub responded : (interval scenario results u q).response_clock ≢ 0
    pub before :
        (interval scenario results u q).response_clock
        < (interval scenario results t p).invocation_clock

  -- No other pending operation precedes operation p of thread t.
  abbrev pub Unblocked : List ℕ → ℕ → ℕ → Type 0
  Unblocked positions t p =
      (u q : ℕ) → Pending scenario positions u q → Precedes u q t p → (u ≡ t) × (q ≡ p)

module _ {P : Payloads} (spec : TestSpec P) where
  -- The sequential model answers the actors, one after the other, as was observed.
  pub data Replays : List (Actor P) → List (Value P) → spec.State → spec.State → Type 0 where
    nothing : {m : spec.State} → Replays [] [] m m
    call :
        {a : Actor P} {actors : List (Actor P)} {v w : Value P} {vs : List (Value P)}
        {m m' m'' : spec.State}
        → run_sequential spec m a ≡ answered m' w
        → value_eq w v ≡ true
        → Replays actors vs m' m''
        → Replays (a ∷ actors) (v ∷ vs) m m''

  -- The call of some actor of the list throws the exception in some state, where it is not taken for
  -- a result.
  abbrev pub ThrowsIn : List (Actor P) → Thrown → Type 0
  ThrowsIn actors x =
      (i : ℕ) × (a : Actor P) × (m : spec.State) × (get_elem? actors i ≡ some a)
      × (run_sequential spec m a ≡ threw x)

  -- The same of a scenario's actors.
  pub data Throws (scenario : ExecutionScenario P) (x : Thrown) : Type 0 where
    in_init : ThrowsIn scenario.init x → Throws scenario x
    in_thread : (t : ℕ) → ThrowsIn (row scenario t) x → Throws scenario x
    in_post : ThrowsIn scenario.post x → Throws scenario x

  -- No actor of the scenario throws anything that is not taken for a result.
  abbrev pub IsQuiet : ExecutionScenario P → Type 0
  IsQuiet scenario = (x : Thrown) → Throws scenario x → ⊥

  abbrev pub SameCall : (spec.State → Value P) → (x y : Called spec.State (Value P)) → Type 0
  SameCall key (answered m v) (answered n w) =
      (value_eq (key m) (key n) ≡ true) × ((u : Value P) → value_eq v u ≡ value_eq w u)
  SameCall key (threw _) (threw _) = Unit
  SameCall key _ _ = ⊥

  -- A copy of a model is like the model, and models with equal keys cannot be told apart.
  pub record IsFaithful : Type 0 where
    pub copies : (m : spec.State) → spec.clone_sequential m ≡ m
    pub keys :
        (key : spec.State → Value P)
        → spec.sequential_state_key ≡ some key
        → (m n : spec.State) (a : Actor P) → value_eq (key m) (key n) ≡ true
        → SameCall key (run_sequential spec m a) (run_sequential spec n a)

module _ {P : Payloads} (spec : TestSpec P) (scenario : ExecutionScenario P)
    (results : ExecutionResult P) where
  -- The next operation of thread t may come first among the pending ones: it was observed, nothing
  -- pending precedes it, and the model answers it as observed.
  pub record Enabled (m : spec.State) (positions : List ℕ) (t : ℕ) (m' : spec.State) : Type 0 where
    pub actor : Actor P
    pub result : Value P
    pub answer : Value P
    pub listed : get_elem? (row scenario t) (position positions t) ≡ some actor
    pub seen : observed scenario results t (position positions t) ≡ some result
    pub unblocked : Unblocked scenario results positions t (position positions t)
    pub ran : run_sequential spec m actor ≡ answered m' answer
    pub agrees : value_eq answer result ≡ true

  -- The pending operations can be put in an order, and then the `post` section.
  pub data Linearizes : spec.State → List ℕ → spec.State → Type 0 where
    done :
        {m m' : spec.State} {positions : List ℕ}
        → AllDone scenario positions
        → Replays spec scenario.post results.post_results m m'
        → Linearizes m positions m'
    next :
        {m m' m'' : spec.State} {positions : List ℕ} (t : ℕ)
        → Enabled m positions t m'
        → Linearizes m' (advanced positions t) m''
        → Linearizes m positions m''

  pub record Linearizable : Type 0 where
    pub started : spec.State
    pub ended : spec.State
    pub init : Replays spec scenario.init results.init_results spec.make_sequential started
    pub parallel : Linearizes started (start_positions scenario) ended
