-- ===== src/Verifier/Order.antt =====
-- Linearizability as it is usually defined: one order of all operations, which keeps each thread's
-- order and the real-time order, and which the sequential model replays.
use lincheck_cpp.Prelude.{
  ℕ, ◌-◌, ◌≡◌, true, some, List, [], ◌∷◌, ◌==◌, if◌then◌else◌, length, get_elem?, range_from, In,
}
use lincheck_cpp.Value.{Payloads, Value, value_eq}
use lincheck_cpp.Scenario.{Actor, ExecutionScenario, ExecutionResult, TestSpec}
use lincheck_cpp.Verifier.Model.{answered, run_sequential}
use lincheck_cpp.Verifier.Intervals.{position, row, observed}
use lincheck_cpp.Verifier.Linearization.{Precedes, Replays}

-- The operations of thread t in an order, each a pair of a thread and an index.
abbrev pub of_thread : ℕ → List (ℕ × ℕ) → List ℕ
of_thread t [] = []
of_thread t ((u, p) ∷ ops) = if u == t then p ∷ of_thread t ops else of_thread t ops

module _ {P : Payloads} (scenario : ExecutionScenario P) where
  -- The order has exactly the operations from `positions` on, each thread's in program order.
  abbrev pub IsComplete : List ℕ → List (ℕ × ℕ) → Type 0
  IsComplete positions ops =
      (t : ℕ)
      → of_thread t ops
        ≡ range_from (position positions t) (length (row scenario t) - position positions t)

module _ {P : Payloads} (scenario : ExecutionScenario P) (results : ExecutionResult P) where
  -- No operation precedes one that stands before it in the order.
  abbrev pub Respects : List (ℕ × ℕ) → Type 0
  Respects [] = Unit
  Respects ((t, p) ∷ ops) =
      ((u q : ℕ) → In q (of_thread u ops) → ¬ Precedes scenario results u q t p) × Respects ops

module _ {P : Payloads} (spec : TestSpec P) (scenario : ExecutionScenario P)
    (results : ExecutionResult P) where
  -- The model answers the operations of the order, one after the other, as was observed.
  pub data ReplaysOrder : List (ℕ × ℕ) → spec.State → spec.State → Type 0 where
    nothing : {m : spec.State} → ReplaysOrder [] m m
    call :
        {t p : ℕ} {ops : List (ℕ × ℕ)} {m m' m'' : spec.State} (a : Actor P) (v w : Value P)
        → get_elem? (row scenario t) p ≡ some a
        → observed scenario results t p ≡ some v
        → run_sequential spec m a ≡ answered m' w
        → value_eq w v ≡ true
        → ReplaysOrder ops m' m''
        → ReplaysOrder ((t, p) ∷ ops) m m''

  pub record IsLinearization (positions : List ℕ) (m m' : spec.State) (ops : List (ℕ × ℕ))
      : Type 0 where
    pub complete : IsComplete scenario positions ops
    pub respects : Respects scenario results ops
    pub between : spec.State
    pub replayed : ReplaysOrder ops m between
    pub post : Replays spec scenario.post results.post_results between m'
