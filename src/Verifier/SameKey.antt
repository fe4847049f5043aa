-- ===== src/Verifier/SameKey.antt =====
-- The futures of models whose keys are equal.
use lincheck_cpp.Prelude.{ℕ, ◌≡◌, refl, ◌∙◌, sym, subst, true, some, List}
use lincheck_cpp.Value.{Payloads, Value, value_eq}
use lincheck_cpp.Scenario.{Actor, ExecutionScenario, ExecutionResult, TestSpec}
use lincheck_cpp.Verifier.Model.{Called, answered, threw, run_sequential}
use lincheck_cpp.Verifier.Linearization.{
  Replays, nothing, call, SameCall, IsFaithful, Enabled, Linearizes, done, next,
}
use lincheck_cpp.Verifier.Replay.{answered-injective}

module _ {P : Payloads} (spec : TestSpec P) (faithful : IsFaithful spec)
    (key : spec.State → Value P) (keyed : spec.sequential_state_key ≡ some key) where
  SameCall-answered :
      {m' : spec.State} {w : Value P} (x y : Called spec.State (Value P))
      → SameCall spec key x y
      → x ≡ answered m' w
      → (n' : spec.State) × (u : Value P) × (y ≡ answered n' u)
        × (value_eq (key m') (key n') ≡ true)
        × ((v : Value P) → value_eq w v ≡ value_eq u v)
  SameCall-answered (threw x) (threw y) h e = cc
  SameCall-answered (threw x) (answered n u) h e = absurd h
  SameCall-answered (answered m v) (threw y) h e = absurd h
  SameCall-answered (answered m v) (answered n u) h e =
      let (same, value) = answered-injective e in
      (
        n,
        u,
        refl,
        subst (λ x. value_eq (key x) (key n) ≡ true) same h.0,
        subst (λ x. (v : Value P) → value_eq x v ≡ value_eq u v) value h.1,
      )

  -- A call that `m` answers is answered alike by a model with the same key.
  same_answer :
      (m n : spec.State) (a : Actor P) {m' : spec.State} {w : Value P}
      → value_eq (key m) (key n) ≡ true
      → run_sequential spec m a ≡ answered m' w
      → (n' : spec.State) × (u : Value P) × (run_sequential spec n a ≡ answered n' u)
        × (value_eq (key m') (key n') ≡ true)
        × ((v : Value P) → value_eq w v ≡ value_eq u v)
  same_answer m n a same e =
      SameCall-answered (run_sequential spec m a) (run_sequential spec n a)
        (faithful.keys key keyed m n a same) e

  Replays-of_key :
      {m n m' : spec.State} {actors : List (Actor P)} {vs : List (Value P)}
      → value_eq (key m) (key n) ≡ true
      → Replays spec actors vs m m'
      → (n' : spec.State) × Replays spec actors vs n n'
  Replays-of_key {n} same nothing = (n, nothing)
  Replays-of_key {m} {n} same (call {a} {v} e h r) =
      let (n1, u, e', same', alike) = same_answer m n a same e in
      let (n', r') = Replays-of_key same' r in (n', call e' (sym (alike v) ∙ h) r')

  module _ (scenario : ExecutionScenario P) (results : ExecutionResult P) where
    Enabled-of_key :
        {m n m' : spec.State} {positions : List ℕ} {t : ℕ}
        → value_eq (key m) (key n) ≡ true
        → Enabled spec scenario results m positions t m'
        → (n' : spec.State) × (value_eq (key m') (key n') ≡ true)
          × Enabled spec scenario results n positions t n'
    Enabled-of_key {m} {n} same h =
        let (n', u, e, same', alike) = same_answer m n h.actor same h.ran in
        (
          n',
          same',
          record {
            actor = h.actor;
            result = h.result;
            answer = u;
            listed = h.listed;
            seen = h.seen;
            unblocked = h.unblocked;
            ran = e;
            agrees = sym (alike h.result) ∙ h.agrees;
          },
        )

    pub Linearizes-of_key :
        {m n m' : spec.State} {positions : List ℕ}
        → value_eq (key m) (key n) ≡ true
        → Linearizes spec scenario results m positions m'
        → (n' : spec.State) × Linearizes spec scenario results n positions n'
    Linearizes-of_key same (done all r) = let (n', r') = Replays-of_key same r in (n', done all r')
    Linearizes-of_key same (next t h l) =
        let (n1, same', h') = Enabled-of_key same h in
        let (n', l') = Linearizes-of_key same' l in (n', next t h' l')
