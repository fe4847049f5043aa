-- ===== src/Verifier/Replay.antt =====
-- `apply_sequence`, against the replays of a section.
use lincheck_cpp.Prelude.{
  suc, ◌≡◌, refl, true, List, [], ◌∷◌, length, ap, subst, sym, ◌∙◌, ◌⊎◌, inl, inr, Bool-cases,
  ==_iff, ◌==◌, arith,
}
use lincheck_cpp.Value.{Payloads, Value, value_eq}
use lincheck_cpp.Scenario.{Actor, TestSpec}
use lincheck_cpp.Verifier.Model.{
  Thrown, Called, answered, threw, Applied, accepted, rejected, run_sequential, apply_loop,
  apply_sequence,
}
use lincheck_cpp.Verifier.Linearization.{Replays, nothing, call, ThrowsIn}

pub Called-cases :
    {S V : Type 0} (c : Called S V)
    → ((x : Thrown) × (c ≡ threw x)) ⊎ ((m : S) × (v : V) × (c ≡ answered m v))
Called-cases (threw x) = inl (x, refl)
Called-cases (answered m v) = inr (m, v, refl)

pub answered-injective :
    {S V : Type 0} {m n : S} {v w : V} → answered m v ≡ answered n w → (m ≡ n) × (v ≡ w)
answered-injective h = (cc, cc)

module _ {P : Payloads} (spec : TestSpec P) where
  abbrev pub AppliedCorrect :
      spec.State → List (Actor P) → List (Value P) → Applied spec.State → Type 0
  AppliedCorrect m actors vs (accepted m') = Replays spec actors vs m m'
  AppliedCorrect m actors vs rejected = (m' : spec.State) → ¬ Replays spec actors vs m m'
  AppliedCorrect m actors vs (Applied.threw x) = ThrowsIn spec actors x

  Replays-length :
      {actors : List (Actor P)} {vs : List (Value P)} {m m' : spec.State}
      → Replays spec actors vs m m'
      → length actors ≡ length vs
  Replays-length nothing = refl
  Replays-length (call _ _ r) = ap suc (Replays-length r)

  -- The first call of a replay is the model's own, and its answer is the one observed.
  Replays-inv :
      {a : Actor P} {actors : List (Actor P)} {v w : Value P} {vs : List (Value P)}
      {m n m' : spec.State}
      → run_sequential spec m a ≡ answered n w
      → Replays spec (a ∷ actors) (v ∷ vs) m m'
      → (value_eq w v ≡ true) × Replays spec actors vs n m'
  Replays-inv {actors} {v} {vs} {m'} e (call e' h r) =
      let (same, value) = answered-injective (sym e' ∙ e) in
      (subst (λ w. value_eq w v ≡ true) value h, subst (λ m. Replays spec actors vs m m') same r)

  Replays-nil : {m n : spec.State} → Replays spec [] [] m n → n ≡ m
  Replays-nil nothing = refl

  -- The model is a function, so a replay leads to one state.
  pub Replays-unique :
      {actors : List (Actor P)} {vs : List (Value P)} {m n n' : spec.State}
      → Replays spec actors vs m n
      → Replays spec actors vs m n'
      → n' ≡ n
  Replays-unique nothing r = Replays-nil r
  Replays-unique (call e h r) r' = Replays-unique r (Replays-inv e r').1

  pub apply_loop_lem :
      (m : spec.State) (actors : List (Actor P)) (vs : List (Value P))
      → length actors ≡ length vs
      → AppliedCorrect m actors vs (apply_loop spec m actors vs)
  unfolding apply_loop
  apply_loop_lem m [] [] h = nothing
  apply_loop_lem m [] (v ∷ vs) h = absurd (omega arith)
  apply_loop_lem m (a ∷ actors) [] h = absurd (omega arith)
  apply_loop_lem m (a ∷ actors) (v ∷ vs) h = elim (Called-cases (run_sequential spec m a)) [
    | inl (x, e) ↦ rw (e, apply_loop) (0, a, m, refl, e)
    | inr (n, w, e) ↦ elim (Bool-cases (value_eq w v)) [
      | inl y ↦
          rw (e, apply_loop)
            (rw (y, apply_loop)
              (extend (apply_loop spec n actors vs) e y (apply_loop_lem n actors vs (omega arith))))
      | inr no_match ↦
          rw (e, apply_loop) (rw (no_match, apply_loop) (λ m' r. let y = (Replays-inv e r).0 in cc))
    ]
  ]
    where
      extend :
          {n : spec.State} {w : Value P} (r : Applied spec.State)
          → run_sequential spec m a ≡ answered n w
          → value_eq w v ≡ true
          → AppliedCorrect n actors vs r
          → AppliedCorrect m (a ∷ actors) (v ∷ vs) r
      extend (accepted m') e y r = call e y r
      extend rejected e y r = λ m' d. r m' (Replays-inv e d).1
      extend (Applied.threw x) e y (i, b, k, listed, r) = (suc i, b, k, listed, r)

  -- `apply_sequence` accepts with the model that a replay of the section leads to, it rejects only
  -- where there is no replay, and it throws only what the call of one of the actors throws.
  pub apply_sequence_lem :
      (m : spec.State) (actors : List (Actor P)) (vs : List (Value P))
      → AppliedCorrect m actors vs (apply_sequence spec m actors vs)
  unfolding apply_sequence
  apply_sequence_lem m actors vs = elim (Bool-cases (length actors == length vs)) [
    | inl same ↦
        rw (same, apply_sequence)
          (apply_loop_lem m actors vs ((==_iff (length actors) (length vs)).0 same))
    | inr differ ↦
        rw (differ, apply_sequence) (λ m' r. let same = (==_iff _ _).1 (Replays-length r) in cc)
  ]
