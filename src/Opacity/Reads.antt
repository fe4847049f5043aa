-- ===== src/Opacity/Reads.antt =====
-- include/lincheck/lincheck.hpp, `validate_stm_opacity_transaction_reads`: it keeps a
-- transaction's writes in a buffer. Here it is compared with a run of the transaction in place, on
-- the serial state.
use mathlib.Core.Path.{fun_ext}
use mathlib.Core.Option.{some_inj}
use lincheck_cpp.Prelude.{
  ◌≡◌, refl, sym, subst, ap, ◌∙◌, Bool, true, false, if◌then◌else◌, Option, none, some, List, [],
  ◌∷◌, inl, inr, Bool-cases, Option-cases, list_eq, arith,
}
use lincheck_cpp.Value.{Str, Payloads, Value, value_eq}
use lincheck_cpp.Opacity.History.{
  StmOpacityAccess, StmOpacityTransactionAttempt, StmOpacityState, find_value, insert_or_assign,
  find_value-insert_or_assign,
}

-- What a memory holds at each location.
abbrev pub Memory : Payloads → Type 0
Memory P = Str → Option (Value P)

module _ {P : Payloads} where
  -- What a read has to see: the transaction's own write, or else the serial prefix.
  unfoldable pub expected_value : StmOpacityState P → StmOpacityState P → Str → Option (Value P)
  expected_value local_writes state location = elim (find_value location local_writes) [
    | some v ↦ some v
    | none ↦ find_value location state
  ]

  -- The loop over the accesses gives the local writes, or `none` where a read fails.
  unfoldable pub read_loop :
      StmOpacityState P → StmOpacityState P → List (StmOpacityAccess P) → Option (StmOpacityState P)
  read_loop state local_writes [] = some local_writes
  read_loop state local_writes (access ∷ accesses) = elim access.write [
    | true ↦
        read_loop state (insert_or_assign access.location_id access.value local_writes) accesses
    | false ↦ elim (expected_value local_writes state access.location_id) [
      | none ↦ none
      | some v ↦ elim (value_eq access.value v) [
        | true ↦ read_loop state local_writes accesses
        | false ↦ none
      ]
    ]
  ]

  -- The loop over the local writes, whose keys are distinct and come in no particular order.
  unfoldable pub commit_writes : StmOpacityState P → StmOpacityState P → StmOpacityState P
  commit_writes state [] = state
  commit_writes state ((k, v) ∷ writes) = insert_or_assign k v (commit_writes state writes)

  -- The state after the transaction has committed, or `none` where the code returns false.
  unfoldable pub validate_stm_opacity_transaction_reads :
      StmOpacityTransactionAttempt P → StmOpacityState P → Option (StmOpacityState P)
  validate_stm_opacity_transaction_reads tx state = elim (read_loop state [] tx.accesses) [
    | none ↦ none
    | some writes ↦ some (commit_writes state writes)
  ]

  unfoldable pub final_writes_loop :
      StmOpacityState P → List (StmOpacityAccess P) → StmOpacityState P
  final_writes_loop writes [] = writes
  final_writes_loop writes (access ∷ accesses) =
      final_writes_loop
        (if access.write then insert_or_assign access.location_id access.value writes else writes)
        accesses

  unfoldable pub stm_opacity_final_writes : StmOpacityTransactionAttempt P → StmOpacityState P
  stm_opacity_final_writes tx = final_writes_loop [] tx.accesses

  abbrev pub update : Memory P → Str → Value P → Memory P
  update memory k v j = if list_eq k j then some v else memory j

  -- Every read of the accesses, made in place one after the other, sees what the memory holds.
  abbrev pub Sees : Bool → StmOpacityAccess P → Memory P → Type 0
  Sees true access memory = Unit
  Sees false access memory =
      (v : Value P) × (memory access.location_id ≡ some v) × (value_eq access.value v ≡ true)

  abbrev pub step_memory : Bool → StmOpacityAccess P → Memory P → Memory P
  step_memory true access memory = update memory access.location_id access.value
  step_memory false access memory = memory

  abbrev pub IsLegal : Memory P → List (StmOpacityAccess P) → Type 0
  IsLegal memory [] = Unit
  IsLegal memory (access ∷ accesses) =
      Sees access.write access memory × IsLegal (step_memory access.write access memory) accesses

  abbrev pub run_memory : Memory P → List (StmOpacityAccess P) → Memory P
  run_memory memory [] = memory
  run_memory memory (access ∷ accesses) =
      run_memory (step_memory access.write access memory) accesses

  -- The memory that the buffer and the serial state stand for.
  overlay-insert :
      (local_writes state : StmOpacityState P) (k : Str) (v : Value P)
      → expected_value (insert_or_assign k v local_writes) state
        ≡ update (expected_value local_writes state) k v
  unfolding expected_value
  overlay-insert local_writes state k v =
      fun_ext (λ j. ground (arith, find_value-insert_or_assign k j v local_writes))

  find_value-commit_writes :
      (state writes : StmOpacityState P) (k : Str)
      → find_value k (commit_writes state writes) ≡ expected_value writes state k
  unfolding expected_value commit_writes find_value
  find_value-commit_writes state [] k = refl
  find_value-commit_writes state ((j, v) ∷ writes) k = ground (
    arith,
    find_value-insert_or_assign j k v (commit_writes state writes),
    find_value-commit_writes state writes k,
  )

  abbrev LoopCorrect :
      StmOpacityState P → Memory P → List (StmOpacityAccess P) → Option (StmOpacityState P) → Type 0
  LoopCorrect state memory accesses none = ¬ IsLegal memory accesses
  LoopCorrect state memory accesses (some writes) =
      IsLegal memory accesses × (expected_value writes state ≡ run_memory memory accesses)

  -- What the rest of the loop finds is right for the whole.
  LoopCorrect-cons :
      (state : StmOpacityState P) (memory : Memory P) (access : StmOpacityAccess P)
      (accesses : List (StmOpacityAccess P)) (b : Bool)
      → access.write ≡ b
      → Sees b access memory
      → (r : Option (StmOpacityState P))
      → LoopCorrect state (step_memory b access memory) accesses r
      → LoopCorrect state memory (access ∷ accesses) r
  LoopCorrect-cons state memory access accesses b e h none not_legal =
      λ legal. not_legal (subst (λ b. IsLegal (step_memory b access memory) accesses) e legal.1)
  LoopCorrect-cons state memory access accesses b e h (some writes) (legal, same) = (
    subst (λ b. Sees b access memory × IsLegal (step_memory b access memory) accesses) (sym e)
        (h, legal),
    subst (λ b. expected_value writes state ≡ run_memory (step_memory b access memory) accesses)
        (sym e) same,
  )

  module _ (state local_writes : StmOpacityState P) (access : StmOpacityAccess P)
      (accesses : List (StmOpacityAccess P)) where
    abbrev seen : Option (Value P)
    seen = expected_value local_writes state access.location_id

    pub read_loop-write :
        access.write ≡ true
        → read_loop state local_writes (access ∷ accesses)
          ≡ read_loop state (insert_or_assign access.location_id access.value local_writes) accesses
    unfolding read_loop
    read_loop-write w = ground arith

    pub read_loop-unknown :
        access.write ≡ false → seen ≡ none → read_loop state local_writes (access ∷ accesses) ≡ none
    unfolding read_loop
    read_loop-unknown w e = ground arith

    pub read_loop-read :
        (v : Value P)
        → access.write ≡ false
        → seen ≡ some v
        → value_eq access.value v ≡ true
        → read_loop state local_writes (access ∷ accesses) ≡ read_loop state local_writes accesses
    unfolding read_loop
    read_loop-read v w e y = ground arith

    pub read_loop-differs :
        (v : Value P)
        → access.write ≡ false
        → seen ≡ some v
        → value_eq access.value v ≡ false
        → read_loop state local_writes (access ∷ accesses) ≡ none
    unfolding read_loop
    read_loop-differs v w e n = ground arith

    -- A read whose value is not there is not legal.
    unseen :
        access.write ≡ false
        → ((v : Value P) → seen ≡ some v → value_eq access.value v ≡ true → ⊥)
        → ¬ IsLegal (expected_value local_writes state) (access ∷ accesses)
    unseen w h legal =
        let (v, e, y) = subst (λ b. Sees b access (expected_value local_writes state)) w legal.0 in
        h v e y

  read_loop_lem :
      (state local_writes : StmOpacityState P) (accesses : List (StmOpacityAccess P))
      → LoopCorrect state
          (expected_value local_writes state)
          accesses
          (read_loop state local_writes accesses)
  unfolding read_loop
  read_loop_lem state local_writes [] = (tt, refl)
  read_loop_lem state local_writes (access ∷ accesses) = elim (Bool-cases access.write) [
    | inl w ↦ rw (read_loop-write state local_writes access accesses w) (
        LoopCorrect-cons state memory access accesses true w tt _ (
          subst (λ memory. LoopCorrect state memory accesses (read_loop state after accesses))
            (overlay-insert local_writes state access.location_id access.value)
            (read_loop_lem state after accesses)))
    | inr w ↦ elim (Option-cases (memory access.location_id)) [
      | inl e ↦
          rw (read_loop-unknown state local_writes access accesses w e)
            (unseen state local_writes access accesses w (λ v e' y. cc))
      | inr (v, e) ↦ elim (Bool-cases (value_eq access.value v)) [
        | inl y ↦ rw (read_loop-read state local_writes access accesses v w e y) (
            LoopCorrect-cons state memory access accesses false w (v, e, y) _
              (read_loop_lem state local_writes accesses))
        | inr n ↦ rw (read_loop-differs state local_writes access accesses v w e n) (
            unseen state local_writes access accesses w
              (λ u e' y. let same = some_inj.0 (sym e ∙ e') in cc))
      ]
    ]
  ]
    where
      memory : Memory P
      memory = expected_value local_writes state

      after : StmOpacityState P
      after = insert_or_assign access.location_id access.value local_writes

  -- What the code's answer says of a transaction at a serial state.
  abbrev pub ReadsCorrect :
      StmOpacityTransactionAttempt P → StmOpacityState P → Option (StmOpacityState P) → Type 0
  ReadsCorrect tx state none = ¬ IsLegal (λ k. find_value k state) tx.accesses
  ReadsCorrect tx state (some after) =
      IsLegal (λ k. find_value k state) tx.accesses
      × ((k : Str) → find_value k after ≡ run_memory (λ k. find_value k state) tx.accesses k)

  -- The buffered validation accepts a transaction exactly if all its reads see what they would see
  -- were it run in place on the serial state, and the state it commits is the one that this leaves.
  pub validate-ReadsCorrect :
      (tx : StmOpacityTransactionAttempt P) (state : StmOpacityState P)
      → ReadsCorrect tx state (validate_stm_opacity_transaction_reads tx state)
  unfolding validate_stm_opacity_transaction_reads expected_value find_value
  validate-ReadsCorrect tx state =
      answer (read_loop state [] tx.accesses) (read_loop_lem state [] tx.accesses)
    where
      answer :
          (r : Option (StmOpacityState P))
          → LoopCorrect state (λ k. find_value k state) tx.accesses r
          → ReadsCorrect tx state
              (elim r [ none ↦ none | some writes ↦ some (commit_writes state writes) ])
      answer none h = h
      answer (some writes) (legal, same) =
          (legal, λ k. find_value-commit_writes state writes k ∙ ap (λ (f : Memory P). f k) same)
