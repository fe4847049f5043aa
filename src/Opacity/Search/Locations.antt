-- ===== src/Opacity/Search/Locations.antt =====
-- The locations of the search's states: where all accesses are to locations with an initial value,
-- a transaction adds none.
use lincheck_cpp.Prelude.{
  ℕ, zero, suc, ◌≡◌, refl, sym, subst, ap, ◌∙◌, some, List, [], ◌∷◌, inl, inr, Bool-cases,
  Option-cases, get_elem?, list_eq, list_eq_iff, arith,
}
use mathlib.Core.Option.{some_inj}
use lincheck_cpp.Value.{Str, Payloads, Value, value_eq}
use lincheck_cpp.Opacity.History.{
  StmOpacityAccess, StmOpacityTransactionAttempt, StmOpacityHistory, StmOpacityState,
  insert_or_assign, make_initial_stm_opacity_state,
}
use lincheck_cpp.Opacity.Reads.{
  expected_value, read_loop, read_loop-write, read_loop-unknown, read_loop-read, read_loop-differs,
  commit_writes, validate_stm_opacity_transaction_reads,
}
use lincheck_cpp.Opacity.Builder.Sorted.{All}
use lincheck_cpp.Opacity.Builder.Initial.{HasInitialValue}
use lincheck_cpp.Opacity.Search.Key.{location_ids}
use lincheck_cpp.Opacity.Search.Entries.{Among, find_value-Among}

module _ {P : Payloads} where
  location_ids-insert_or_assign :
      (k : Str) (v : Value P) (state : StmOpacityState P)
      → Among k (location_ids state)
      → location_ids (insert_or_assign k v state) ≡ location_ids state
  unfolding location_ids insert_or_assign
  location_ids-insert_or_assign k v [] h = absurd h
  location_ids-insert_or_assign k v ((j, w) ∷ state) h = elim (Bool-cases (list_eq j k)) [
    | inl y ↦ rw (y, location_ids) (ap (λ i. i ∷ location_ids state) (sym ((list_eq_iff j k).0 y)))
    | inr n ↦
        rw (n, location_ids)
          (ap (λ ids. j ∷ ids)
            (location_ids-insert_or_assign k v state (elim h [
              | inl same ↦ absurd (let y = (list_eq_iff j k).1 (sym same) in cc)
              | inr m ↦ m
            ])))
  ]

  -- All keys are among the ids.
  abbrev AreWithin : List Str → StmOpacityState P → Type 0
  AreWithin ids [] = Unit
  AreWithin ids ((k, _) ∷ writes) = Among k ids × AreWithin ids writes

  insert_or_assign-AreWithin :
      (ids : List Str) (k : Str) (v : Value P) (writes : StmOpacityState P)
      → Among k ids
      → AreWithin ids writes
      → AreWithin ids (insert_or_assign k v writes)
  unfolding insert_or_assign
  insert_or_assign-AreWithin ids k v [] m h = (m, tt)
  insert_or_assign-AreWithin ids k v ((j, w) ∷ writes) m (n, h) = elim (Bool-cases (list_eq j k)) [
    | inl y ↦ rw (y, AreWithin) (m, h)
    | inr n' ↦ rw (n', AreWithin) (n, insert_or_assign-AreWithin ids k v writes m h)
  ]

  commit_writes-location_ids :
      (state writes : StmOpacityState P)
      → AreWithin (location_ids state) writes
      → location_ids (commit_writes state writes) ≡ location_ids state
  unfolding commit_writes
  commit_writes-location_ids state [] h = refl
  commit_writes-location_ids state ((k, v) ∷ writes) (m, h) =
      let rest = commit_writes-location_ids state writes h in
      location_ids-insert_or_assign k v (commit_writes state writes) (subst (Among k) (sym rest) m)
      ∙ rest

  abbrev AreAmong : List Str → List (StmOpacityAccess P) → Type 0
  AreAmong ids = All (λ access. Among access.location_id ids)

  read_loop-AreWithin :
      (ids : List Str) (state local_writes writes : StmOpacityState P)
      (accesses : List (StmOpacityAccess P))
      → AreAmong ids accesses
      → AreWithin ids local_writes
      → read_loop state local_writes accesses ≡ some writes
      → AreWithin ids writes
  unfolding read_loop
  read_loop-AreWithin ids state local_writes writes [] a h e =
      subst (AreWithin ids) (some_inj.0 e) h
  read_loop-AreWithin ids state local_writes writes (access ∷ accesses) (m, a) h e =
      elim (Bool-cases access.write) [
        | inl w ↦
            read_loop-AreWithin ids state
              (insert_or_assign access.location_id access.value local_writes) writes accesses a
              (insert_or_assign-AreWithin ids access.location_id access.value local_writes m h)
              (sym (read_loop-write state local_writes access accesses w) ∙ e)
        | inr w ↦ elim (Option-cases (expected_value local_writes state access.location_id)) [
          | inl u ↦ absurd (let f = read_loop-unknown state local_writes access accesses w u in cc)
          | inr (v, u) ↦ elim (Bool-cases (value_eq access.value v)) [
            | inl y ↦
                read_loop-AreWithin ids state local_writes writes accesses a h
                  (sym (read_loop-read state local_writes access accesses v w u y) ∙ e)
            | inr n ↦
                absurd (let f = read_loop-differs state local_writes access accesses v w u n in cc)
          ]
        ]
      ]

  validate-location_ids :
      (tx : StmOpacityTransactionAttempt P) (state next : StmOpacityState P)
      → AreAmong (location_ids state) tx.accesses
      → validate_stm_opacity_transaction_reads tx state ≡ some next
      → location_ids next ≡ location_ids state
  unfolding validate_stm_opacity_transaction_reads
  validate-location_ids tx state next a e = elim (Option-cases (read_loop state [] tx.accesses)) [
    | inl f ↦ absurd (ground (arith, e, f))
    | inr (writes, f) ↦
        let same : commit_writes state writes ≡ next = ground (arith, e, f) in
        subst (λ s. location_ids s ≡ location_ids state) same
          (commit_writes-location_ids state writes
            (read_loop-AreWithin (location_ids state) state [] writes tx.accesses a tt f))
  ]

  -- All accesses are to locations of the history, with their initial values.
  abbrev pub AllInitialised : StmOpacityHistory P → List (StmOpacityTransactionAttempt P) → Type 0
  AllInitialised history = All (λ tx. All (HasInitialValue history) tx.accesses)

  accesses-AreAmong :
      (history : StmOpacityHistory P) (accesses : List (StmOpacityAccess P))
      → All (HasInitialValue history) accesses
      → AreAmong (location_ids (make_initial_stm_opacity_state history)) accesses
  accesses-AreAmong history [] h = tt
  accesses-AreAmong history (access ∷ accesses) ((location, _, e), h) = (
    find_value-Among access.location_id location.initial_value
        (make_initial_stm_opacity_state history) e,
    accesses-AreAmong history accesses h,
  )

  All-get_elem? :
      (history : StmOpacityHistory P) (txs : List (StmOpacityTransactionAttempt P)) (i : ℕ)
      (tx : StmOpacityTransactionAttempt P)
      → AllInitialised history txs
      → get_elem? txs i ≡ some tx
      → All (HasInitialValue history) tx.accesses
  All-get_elem? history [] i tx h e = cc
  All-get_elem? history (ty ∷ txs) zero tx h e =
      subst (λ t. All (HasInitialValue history) t.accesses) (some_inj.0 e) h.0
  All-get_elem? history (ty ∷ txs) (suc i) tx h e = All-get_elem? history txs i tx h.1 e

  -- A committed transaction leads to a state of the same locations.
  pub step-location_ids :
      (history : StmOpacityHistory P) (txs : List (StmOpacityTransactionAttempt P)) (i : ℕ)
      (tx : StmOpacityTransactionAttempt P) (state next : StmOpacityState P)
      → AllInitialised history txs
      → get_elem? txs i ≡ some tx
      → location_ids state ≡ location_ids (make_initial_stm_opacity_state history)
      → validate_stm_opacity_transaction_reads tx state ≡ some next
      → location_ids next ≡ location_ids (make_initial_stm_opacity_state history)
  step-location_ids history txs i tx state next all e ids v =
      validate-location_ids tx state next
        (subst (λ x. AreAmong x tx.accesses) (sym ids)
          (accesses-AreAmong history tx.accesses (All-get_elem? history txs i tx all e)))
        v
      ∙ ids
