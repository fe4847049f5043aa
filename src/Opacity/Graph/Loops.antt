-- ===== src/Opacity/Graph/Loops.antt =====
-- The loops over the accesses of the committed transactions.
use lincheck_cpp.Prelude.{
  ℕ, suc, ◌+◌, ◌≤◌, ◌<◌, ◌≡◌, refl, subst, Bool, true, false, if◌then◌else◌, Option, none, some,
  List, [], ◌∷◌, length, get_elem?, arith,
}
use lincheck_cpp.Value.{Payloads, Value}
use lincheck_cpp.Opacity.History.{
  StmOpacityAccess, StmOpacityTransactionAttempt, StmOpacityHistory, StmOpacityState, find_value,
  insert_or_assign,
}
use lincheck_cpp.Opacity.Ordering.{StmOpacityOrderingGraph}
use lincheck_cpp.Opacity.Ordering.Serial.{IsSerial}
use lincheck_cpp.Opacity.Graph.{
  Build, going, returns, find_location, initial_of, constrain_read, constrain_accesses,
  constrain_readers,
}
use lincheck_cpp.Opacity.Graph.Edges.{IsGood}
use lincheck_cpp.Opacity.Graph.Legal.{CanSee, AreDistinct, constrain_read-IsGood}

module _ {P : Payloads} (place : ℕ → ℕ) (history : StmOpacityHistory P)
    (states : List (StmOpacityState P)) where
  -- Each read that is not of the transaction's own writes, at a location with an initial value, can
  -- see its value.
  abbrev pub ReadsLegal : ℕ → List (StmOpacityAccess P) → StmOpacityState P → Type 0
  ReadsLegal reader [] local_writes = Unit
  ReadsLegal reader (access ∷ accesses) local_writes =
      (access.write ≡ false
        → find_value access.location_id local_writes ≡ none
        → (initial : Value P)
        → initial_of (find_location access.location_id history.locations) ≡ some initial
        → CanSee place history states access reader initial)
      × ReadsLegal reader accesses (
          if access.write
          then insert_or_assign access.location_id access.value local_writes
          else local_writes)

  abbrev next : (StmOpacityOrderingGraph → Build) → Build → Build
  next rest (returns graph) = returns graph
  next rest (going graph) = rest graph

  next-IsGood :
      (rest : StmOpacityOrderingGraph → Build) (b : Build)
      → IsGood place b
      → ((graph : StmOpacityOrderingGraph) → IsSerial place graph → IsGood place (rest graph))
      → IsGood place (next rest b)
  next-IsGood rest (returns graph) h good = h
  next-IsGood rest (going graph) h good = good graph h

  module _ (distinct : AreDistinct place history states) where
    accesses-IsGood :
        (reader : ℕ)
        → reader < length states
        → (accesses : List (StmOpacityAccess P)) (local_writes : StmOpacityState P)
        → ReadsLegal reader accesses local_writes
        → (graph : StmOpacityOrderingGraph) → IsSerial place graph
        → IsGood place (constrain_accesses history states reader accesses local_writes graph)
    unfolding constrain_accesses
    accesses-IsGood reader l [] local_writes legal graph h = h
    accesses-IsGood reader l (access ∷ accesses) local_writes (see, legal) graph h =
        go (accesses-IsGood reader l accesses) access.write
          (find_value access.location_id local_writes) refl refl
      where
        after : Bool → StmOpacityState P
        after b =
            if b
            then insert_or_assign access.location_id access.value local_writes
            else local_writes

        go :
            ((local_writes : StmOpacityState P)
              → ReadsLegal reader accesses local_writes
              → (graph : StmOpacityOrderingGraph) → IsSerial place graph
              → IsGood place (constrain_accesses history states reader accesses local_writes graph))
            → (b : Bool) (o : Option (Value P)) → access.write ≡ b
            → find_value access.location_id local_writes ≡ o
            → IsGood place (elim b [
              | true ↦
                  constrain_accesses history states reader accesses
                    (insert_or_assign access.location_id access.value local_writes)
                    graph
              | false ↦ elim o [
                | some _ ↦ constrain_accesses history states reader accesses local_writes graph
                | none ↦ elim (constrain_read history states reader access graph) [
                  | returns graph' ↦ returns graph'
                  | going graph' ↦
                      constrain_accesses history states reader accesses local_writes graph'
                ]
              ]
            ])
        go rest true o e f =
            rest (after true) (subst (λ b. ReadsLegal reader accesses (after b)) e legal) graph h
        go rest false (some _) e f =
            rest local_writes (subst (λ b. ReadsLegal reader accesses (after b)) e legal) graph h
        go rest false none e f =
            next-IsGood (constrain_accesses history states reader accesses local_writes)
              (constrain_read history states reader access graph)
              (constrain_read-IsGood place history states distinct access reader l graph h
                (see e f))
              (rest local_writes (subst (λ b. ReadsLegal reader accesses (after b)) e legal))

    pub readers-IsGood :
        (reader : ℕ) (xs : List (StmOpacityTransactionAttempt P))
        → reader + length xs ≤ length states
        → ((k : ℕ) (x : StmOpacityTransactionAttempt P)
            → get_elem? xs k ≡ some x
            → ReadsLegal (reader + k) x.accesses [])
        → (graph : StmOpacityOrderingGraph) → IsSerial place graph
        → IsGood place (constrain_readers history states reader xs graph)
    unfolding constrain_readers
    readers-IsGood reader [] l legal graph h = h
    readers-IsGood reader (x ∷ xs) l legal graph h =
        next-IsGood (constrain_readers history states (suc reader) xs)
          (constrain_accesses history states reader x.accesses [] graph)
          (accesses-IsGood reader (omega arith) x.accesses []
            (subst (λ n. ReadsLegal n x.accesses []) (omega arith) (legal 0 x refl)) graph h)
          (readers-IsGood (suc reader) xs (omega arith)
            (λ k y e. subst (λ n. ReadsLegal n y.accesses []) (omega arith) (legal (suc k) y e)))
