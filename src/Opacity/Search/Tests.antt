-- ===== src/Opacity/Search/Tests.antt =====
-- Two committed transactions, of which the second reads what the first writes, and an aborted one.
use mathlib.Core.Option.{some_inj}
use lincheck_cpp.Prelude.{
  ap, sym, find, subst, ◌⊎◌, ◌∙◌, inr, Bool-cases, ◌==◌, ==_iff, list_eq, ℕ, suc, ◌≡◌, refl, true,
  false, some, Option, none, List, [], ◌∷◌, member, add, digits, to_string, get_or, zero, inl,
  arith,
}
use lincheck_cpp.Opacity.Graph
use lincheck_cpp.Opacity.History
use lincheck_cpp.Opacity.Observers
use lincheck_cpp.Opacity.Ordering
use lincheck_cpp.Opacity.Ordering.Choices
use lincheck_cpp.Opacity.Placement
use lincheck_cpp.Opacity.Reads
use lincheck_cpp.Opacity.Search
use lincheck_cpp.Opacity.Search.Key
use lincheck_cpp.Opacity.Search.Predecessors
use lincheck_cpp.Opacity.Search.Verify
use lincheck_cpp.Value.Hash
use lincheck_cpp.Value.Text
use lincheck_cpp.Sample.{plain}
use lincheck_cpp.Value.{Str, int64}
use lincheck_cpp.Opacity.History.{
  StmOpacityAccess, StmOpacityTransactionAttempt, StmOpacityHistory, StmOpacityState,
  StmOpacityTransactionOutcome, committed, aborted, default_access, default_attempt,
  default_location, value_history_only,
}
use lincheck_cpp.Opacity.Search.Verify.{
  committed_of, StmOpacityVerificationResult, StmOpacityStatus, ok, violation,
  search_limit_exceeded, verify_stm_opacity, saturated_factorial, factorial_loop,
}
use lincheck_cpp.Opacity.Search.Factorial.{factorial, saturate, saturated_factorial_lem}
use lincheck_cpp.Opacity.Graph.{empty_graph, build_stm_opacity_ordering_graph}
use lincheck_cpp.Opacity.Graph.Kept.{HasEdge}
use lincheck_cpp.Opacity.Graph.RealTime.{build-HasEdge}
use lincheck_cpp.Opacity.Ordering.{StmOpacityOrderingGraph}
use lincheck_cpp.Opacity.Search.{SearchState, search_stm_opacity_committed_order}
use lincheck_cpp.Opacity.Search.Prefix.{IsPrefix, begins}
use lincheck_cpp.Opacity.Search.Sound.{IsAnswer, search_order-IsAnswer}
use lincheck_cpp.Value.Symmetric.{EqIsSymmetric}
use lincheck_cpp.Opacity.Reads.{Memory}
use lincheck_cpp.Opacity.Search.Keys.{MayHold, HashesDiffer}
use lincheck_cpp.Opacity.Builder.Initial.{HasInitialValue}
use lincheck_cpp.Value.Hash.{stable_hash}
use lincheck_cpp.Value.{Value}
use lincheck_cpp.Opacity.History.{find_value}
use lincheck_cpp.Opacity.Reads.{stm_opacity_final_writes}
use lincheck_cpp.Opacity.Search.Decides.{Decides, verify-Decides}
use lincheck_cpp.Opacity.Search.Opaque.{ReturnsSound, verify-ReturnsSound}

abbrev x : Str
x = b'x' ∷ []

abbrev transaction :
    StmOpacityTransactionOutcome
    → ℕ
    → List (StmOpacityAccess plain)
    → StmOpacityTransactionAttempt plain
transaction outcome id accesses = record default_attempt {
  transaction_id = id;
  outcome = outcome;
  has_begin = true;
  accesses = accesses;
}

abbrev read_x : ℕ → StmOpacityAccess plain
read_x n = record default_access { write = false; location_id = x; value = int64 n }

abbrev write_x : ℕ → StmOpacityAccess plain
write_x n = record default_access { write = true; location_id = x; value = int64 n }

-- The aborted transaction reads what `seen` says.
abbrev history : ℕ → StmOpacityHistory plain
history seen = record {
  locations =
      (x, record default_location { initial_value = int64 5; has_initial_value = true }) ∷ [];
  transactions =
      transaction committed 7 (read_x 4 ∷ [])
      ∷ transaction aborted 8 (read_x seen ∷ [])
      ∷ transaction committed 9 (read_x 5 ∷ write_x 4 ∷ [])
      ∷ [];
  lifetime_policy = value_history_only;
  ignored_lifetime_anomalies = 0;
}

abbrev verdict : Option StmOpacityVerificationResult → Option (StmOpacityStatus × List ℕ × ℕ)
verdict none = none
verdict (some r) = some (r.status, r.committed_order, r.committed_orders_explored)

verdict_of_history : verdict (verify_stm_opacity (history 5) 0) ≡ some (ok, 9 ∷ 7 ∷ [], 1)
unfolding verify_stm_opacity Graph.build_stm_opacity_ordering_graph Graph.constrain_accesses
    History.find_value Graph.constrain_read Graph.find_location Graph.writers
    Reads.stm_opacity_final_writes Reads.final_writes_loop History.insert_or_assign
    Choices.refine_until_closed Ordering.close_stm_opacity_ordering_graph Ordering.on_cycle
    Graph.before_all Ordering.add_stm_opacity_ordering_constraint Graph.real_time_row
    History.stm_opacity_precedes Ordering.close_all Graph.constrain_readers Graph.real_time_edges
    History.emplace History.initial_loop History.make_initial_stm_opacity_state
    Observers.choose_loop Observers.compatible_loop Observers.respects_loop
    Observers.search_stm_opacity_observer_prefixes Observers.stm_opacity_observer_prefix_compatible
    Observers.stm_opacity_prefix_respects_real_time Observers.try_prefixes Observers.viable_count
    Choices.has_forced_conflict Choices.is_shadowed Choices.refine_choice Choices.refine_loop
    Choices.refine_stm_opacity_read_from_choices Choices.viable_alternatives Ordering.close_pivot
    Ordering.close_row Placement.candidate_loop Placement.candidate_prefixes
    Placement.reads_accepted Placement.verify_stm_opacity_observers Reads.commit_writes
    Reads.expected_value Reads.read_loop Reads.validate_stm_opacity_transaction_reads
    Key.stm_opacity_search_state_key Predecessors.predecessors_loop
    Predecessors.stm_opacity_committed_predecessors_placed Verify.saturated_factorial
    Verify.factorial_loop Verify.select Search.complete_order Search.next_state Search.search_prefix
    Search.search_stm_opacity_committed_order Search.try_candidates digits to_string add member
    Hash.stable_hash Text.value_to_string
verdict_of_history = refl

verify-ReturnsSound_example : ReturnsSound (history 6) 3 (verify_stm_opacity (history 6) 3)
verify-ReturnsSound_example = verify-ReturnsSound (history 6) 3

saturated_factorial_lem_example : saturated_factorial 25 ≡ saturate (factorial 25)
saturated_factorial_lem_example = saturated_factorial_lem 25

-- The committed transactions of the history, and the graph of their constraints.
abbrev both : List (StmOpacityTransactionAttempt plain)
both =
    transaction committed 7 (read_x 4 ∷ [])
    ∷ transaction committed 9 (read_x 5 ∷ write_x 4 ∷ [])
    ∷ []

abbrev x_is_5 : StmOpacityState plain
x_is_5 = (x, int64 5) ∷ []

abbrev fresh_search : SearchState
fresh_search = record {
  failed_prefixes = [];
  committed_orders_explored = 0;
  search_limit_exceeded = false;
}

start-IsPrefix :
    IsPrefix both [] 0 (empty_graph 2) (x_is_5) (false ∷ false ∷ []) [] (x_is_5 ∷ []) x_is_5
start-IsPrefix = record {
  size = refl;
  listed = λ i e. absurd (unplaced i e);
  flagged = λ p i e. cc;
  distinct = λ p q i e f. cc;
  respects = λ q i j e l ne m. cc;
  run = begins;
}
  where
    unplaced : (i : ℕ) → get_or (false ∷ false ∷ []) i false ≡ true → ⊥
    unplaced zero e = cc
    unplaced (suc zero) e = cc
    unplaced (suc (suc i)) e = cc

search_order-IsAnswer_example : IsAnswer both [] 0 (empty_graph 2) x_is_5 (
    search_stm_opacity_committed_order both [] 0
      (empty_graph 2)
      3
      (false ∷ false ∷ [])
      []
      x_is_5
      (x_is_5 ∷ [])
      fresh_search)
search_order-IsAnswer_example =
    search_order-IsAnswer both [] 0 (empty_graph 2) x_is_5 3 (false ∷ false ∷ []) [] x_is_5
      (x_is_5 ∷ []) fresh_search start-IsPrefix (omega arith) (omega arith)
      (record { bounded = inl refl; reported = λ e. cc })

-- The first transaction ends before the second begins.
abbrev ordered : List (StmOpacityTransactionAttempt plain)
ordered =
    record (transaction committed 9 (read_x 5 ∷ [])) { has_end = true; end_event_index = 2 }
    ∷ record (transaction committed 7 []) { begin_event_index = 3 }
    ∷ []

abbrev ordered_graph : StmOpacityOrderingGraph
ordered_graph = record {
  must_precede = (false ∷ true ∷ []) ∷ (false ∷ false ∷ []) ∷ [];
  constraints = record { before = 0; after = 1 } ∷ [];
  read_from_choices = [];
  inconsistent = false;
  has_cycle = false;
}

ordered_graph_built : build_stm_opacity_ordering_graph (history 5) ordered ≡ some ordered_graph
unfolding build_stm_opacity_ordering_graph Graph.constrain_accesses History.find_value
    Graph.constrain_read Graph.find_location Graph.writers Reads.stm_opacity_final_writes
    Reads.final_writes_loop History.insert_or_assign Choices.refine_until_closed
    Ordering.close_stm_opacity_ordering_graph Ordering.on_cycle Graph.before_all
    Ordering.add_stm_opacity_ordering_constraint Graph.real_time_row History.stm_opacity_precedes
    Ordering.close_all Graph.constrain_readers Graph.real_time_edges History.emplace
    History.initial_loop History.make_initial_stm_opacity_state Choices.has_forced_conflict
    Choices.is_shadowed Choices.refine_choice Choices.refine_loop
    Choices.refine_stm_opacity_read_from_choices Choices.viable_alternatives Ordering.close_pivot
    Ordering.close_row Reads.commit_writes Reads.expected_value Reads.read_loop
    Reads.validate_stm_opacity_transaction_reads
ordered_graph_built = refl

build-HasEdge_example : HasEdge 2 0 1 ordered_graph
unfolding History.stm_opacity_precedes
build-HasEdge_example =
    build-HasEdge (history 5) ordered ordered_graph 0 1 _ _ ordered_graph_built refl refl refl
      (λ e. omega arith) refl

-- The location x may hold 5 or 4.
held-x :
    (k : Str) (v : Value plain)
    → MayHold (history 6) (committed_of (history 6)) k v
    → (v ≡ int64 5) ⊎ (v ≡ int64 4)
unfolding History.make_initial_stm_opacity_state History.initial_loop History.emplace
    History.find_value Verify.select Reads.stm_opacity_final_writes Reads.final_writes_loop
    History.insert_or_assign
held-x k v (inl e) = elim (Bool-cases (list_eq x k)) [
  | inl y ↦ inl (ground (arith, e, y))
  | inr n ↦ absurd (ground (arith, e, n))
]
held-x k v (inr (zero, w)) =
    let f =
      subst (λ t. find_value k (stm_opacity_final_writes t) ≡ some v) (sym (some_inj.0 w.there))
        w.written in
    cc
held-x k v (inr (suc zero, w)) =
    let f =
      subst (λ t. find_value k (stm_opacity_final_writes t) ≡ some v) (sym (some_inj.0 w.there))
        w.written in
    elim (Bool-cases (list_eq x k)) [
      | inl y ↦ inr (ground (arith, f, y))
      | inr n ↦ absurd (ground (arith, f, n))
    ]
held-x k v (inr (suc (suc s), w)) = let f = w.there in cc

hashes_of_values : (stable_hash {P = plain} (int64 5) == stable_hash {P = plain} (int64 4)) ≡ false
unfolding Hash.stable_hash
hashes_of_values = refl

history-HashesDiffer : HashesDiffer (history 6) (committed_of (history 6))
history-HashesDiffer k v w hv hw e = elim (held-x k v hv) [
  | inl a ↦ elim (held-x k w hw) [
    | inl b ↦ a ∙ sym b
    | inr b ↦ absurd (different (ap stable_hash (sym a) ∙ e ∙ ap stable_hash b))
  ]
  | inr a ↦ elim (held-x k w hw) [
    | inl b ↦ absurd (different (ap stable_hash (sym b) ∙ sym e ∙ ap stable_hash a))
    | inr b ↦ a ∙ sym b
  ]
]
  where
    different : stable_hash {P = plain} (int64 5) ≡ stable_hash {P = plain} (int64 4) → ⊥
    different s =
        let h = hashes_of_values in
        let t =
          (==_iff (stable_hash {P = plain} (int64 5)) (stable_hash {P = plain} (int64 4))).1 s in
        cc

plain-EqIsSymmetric : EqIsSymmetric plain
plain-EqIsSymmetric = record {
  doubles = λ a b e. ground (arith, ==_iff a b, ==_iff b a);
  users = λ a b e. ground (arith, ==_iff a b, ==_iff b a);
  exceptions = λ u e. (λ h. cc, λ h. cc);
}

x-HasInitialValue : (n : ℕ) → HasInitialValue (history 6) (read_x n)
unfolding find History.make_initial_stm_opacity_state History.initial_loop History.emplace
    History.find_value
x-HasInitialValue n = (_, refl, refl)

verify-Decides_example : Decides (history 6) 0 (verify_stm_opacity (history 6) 0)
verify-Decides_example =
    verify-Decides (history 6) plain-EqIsSymmetric history-HashesDiffer
      (
        (x-HasInitialValue 4, tt),
        ((x-HasInitialValue 6, tt), ((x-HasInitialValue 5, (x-HasInitialValue 4, tt)), tt)),
      )
      0
