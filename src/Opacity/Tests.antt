-- ===== src/Opacity/Tests.antt =====
-- Sample transactions.
use lincheck_cpp.Prelude.{ℕ, ◌≡◌, refl, true, false, ◌↔◌, get_elem?, arith, some, List, [], ◌∷◌}
use lincheck_cpp.Sample.{plain}
use lincheck_cpp.Value.{Str, int64}
use lincheck_cpp.Opacity.History.{
  default_access, default_attempt, StmOpacityAccess, StmOpacityTransactionAttempt, StmOpacityState,
  committed, stm_opacity_precedes, StmOpacityTransactionOutcome, aborted, find_value,
  insert_or_assign,
}
use lincheck_cpp.Opacity.Reads.{
  validate_stm_opacity_transaction_reads, ReadsCorrect, validate-ReadsCorrect, read_loop,
  expected_value, commit_writes,
}
use lincheck_cpp.Opacity.Observers.{
  stm_opacity_prefix_respects_real_time, search_stm_opacity_observer_prefixes, choose_loop,
  viable_count, stm_opacity_observer_prefix_compatible, compatible_loop, try_prefixes,
  respects_loop,
}
use lincheck_cpp.Opacity.Observers.Compatible.{Fits, prefix_respects_iff}
use lincheck_cpp.Opacity.Observers.Solve.{FoundCorrect, search_lem}
use lincheck_cpp.Opacity.Placement.{
  start, candidate_loop, reads_accepted, verify_stm_opacity_observers,
}
use lincheck_cpp.Opacity.Placement.Decide.{
  ObserversCorrect, verify-ObserversCorrect, start-IsPartial,
}

abbrev x : Str
x = b'x' ∷ []

abbrev y : Str
y = b'y' ∷ []

abbrev read_of : Str → ℕ → StmOpacityAccess plain
read_of k n = record default_access { write = false; location_id = k; value = int64 n }

abbrev write_of : Str → ℕ → StmOpacityAccess plain
write_of k n = record default_access { write = true; location_id = k; value = int64 n }

abbrev transaction :
    StmOpacityTransactionOutcome
    → List (StmOpacityAccess plain)
    → ℕ
    → ℕ
    → StmOpacityTransactionAttempt plain
transaction outcome accesses first last = record default_attempt {
  transaction_id = first;
  outcome = outcome;
  has_begin = true;
  has_end = true;
  begin_event_index = first;
  end_event_index = last;
  accesses = accesses;
}

-- It moves one from x to y, and reads back what it wrote.
abbrev transfer : StmOpacityTransactionAttempt plain
transfer = transaction committed accesses 0 3
  where
    accesses : List (StmOpacityAccess plain)
    accesses = read_of x 5 ∷ write_of x 4 ∷ read_of x 4 ∷ read_of y 0 ∷ write_of y 1 ∷ []

abbrev before : StmOpacityState plain
before = (x, int64 5) ∷ (y, int64 0) ∷ []

transfer_runs :
    validate_stm_opacity_transaction_reads transfer before ≡ some ((x, int64 4) ∷ (y, int64 1) ∷ [])
unfolding validate_stm_opacity_transaction_reads read_loop expected_value find_value
    insert_or_assign commit_writes
transfer_runs = refl

validate-ReadsCorrect_example :
    ReadsCorrect transfer before (validate_stm_opacity_transaction_reads transfer before)
validate-ReadsCorrect_example = validate-ReadsCorrect transfer before

-- It runs after the transfer, and is aborted.
abbrev reader : StmOpacityTransactionAttempt plain
reader = transaction aborted (read_of x 4 ∷ read_of y 1 ∷ []) 4 5

abbrev states : List (StmOpacityState plain)
states = before ∷ ((x, int64 4) ∷ (y, int64 1) ∷ []) ∷ []

reader_placed : verify_stm_opacity_observers (reader ∷ []) (transfer ∷ []) states ≡ some true
unfolding verify_stm_opacity_observers candidate_loop stm_opacity_prefix_respects_real_time
    respects_loop stm_opacity_precedes reads_accepted validate_stm_opacity_transaction_reads
    read_loop expected_value find_value search_stm_opacity_observer_prefixes choose_loop
    viable_count stm_opacity_observer_prefix_compatible compatible_loop try_prefixes
reader_placed = refl

verify-ObserversCorrect_example :
    ObserversCorrect
      (transfer ∷ [])
      states
      (reader ∷ [])
      (verify_stm_opacity_observers (reader ∷ []) (transfer ∷ []) states)
verify-ObserversCorrect_example = verify-ObserversCorrect (transfer ∷ []) states (reader ∷ [])

abbrev two : List (StmOpacityTransactionAttempt plain)
two = reader ∷ transfer ∷ []

abbrev two_candidates : List (List ℕ)
two_candidates = (0 ∷ 1 ∷ []) ∷ (1 ∷ []) ∷ []

search_lem_example :
    FoundCorrect two two_candidates
      (start 2)
      (search_stm_opacity_observer_prefixes two two_candidates 3 (start 2))
search_lem_example =
    search_lem two two_candidates 3 (start 2) (start-IsPartial two two_candidates) (omega arith)

prefix_respects_iff_example :
    (stm_opacity_prefix_respects_real_time reader (transfer ∷ []) 1 ≡ true) ↔ (
      (i : ℕ) (c : StmOpacityTransactionAttempt plain)
      → get_elem? (transfer ∷ []) i ≡ some c
      → Fits reader 1 i c)
prefix_respects_iff_example = prefix_respects_iff reader (transfer ∷ []) 1
