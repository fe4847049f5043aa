-- ===== src/Opacity/Builder/Build.antt =====
-- include/lincheck/lincheck.hpp, `build_stm_opacity_history`: the loop over the events, the checks
-- after it, and the order of the transactions.
use lincheck_cpp.Prelude.{
  Bool, true, false, none, some, List, [], ◌∷◌, ◌==◌, ltb, if◌then◌else◌, find, Result, ok, err,
  ◌>>=◌, ◌>>◌,
}
use lincheck_cpp.Value.{Str, Payloads}
use lincheck_cpp.Opacity.Event.{StmEventRecord}
use lincheck_cpp.Opacity.History.{
  StmOpacityLocation, StmOpacityAccess, StmOpacityTransactionAttempt, StmOpacityHistory,
  StmLifetimePolicy, strict_lifetimes, value_history_only,
}
use lincheck_cpp.Opacity.Builder.{BuildState, HistoryError, no_begin, no_initial_value, empty_state}
use lincheck_cpp.Opacity.Builder.Handlers.{handle_event}

abbrev pub is_strict : StmLifetimePolicy → Bool
is_strict strict_lifetimes = true
is_strict value_history_only = false

module _ {P : Payloads} where
  unfoldable pub handle_events :
      Bool → List (StmEventRecord P) → BuildState P → Result HistoryError (BuildState P)
  unfolding handle_event
  handle_events strict [] s = ok s
  handle_events strict (event ∷ events) s =
      handle_event strict event s >>= handle_events strict events

  -- A location that the map holds, with an initial value.
  unfoldable pub is_initialised : List (Str × StmOpacityLocation P) → Str → Bool
  is_initialised locations id = elim (find id locations) [
    | none ↦ false
    | some location ↦ location.has_initial_value
  ]

  unfoldable pub check_accesses :
      List (Str × StmOpacityLocation P) → List (StmOpacityAccess P) → Result HistoryError (Unit {0})
  unfolding is_initialised
  check_accesses locations [] = ok tt
  check_accesses locations (access ∷ accesses) =
      if is_initialised locations access.location_id
      then check_accesses locations accesses
      else err (no_initial_value access.location_id)

  unfoldable pub check_transactions :
      List (Str × StmOpacityLocation P)
      → List (StmOpacityTransactionAttempt P)
      → Result HistoryError (Unit {0})
  unfolding check_accesses
  check_transactions locations [] = ok tt
  check_transactions locations (tx ∷ transactions) =
      if tx.has_begin
      then check_accesses locations tx.accesses >> check_transactions locations transactions
      else err (no_begin tx.transaction_id)

  -- The comparison of the sort.
  abbrev pub begins_before : StmOpacityTransactionAttempt P → StmOpacityTransactionAttempt P → Bool
  begins_before left right =
      if left.begin_event_index == right.begin_event_index
      then ltb left.transaction_id right.transaction_id
      else ltb left.begin_event_index right.begin_event_index

  unfoldable pub insert_transaction :
      StmOpacityTransactionAttempt P
      → List (StmOpacityTransactionAttempt P)
      → List (StmOpacityTransactionAttempt P)
  insert_transaction tx [] = tx ∷ []
  insert_transaction tx (t ∷ ts) =
      if begins_before t tx then t ∷ insert_transaction tx ts else tx ∷ t ∷ ts

  -- `std::sort`, which may place attempts that compare equal in either order.
  unfoldable pub sort_transactions :
      List (StmOpacityTransactionAttempt P) → List (StmOpacityTransactionAttempt P)
  unfolding insert_transaction
  sort_transactions [] = []
  sort_transactions (tx ∷ transactions) = insert_transaction tx (sort_transactions transactions)

  abbrev pub history_of : StmLifetimePolicy → BuildState P → StmOpacityHistory P
  history_of policy s = record {
    locations = s.locations;
    transactions = sort_transactions s.transactions;
    lifetime_policy = policy;
    ignored_lifetime_anomalies = s.ignored_lifetime_anomalies;
  }

  abbrev pub finish_history :
      StmLifetimePolicy → BuildState P → Result HistoryError (StmOpacityHistory P)
  finish_history policy s =
      check_transactions s.locations s.transactions >> ok (history_of policy s)

  -- The history of an error is not kept.
  unfoldable pub build_stm_opacity_history :
      StmLifetimePolicy → List (StmEventRecord P) → Result HistoryError (StmOpacityHistory P)
  unfolding handle_events check_transactions sort_transactions empty_state
  build_stm_opacity_history policy events =
      handle_events (is_strict policy) events empty_state >>= finish_history policy
