-- ===== src/Opacity/Graph/Tests.antt =====
-- Two committed transactions, of which the second reads what the first writes.
use lincheck_cpp.Prelude.{
  ℕ, zero, suc, ◌≡◌, refl, sym, subst, true, false, some, List, [], ◌∷◌, inl, inr, get_elem?, map,
  arith,
}
use mathlib.Core.Option.{some_inj}
use lincheck_cpp.Sample.{plain}
use lincheck_cpp.Value.{Str, int64, value_eq}
use lincheck_cpp.Opacity.History.{
  default_access, default_attempt, default_location, value_history_only, StmOpacityAccess,
  StmOpacityTransactionAttempt, StmOpacityHistory, committed, stm_opacity_precedes, find_value,
  insert_or_assign,
}
use lincheck_cpp.Opacity.Reads.{stm_opacity_final_writes, final_writes_loop}
use lincheck_cpp.Opacity.Graph.{build_stm_opacity_ordering_graph, find_location}
use lincheck_cpp.Opacity.Graph.Edges.{KeepsRealTime}
use lincheck_cpp.Opacity.Graph.Loops.{ReadsLegal}
use lincheck_cpp.Opacity.Ordering.{StmOpacityOrderingGraph}
use lincheck_cpp.Opacity.Graph.Returns.{build_returns}
use lincheck_cpp.Opacity.Graph.Whole.{IsLegalOrder, IsAllowed, build-IsAllowed}

abbrev x : Str
x = b'x' ∷ []

abbrev transaction : List (StmOpacityAccess plain) → ℕ → StmOpacityTransactionAttempt plain
transaction accesses first = record default_attempt {
  transaction_id = first;
  outcome = committed;
  has_begin = true;
  has_end = true;
  begin_event_index = first;
  end_event_index = suc first;
  accesses = accesses;
}

abbrev read_x : ℕ → StmOpacityAccess plain
read_x n = record default_access { write = false; location_id = x; value = int64 n }

abbrev write_x : ℕ → StmOpacityAccess plain
write_x n = record default_access { write = true; location_id = x; value = int64 n }

abbrev writer : StmOpacityTransactionAttempt plain
writer = transaction (read_x 5 ∷ write_x 4 ∷ []) 0

abbrev reader : StmOpacityTransactionAttempt plain
reader = transaction (read_x 4 ∷ []) 3

abbrev both : List (StmOpacityTransactionAttempt plain)
both = writer ∷ reader ∷ []

abbrev history : StmOpacityHistory plain
history = record {
  locations =
      (x, record default_location { initial_value = int64 5; has_initial_value = true }) ∷ [];
  transactions = both;
  lifetime_policy = value_history_only;
  ignored_lifetime_anomalies = 0;
}

both-KeepsRealTime : KeepsRealTime (λ i. i) both
unfolding stm_opacity_precedes
both-KeepsRealTime zero zero a b ea eb ne p = absurd (ne refl)
both-KeepsRealTime zero (suc j) a b ea eb ne p = omega arith
both-KeepsRealTime (suc zero) zero a b ea eb ne p =
    let p' =
      subst (λ a. stm_opacity_precedes a writer ≡ true) (sym (some_inj.0 ea))
        (subst (λ b. stm_opacity_precedes a b ≡ true) (sym (some_inj.0 eb)) p) in
    cc
both-KeepsRealTime (suc zero) (suc zero) a b ea eb ne p = absurd (ne refl)
both-KeepsRealTime (suc zero) (suc (suc j)) a b ea eb ne p = cc
both-KeepsRealTime (suc (suc i)) j a b ea eb ne p = cc

abbrev Legal : ℕ → StmOpacityTransactionAttempt plain → Type 0
Legal i t = ReadsLegal (λ i. i) history (map stm_opacity_final_writes both) i t.accesses []

writer-Legal : Legal 0 writer
unfolding find_location
writer-Legal = (
  λ w own initial i. inr (record {
    matches = subst (λ v. value_eq v (int64 5) ≡ true) (some_inj.0 i) refl;
    untouched = λ _ _ _ _ _ l. elim l [ ];
  }),
  ((λ w own initial i. absurd cc), tt),
)

reader-Legal : Legal 1 reader
unfolding stm_opacity_final_writes final_writes_loop insert_or_assign find_value
reader-Legal = (
  λ w own initial i. inl (
    0,
    record {
      writes = (
        stm_opacity_final_writes writer,
        refl,
        record { other = λ e. cc; value = int64 4; found = refl; matches = refl },
      );
      earlier = omega arith;
      latest = λ w state b e h l. omega arith;
    },
  ),
  tt,
)

both-ReadsLegal :
    (i : ℕ) (t : StmOpacityTransactionAttempt plain) → get_elem? both i ≡ some t → Legal i t
both-ReadsLegal zero t e = subst (Legal 0) (some_inj.0 e) writer-Legal
both-ReadsLegal (suc zero) t e = subst (Legal 1) (some_inj.0 e) reader-Legal
both-ReadsLegal (suc (suc i)) t e = cc

both-IsLegalOrder : IsLegalOrder history both (λ i. i)
both-IsLegalOrder = record {
  distinct = λ i j _ _ e. e;
  real_time = both-KeepsRealTime;
  legal = both-ReadsLegal;
}

build-IsAllowed_example :
    IsAllowed history both (λ i. i) (build_stm_opacity_ordering_graph history both)
build-IsAllowed_example = build-IsAllowed history both (λ i. i) both-IsLegalOrder

build_returns_example :
    (graph : StmOpacityOrderingGraph) × (build_stm_opacity_ordering_graph history both ≡ some graph)
build_returns_example = build_returns history both
