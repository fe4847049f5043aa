-- ===== src/Lib.antt =====
-- Lincheck++ (include/lincheck/lincheck.hpp) runs concurrent objects under test and checks what
-- was observed against a sequential model. This library models the part that judges an observed
-- history.
--
-- - Prelude: lists under native indices, Boolean tests, ranges, maps and sets as lists, integers
--   and their decimals (Prelude.Digits reads them back), results with exceptions as values.
--   Sample: data for the tests.
--
-- - Value: `class Value`, its equality (Value.Symmetric), `stable_hash` (Value.Hash; Value.Bytes
--   has the bytes that it hashes, Value.Bijective the arithmetic) and `to_string` (Value.Text).
--   Doubles, user types, their texts and `std::hash` are the parameter `Payloads`; integers are
--   64-bit patterns, strings are lists of bytes.
--
-- - Scenario: actors, scenarios, observed results, and the sequential side of `TestSpec`.
--   Scenario.Validate is `validate_scenario_against_spec`; an exception is a value that names its
--   kind and place, not its text. Scenario.Constraints and Scenario.Resolve take it apart,
--   Scenario.Valid says which scenarios are valid.
--
-- - Verifier.Model is `run_sequential` and `apply_sequence`, Verifier.Intervals is
--   `real_time_blocker`, Verifier.Cache is `VerifierCache`, and Verifier.Search is
--   `verify_parallel` with `verify` and `verify_with_report`. A sequential model is a value; a
--   call returns the new one with its result or exception. An exception that leaves the verifier
--   is told by its type and message; factories, copies and keys of the model are taken not to
--   throw. The maps of the cache are association lists, found by `operator==` (the hash tables are
--   taken to find what is equal).
--
-- - Verifier.Linearization and Verifier.Order say what a linearization is: step by step, and as
--   one order. Verifier.Replay, RealTime, Candidate, SameKey, Memo, Remaining, Decide, Complete
--   and Classical are about the parts, Named about what a valid scenario throws, Verifier.Verdict
--   about the whole.
--
-- - Opacity.Event has the events that the STM hooks record. Opacity.Builder is
--   `StmOpacityHistoryBuilder`: its state and the tables of locations and live places
--   (Builder.Locations, Places), the handler of each kind of event (Builder.Handlers) and
--   `build_stm_opacity_history` (Builder.Build). Pointers to transactions are their indices; an
--   error names its message. Builder.Table, Located, Explicit, Steps, Destroys, Consistent,
--   Attempts, Begins and Events are about the state that the handlers keep, Builder.Sorted,
--   WellFormed, Initial and Ends about the history that comes out.
--
-- - Opacity.History has the transactions of an STM history and their real-time order,
--   Opacity.Reads is `validate_stm_opacity_transaction_reads`, which buffers a transaction's
--   writes, Opacity.Observers searches a prefix of the committed order for each aborted or live
--   transaction, and Opacity.Placement is `verify_stm_opacity_observers`, which finds the
--   candidate prefixes first. Opacity.Ordering is the graph of what has to precede what,
--   Ordering.Matrix, Add, Pass and Closure are about its edges and their closure, Ordering.Choices
--   refines the reads that may have several sources, and Ordering.Serial, Refine, Unset and Settle
--   are about that. Opacity.Graph is `build_stm_opacity_ordering_graph`, with Graph.Edges,
--   Sources, Legal, Loops, Whole, Kept, RealTime and Returns about its loops. The unordered maps
--   are association lists.
--
-- - Opacity.Search is `search_stm_opacity_committed_order`, which tries the orders of the
--   committed transactions depth first with a memo of the prefixes that failed (Search.Key is the
--   memo's text, Search.Predecessors the test of a candidate against the graph). Search.Verify is
--   `verify_stm_opacity`, which builds the graph, searches, and lets Opacity.Placement decide on
--   each complete order. Search.Prefix, Limit, Sound and Opaque are about the orders that it
--   finds, Serial, Writer, Places, Initial, Legal, Ready, Exchange, Rejects, Tried, Loop, Exhausts
--   and Decides about those that it does not find, and Entries, Locations and Keys about the
--   memo's texts, Search.Factorial about the bound of the search space that is reported.
--
-- - Opacity.Check is `apply_stm_opacity_check`, which builds the history of a run's events, judges
--   it and records the failure; Check.Decides is about its answer.
--
-- - Schedule is the schedules that a run replays and the recorded decisions that they are taken
--   from.
--
-- - MemoryOrder is the checks that the wrapped atomics make on their memory orders;
--   MemoryOrder.Strength says what an order guarantees.
--
-- Bounds and fuel. `verify_parallel` runs on fuel, one unit for each recursive call; `verify`
-- gives one more than the number of parallel operations, and each call puts one operation in the
-- order, so the fuel never runs out. The search for observer prefixes has one unit more than
-- observers. The loop that refines and closes the ordering graph needs one unit more than entries
-- of its matrix are not set. The search for a committed order has one unit more than committed
-- transactions, since each call places one. The counter of complete orders and
-- `saturated_factorial` wrap around at 2 ^ 64; other clocks and sizes are unbounded numbers, since
-- nothing here adds to them.
--
-- The user's specification is assumed faithful (`IsFaithful`): a copy of a model is like the
-- model, and models with equal keys answer alike. That is what `sequential_cloner` and
-- `sequential_state` are documented to provide. Where a statement says so, the comparison of
-- doubles and of user values is symmetric (`EqIsSymmetric`), and no two values that a location of
-- the history may hold have the same 64-bit hash (`HashesDiffer`), which the memo of the opacity
-- search relies on.
--
-- Not modelled: the text of reports, messages and explanations, the samples and counters of a
-- report (anomalies, pruned prefixes), the partial history of an error, generators, the schedulers
-- and runtimes, the instrumented wrappers, the STM hooks that record events, the event dependency
-- graph, the text of traces, and the source tools.
pub mod Prelude
pub mod Sample
pub mod Value
pub mod Scenario
pub mod Verifier
pub mod Opacity
pub mod MemoryOrder
pub mod Schedule
