-- ===== src/Opacity/Placement.antt =====
-- include/lincheck/lincheck.hpp, `verify_stm_opacity_observers`: the candidate prefixes of each
-- observer, and the search among them. Counters and samples for the report are left out.
pub mod Candidates
pub mod Decide
use lincheck_cpp.Prelude.{
  ℕ, zero, suc, Bool, true, false, ◌&&◌, if◌then◌else◌, Option, none, some, List, [], ◌∷◌, length,
  replicate,
}
use lincheck_cpp.Value.{Payloads}
use lincheck_cpp.Opacity.History.{StmOpacityTransactionAttempt, StmOpacityState}
use lincheck_cpp.Opacity.Reads.{validate_stm_opacity_transaction_reads}
use lincheck_cpp.Opacity.Observers.{
  Assignment, Found, solved, unsolved, out_of_fuel, stm_opacity_prefix_respects_real_time,
  search_stm_opacity_observer_prefixes,
}

module _ {P : Payloads} where
  -- The validation without a state to commit to.
  unfoldable pub reads_accepted : StmOpacityTransactionAttempt P → StmOpacityState P → Bool
  reads_accepted tx state = elim (validate_stm_opacity_transaction_reads tx state) [
    | none ↦ false
    | some _ ↦ true
  ]

module _ {P : Payloads} (committed_order : List (StmOpacityTransactionAttempt P))
    (prefix_states : List (StmOpacityState P)) where
  -- The loop over the prefixes, from `prefix` on.
  unfoldable pub candidate_loop :
      StmOpacityTransactionAttempt P → ℕ → List (StmOpacityState P) → List ℕ
  candidate_loop observer prefix [] = []
  candidate_loop observer prefix (state ∷ states) =
      let rest = candidate_loop observer (suc prefix) states in
      if stm_opacity_prefix_respects_real_time observer committed_order prefix
        && reads_accepted observer state
      then prefix ∷ rest
      else rest

  -- The loop over the observers, `none` where one has no candidate.
  unfoldable pub candidate_prefixes : List (StmOpacityTransactionAttempt P) → Option (List (List ℕ))
  candidate_prefixes [] = some []
  candidate_prefixes (observer ∷ observers) = elim (candidate_loop observer 0 prefix_states) [
    | [] ↦ none
    | p ∷ ps ↦ elim (candidate_prefixes observers) [
      | none ↦ none
      | some candidates ↦ some ((p ∷ ps) ∷ candidates)
    ]
  ]

-- Before the search.
abbrev pub start : ℕ → Assignment
start n = record { assigned = replicate n false; prefixes = replicate n 0 }

-- What the search returns; `none` belongs to the model only.
abbrev pub returned : Found → Option Bool
returned (solved a) = some true
returned unsolved = some false
returned out_of_fuel = none

module _ {P : Payloads} where
  unfoldable pub verify_stm_opacity_observers :
      List (StmOpacityTransactionAttempt P)
      → List (StmOpacityTransactionAttempt P)
      → List (StmOpacityState P)
      → Option Bool
  unfolding candidate_prefixes
  verify_stm_opacity_observers observers committed_order prefix_states =
      elim (candidate_prefixes committed_order prefix_states observers) [
        | none ↦ some false
        | some candidates ↦ returned (
            search_stm_opacity_observer_prefixes observers candidates (suc (length observers))
              (start (length observers)))
      ]
