-- ===== src/Opacity/Observers.antt =====
-- include/lincheck/lincheck.hpp: the aborted and live transactions of a history. Each is given a
-- prefix of the committed order, such that the real-time order is kept.
pub mod Compatible
pub mod Choose
pub mod Partial
pub mod Solve
use lincheck_cpp.Prelude.{
  ℕ, zero, suc, ◌+◌, Bool, true, false, not, ◌&&◌, ◌||◌, ltb, ◌==◌, if◌then◌else◌, Option, none,
  some, List, [], ◌∷◌, length, get_elem?, get_or, set, range_from,
}
use lincheck_cpp.Value.{Payloads}
use lincheck_cpp.Opacity.History.{StmOpacityTransactionAttempt, stm_opacity_precedes}

-- What the loop that chooses the next observer finds: some observer has no viable prefix left, all
-- are assigned, or the first one with the fewest viable prefixes.
pub data Choice : Type 0 where
  dead : Choice
  all_assigned : Choice
  chosen : ℕ → Choice

-- `assigned` and `assignment`.
pub record Assignment : Type 0 where
  pub assigned : List Bool
  pub prefixes : List ℕ

abbrev pub is_assigned : Assignment → ℕ → Bool
is_assigned a i = get_or a.assigned i false

abbrev pub prefix_of : Assignment → ℕ → ℕ
prefix_of a i = get_or a.prefixes i 0

abbrev pub assign : Assignment → ℕ → ℕ → Assignment
assign a i prefix = record { assigned = set a.assigned i true; prefixes = set a.prefixes i prefix }

-- How the search ends; `out_of_fuel` belongs to the model only.
pub data Found : Type 0 where
  solved : Assignment → Found
  unsolved out_of_fuel : Found

module _ {P : Payloads} where
  -- The loop of `stm_opacity_prefix_respects_real_time` from index `i` on.
  unfoldable pub respects_loop :
      StmOpacityTransactionAttempt P → ℕ → ℕ → List (StmOpacityTransactionAttempt P) → Bool
  respects_loop observer prefix_size i [] = true
  respects_loop observer prefix_size i (committed ∷ order) =
      if stm_opacity_precedes committed observer && not (ltb i prefix_size)
      then false
      else if stm_opacity_precedes observer committed && ltb i prefix_size
      then false
      else respects_loop observer prefix_size (suc i) order

  unfoldable pub stm_opacity_prefix_respects_real_time :
      StmOpacityTransactionAttempt P → List (StmOpacityTransactionAttempt P) → ℕ → Bool
  stm_opacity_prefix_respects_real_time observer committed_order prefix_size =
      respects_loop observer prefix_size 0 committed_order

-- `if (viable_count < best_viable_count)`
abbrev pub better : ℕ → ℕ → Option (ℕ × ℕ) → Option (ℕ × ℕ)
better i count none = some (i, count)
better i count (some (j, best)) = if ltb count best then some (i, count) else some (j, best)

module _ {P : Payloads} (observers : List (StmOpacityTransactionAttempt P)) where
  -- The tests of the loop of `stm_opacity_observer_prefix_compatible` at an assigned observer.
  conflicts : StmOpacityTransactionAttempt P → ℕ → StmOpacityTransactionAttempt P → ℕ → Bool
  conflicts other other_prefix observer prefix =
      stm_opacity_precedes other observer && ltb prefix other_prefix
      || stm_opacity_precedes observer other && ltb other_prefix prefix

  -- The loop itself, from index `i` on.
  unfoldable pub compatible_loop :
      Assignment
      → StmOpacityTransactionAttempt P
      → ℕ
      → ℕ
      → List (StmOpacityTransactionAttempt P)
      → Bool
  unfolding conflicts
  compatible_loop a observer prefix i [] = true
  compatible_loop a observer prefix i (other ∷ others) =
      if is_assigned a i && conflicts other (prefix_of a i) observer prefix
      then false
      else compatible_loop a observer prefix (suc i) others

  unfoldable pub stm_opacity_observer_prefix_compatible : Assignment → ℕ → ℕ → Bool
  stm_opacity_observer_prefix_compatible a index prefix = elim (get_elem? observers index) [
    | none ↦ true
    | some observer ↦ compatible_loop a observer prefix 0 observers
  ]

  unfoldable pub viable_count : Assignment → ℕ → List ℕ → ℕ
  viable_count a i [] = 0
  viable_count a i (prefix ∷ prefixes) =
      (if stm_opacity_observer_prefix_compatible a i prefix then 1 else 0)
      + viable_count a i prefixes

  -- `chosen == observers.size()`, or the one chosen so far, with `best_viable_count`.
  unfoldable pub choose_loop : List (List ℕ) → Assignment → Option (ℕ × ℕ) → List ℕ → Choice
  choose_loop candidates a none [] = all_assigned
  choose_loop candidates a (some (i, count)) [] = chosen i
  choose_loop candidates a best (i ∷ is) =
      let count = viable_count a i (get_or candidates i []) in
      elim (is_assigned a i) [
        | true ↦ choose_loop candidates a best is
        | false ↦ elim (count == 0) [
          | true ↦ dead
          | false ↦ choose_loop candidates a (better i count best) is
        ]
      ]

  -- The loop over the candidate prefixes of the chosen observer; `search` is the recursive call.
  unfoldable pub try_prefixes : (Assignment → Found) → Assignment → ℕ → List ℕ → Found
  try_prefixes search a i [] = unsolved
  try_prefixes search a i (prefix ∷ prefixes) =
      elim (stm_opacity_observer_prefix_compatible a i prefix) [
        | false ↦ try_prefixes search a i prefixes
        | true ↦ elim (search (assign a i prefix)) [
          | unsolved ↦ try_prefixes search a i prefixes
          | solved b ↦ solved b
          | out_of_fuel ↦ out_of_fuel
        ]
      ]

  unfoldable pub search_stm_opacity_observer_prefixes : List (List ℕ) → ℕ → Assignment → Found
  search_stm_opacity_observer_prefixes candidates zero a = out_of_fuel
  search_stm_opacity_observer_prefixes candidates (suc fuel) a =
      elim (choose_loop candidates a none (range_from 0 (length observers))) [
        | dead ↦ unsolved
        | all_assigned ↦ solved a
        | chosen i ↦
            try_prefixes (search_stm_opacity_observer_prefixes candidates fuel) a i
              (get_or candidates i [])
      ]
