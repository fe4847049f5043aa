-- ===== src/MemoryOrder/Strength.antt =====
-- The orders that the checks let through, described by what an order guarantees.
use lincheck_cpp.Prelude.{ℕ, ◌*◌, ◌≤◌, ◌≡◌, ◌↔◌, refl, Bool, true, false, ok, arith}
use lincheck_cpp.MemoryOrder.{
  MemoryOrder, relaxed, consume, acquire, release, acq_rel, seq_cst, unknown,
  compare_exchange_failure_order, validate_load_memory_order, validate_store_memory_order,
  validate_wait_memory_order, validate_compare_exchange_memory_orders,
}

-- How strongly an order acquires (dependences only, or everything), whether it releases, and whether
-- it takes part in the single total order.
pub record Strength : Type 0 where
  pub known : Bool
  pub acquiring : ℕ
  pub releasing : ℕ
  pub total : ℕ

abbrev strength : Bool → ℕ → ℕ → ℕ → Strength
strength known a r t = record { known = known; acquiring = a; releasing = r; total = t }

abbrev pub strength_of : MemoryOrder → Strength
strength_of relaxed = strength true 0 0 0
strength_of consume = strength true 1 0 0
strength_of acquire = strength true 2 0 0
strength_of release = strength true 0 1 0
strength_of acq_rel = strength true 2 1 0
strength_of seq_cst = strength true 2 1 1
strength_of (unknown n) = strength false 0 0 0

-- An order for reads: it releases only as part of the single total order.
pub record IsLoadOrder (order : MemoryOrder) : Type 0 where
  pub known : (strength_of order).known ≡ true
  pub no_release : (strength_of order).releasing ≤ (strength_of order).total

pub record IsStoreOrder (order : MemoryOrder) : Type 0 where
  pub known : (strength_of order).known ≡ true
  pub no_acquire : (strength_of order).acquiring ≤ 2 * (strength_of order).total

pub record IsAtMost (weaker stronger : MemoryOrder) : Type 0 where
  pub acquiring : (strength_of weaker).acquiring ≤ (strength_of stronger).acquiring
  pub releasing : (strength_of weaker).releasing ≤ (strength_of stronger).releasing
  pub total : (strength_of weaker).total ≤ (strength_of stronger).total

-- A load accepts exactly the known orders that do not release, and `seq_cst`; so does a wait.
pub validate_load_iff :
    (order : MemoryOrder)
    → ((validate_load_memory_order order ≡ ok tt) ↔ IsLoadOrder order)
      × ((validate_wait_memory_order order ≡ ok tt) ↔ IsLoadOrder order)
unfolding validate_load_memory_order validate_wait_memory_order
validate_load_iff relaxed = ground arith
validate_load_iff order = ground arith

-- A store accepts exactly the known orders that do not acquire, and `seq_cst`.
pub validate_store_iff :
    (order : MemoryOrder) → (validate_store_memory_order order ≡ ok tt) ↔ IsStoreOrder order
unfolding validate_store_memory_order
validate_store_iff relaxed = ground arith
validate_store_iff order = ground arith

-- A compare-exchange accepts exactly a known success order with a failure order that a load accepts
-- and that is in no respect stronger than the success order.
pub validate_compare_exchange_iff :
    (success failure : MemoryOrder)
    → (validate_compare_exchange_memory_orders success failure ≡ ok tt)
      ↔ ((strength_of success).known ≡ true) × IsLoadOrder failure × IsAtMost failure success
unfolding validate_compare_exchange_memory_orders
validate_compare_exchange_iff relaxed relaxed = ground arith
validate_compare_exchange_iff success failure = ground arith

derived_accepted :
    (success : MemoryOrder)
    → (strength_of success).known ≡ true
    → validate_compare_exchange_memory_orders success (compare_exchange_failure_order success)
      ≡ ok tt
unfolding validate_compare_exchange_memory_orders compare_exchange_failure_order
derived_accepted relaxed h = refl
derived_accepted success h = ground arith

derived_strongest :
    (success failure : MemoryOrder)
    → validate_compare_exchange_memory_orders success failure ≡ ok tt
    → IsAtMost failure (compare_exchange_failure_order success)
unfolding validate_compare_exchange_memory_orders compare_exchange_failure_order
derived_strongest relaxed relaxed h = ground arith
derived_strongest success failure h = ground arith

-- The failure order that is derived from a known success order is accepted with it, and it is the
-- strongest failure order that is.
pub failure_order_strongest :
    (success : MemoryOrder)
    → (strength_of success).known ≡ true
    → (validate_compare_exchange_memory_orders success (compare_exchange_failure_order success)
        ≡ ok tt)
      × ((failure : MemoryOrder)
          → validate_compare_exchange_memory_orders success failure ≡ ok tt
          → IsAtMost failure (compare_exchange_failure_order success))
failure_order_strongest success h = (derived_accepted success h, derived_strongest success)
