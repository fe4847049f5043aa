-- ===== src/MemoryOrder.antt =====
-- include/lincheck/lincheck.hpp: the checks that the wrapped atomics make on their memory orders.
pub mod Strength
mod Tests
use lincheck_cpp.Prelude.{ℕ, Bool, true, false, not, ◌||◌, Result, ok, err, ◌>>=◌, ◌>>◌}

-- `std::memory_order`; `unknown` is a value outside the enumeration.
pub data MemoryOrder : Type 0 where
  relaxed consume acquire release acq_rel seq_cst : MemoryOrder
  unknown : ℕ → MemoryOrder

-- The `std::invalid_argument` exceptions, by their messages.
pub data OrderError : Type 0 where
  unknown_order : OrderError
  invalid_load invalid_store invalid_wait : MemoryOrder → OrderError
  invalid_failure : MemoryOrder → OrderError
  failure_too_strong : MemoryOrder → MemoryOrder → OrderError

abbrev pub Checked : Type 0
Checked = Result OrderError (Unit {0})

-- `if (condition) throw …;`
abbrev reject_if : Bool → OrderError → Checked
reject_if true e = err e
reject_if false e = ok tt

unfoldable pub compare_exchange_failure_order : MemoryOrder → MemoryOrder
compare_exchange_failure_order release = relaxed
compare_exchange_failure_order acq_rel = acquire
compare_exchange_failure_order order = order

unfoldable pub validate_known_memory_order : MemoryOrder → Checked
validate_known_memory_order (unknown n) = err unknown_order
validate_known_memory_order relaxed = ok tt
validate_known_memory_order order = ok tt

-- `order == std::memory_order_release || order == std::memory_order_acq_rel`
abbrev releases : MemoryOrder → Bool
releases release = true
releases acq_rel = true
releases order = false

unfoldable pub validate_load_memory_order : MemoryOrder → Checked
unfolding validate_known_memory_order
validate_load_memory_order order = do
  validate_known_memory_order order
  reject_if (releases order) (invalid_load order)

abbrev acquires : MemoryOrder → Bool
acquires consume = true
acquires acquire = true
acquires acq_rel = true
acquires order = false

unfoldable pub validate_store_memory_order : MemoryOrder → Checked
unfolding validate_known_memory_order
validate_store_memory_order order = do
  validate_known_memory_order order
  reject_if (acquires order) (invalid_store order)

unfoldable pub validate_wait_memory_order : MemoryOrder → Checked
unfolding validate_known_memory_order
validate_wait_memory_order order = do
  validate_known_memory_order order
  reject_if (releases order) (invalid_wait order)

abbrev is_relaxed : MemoryOrder → Bool
is_relaxed relaxed = true
is_relaxed order = false

abbrev is_consume : MemoryOrder → Bool
is_consume consume = true
is_consume order = false

abbrev is_acquire : MemoryOrder → Bool
is_acquire acquire = true
is_acquire order = false

abbrev is_seq_cst : MemoryOrder → Bool
is_seq_cst seq_cst = true
is_seq_cst order = false

-- success, failure
unfoldable pub compare_exchange_failure_allowed_by_success : MemoryOrder → MemoryOrder → Bool
compare_exchange_failure_allowed_by_success relaxed failure = is_relaxed failure
compare_exchange_failure_allowed_by_success release failure = is_relaxed failure
compare_exchange_failure_allowed_by_success consume failure =
    is_relaxed failure || is_consume failure
compare_exchange_failure_allowed_by_success acquire failure =
    is_relaxed failure || (is_consume failure || is_acquire failure)
compare_exchange_failure_allowed_by_success acq_rel failure =
    is_relaxed failure || (is_consume failure || is_acquire failure)
compare_exchange_failure_allowed_by_success seq_cst failure =
    is_relaxed failure || (is_consume failure || (is_acquire failure || is_seq_cst failure))
compare_exchange_failure_allowed_by_success (unknown n) failure = false

unfoldable pub validate_compare_exchange_memory_orders : MemoryOrder → MemoryOrder → Checked
unfolding validate_known_memory_order compare_exchange_failure_allowed_by_success
validate_compare_exchange_memory_orders success failure = do
  validate_known_memory_order success
  validate_known_memory_order failure
  reject_if (releases failure) (invalid_failure failure)
  reject_if (not (compare_exchange_failure_allowed_by_success success failure))
      (failure_too_strong success failure)
