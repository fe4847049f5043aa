-- ===== src/MemoryOrder/Tests.antt =====
-- Sample orders.
use lincheck_cpp.Prelude.{◌≡◌, refl, true, ◌↔◌, ok, err}
use lincheck_cpp.MemoryOrder.{
  MemoryOrder, acquire, acq_rel, seq_cst, release, invalid_load, failure_too_strong,
  compare_exchange_failure_order, validate_load_memory_order, validate_store_memory_order,
  validate_wait_memory_order, validate_compare_exchange_memory_orders,
}
use lincheck_cpp.MemoryOrder.Strength.{
  strength_of, IsLoadOrder, IsStoreOrder, IsAtMost, validate_load_iff, validate_store_iff,
  validate_compare_exchange_iff, failure_order_strongest,
}

acq_rel_load : validate_load_memory_order acq_rel ≡ err (invalid_load acq_rel)
unfolding validate_load_memory_order
acq_rel_load = refl

seq_cst_after_acquire :
    validate_compare_exchange_memory_orders acquire seq_cst
    ≡ err (failure_too_strong acquire seq_cst)
unfolding validate_compare_exchange_memory_orders
seq_cst_after_acquire = refl

validate_load_iff_example :
    ((validate_load_memory_order acquire ≡ ok tt) ↔ IsLoadOrder acquire)
    × ((validate_wait_memory_order acquire ≡ ok tt) ↔ IsLoadOrder acquire)
validate_load_iff_example = validate_load_iff acquire

validate_store_iff_example : (validate_store_memory_order release ≡ ok tt) ↔ IsStoreOrder release
validate_store_iff_example = validate_store_iff release

validate_compare_exchange_iff_example :
    (validate_compare_exchange_memory_orders acq_rel acquire ≡ ok tt)
    ↔ ((strength_of acq_rel).known ≡ true) × IsLoadOrder acquire × IsAtMost acquire acq_rel
validate_compare_exchange_iff_example = validate_compare_exchange_iff acq_rel acquire

failure_order_strongest_example :
    (validate_compare_exchange_memory_orders acq_rel (compare_exchange_failure_order acq_rel)
      ≡ ok tt)
    × ((failure : MemoryOrder)
        → validate_compare_exchange_memory_orders acq_rel failure ≡ ok tt
        → IsAtMost failure (compare_exchange_failure_order acq_rel))
failure_order_strongest_example = failure_order_strongest acq_rel refl
