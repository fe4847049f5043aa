-- ===== src/Opacity/Event.antt =====
-- include/lincheck/lincheck.hpp: `StmEventRecord`, what the hooks of an STM record. The fields that
-- no check reads (description, depth, clock, success, reason) are left out.
use lincheck_cpp.Prelude.{ℕ, Bool, Option, ℤ}
use lincheck_cpp.Value.{Str, Payloads, Value}

pub record OperationContext : Type 0 where
  pub thread_id : ℤ
  pub actor_index : ℕ
  pub operation_index : ℕ
  pub name : Str
  pub group : Str
  pub independence_group : Str
  pub non_parallel : Bool
  pub one_shot : Bool
  pub exception_results : Bool
  pub actor_label : Str

-- The kinds that the verifier tells apart, by the text of `kind`.
pub data StmEventKind : Type 0 where
  tx_location_register tx_location_init tx_location_destroy : StmEventKind
  tx_begin tx_attempt_metadata tx_read tx_write : StmEventKind
  tx_commit_success tx_abort tx_retry : StmEventKind
  other : StmEventKind

pub record StmEventRecord (P : Payloads) : Type 0 where
  pub sequence : ℕ
  pub event_index : ℕ
  pub thread_id : ℤ
  pub operation : Option OperationContext
  pub kind : StmEventKind
  pub address_id : Str
  pub location_handle_id : Str
  pub object_lifetime_id : Str
  pub object_lifetime_generation : ℕ
  pub has_object_lifetime_generation : Bool
  pub field_id : Str
  pub read_only : Bool
  pub has_read_only : Bool
  pub lock_slot : ℕ
  pub has_lock_slot : Bool
  pub version : ℕ
  pub has_version : Bool
  pub attempt : ℤ
  pub transaction_id : ℕ
  pub logical_transaction_id : ℕ
  pub label : Str
  pub type_name : Str
  pub value : Value P
  pub has_value : Bool
  pub value_supported : Bool
