-- ===== src/Opacity/History.antt =====
-- include/lincheck/lincheck.hpp: `StmOpacityHistory` with its transactions, the states of the
-- serial execution, and the real-time order of transactions.
use lincheck_cpp.Prelude.{
  ℕ, ◌≡◌, refl, Bool, false, ◌&&◌, ltb, if◌then◌else◌, Option, none, some, List, [], ◌∷◌, list_eq,
  list_eq_iff, arith, ℤ, pos, negsuc,
}
use lincheck_cpp.Value.{Str, Payloads, Value, monostate}
use lincheck_cpp.Opacity.Event.{OperationContext}

pub data StmOpacityTransactionOutcome : Type 0 where
  committed aborted live : StmOpacityTransactionOutcome

pub data StmLifetimePolicy : Type 0 where
  value_history_only strict_lifetimes : StmLifetimePolicy

-- The values of `identity_kind`.
pub data IdentityKind : Type 0 where
  raw_address_generation explicit_handle object_lifetime_field : IdentityKind

pub record StmOpacityLocation (P : Payloads) : Type 0 where
  pub location_id : Str
  pub address_id : Str
  pub identity_kind : IdentityKind
  pub location_handle_id : Str
  pub object_lifetime_id : Str
  pub object_lifetime_generation : ℕ
  pub has_object_lifetime_generation : Bool
  pub field_id : Str
  pub label : Str
  pub type_name : Str
  pub initial_value : Value P
  pub has_initial_value : Bool
  pub destroyed : Bool
  pub generation : ℕ
  pub register_event_index : ℕ
  pub init_event_index : ℕ
  pub destroy_event_index : ℕ

pub record StmOpacityAccess (P : Payloads) : Type 0 where
  pub write : Bool
  pub sequence : ℕ
  pub event_index : ℕ
  pub address_id : Str
  pub location_id : Str
  pub identity_kind : IdentityKind
  pub location_handle_id : Str
  pub object_lifetime_id : Str
  pub object_lifetime_generation : ℕ
  pub has_object_lifetime_generation : Bool
  pub field_id : Str
  pub location_generation : ℕ
  pub value : Value P
  pub lock_slot : ℕ
  pub has_lock_slot : Bool
  pub version : ℕ
  pub has_version : Bool

pub record StmOpacityTransactionAttempt (P : Payloads) : Type 0 where
  pub transaction_id : ℕ
  pub logical_transaction_id : ℕ
  pub attempt : ℤ
  pub thread_id : ℤ
  pub operation : Option OperationContext
  pub read_only : Bool
  pub has_read_only : Bool
  pub outcome : StmOpacityTransactionOutcome
  pub has_begin : Bool
  pub has_end : Bool
  pub begin_sequence : ℕ
  pub begin_event_index : ℕ
  pub end_sequence : ℕ
  pub end_event_index : ℕ
  pub accesses : List (StmOpacityAccess P)

-- `locations` is an association list. The texts of the ignored anomalies are not kept.
pub record StmOpacityHistory (P : Payloads) : Type 0 where
  pub locations : List (Str × StmOpacityLocation P)
  pub transactions : List (StmOpacityTransactionAttempt P)
  pub lifetime_policy : StmLifetimePolicy
  pub ignored_lifetime_anomalies : ℕ

-- The default member initialisers of the three structures.
module _ {P : Payloads} where
  abbrev pub default_location : StmOpacityLocation P
  default_location = record {
    location_id = [];
    address_id = [];
    identity_kind = raw_address_generation;
    location_handle_id = [];
    object_lifetime_id = [];
    object_lifetime_generation = 0;
    has_object_lifetime_generation = false;
    field_id = [];
    label = [];
    type_name = [];
    initial_value = monostate;
    has_initial_value = false;
    destroyed = false;
    generation = 0;
    register_event_index = 0;
    init_event_index = 0;
    destroy_event_index = 0;
  }

  abbrev pub default_access : StmOpacityAccess P
  default_access = record {
    write = false;
    sequence = 0;
    event_index = 0;
    address_id = [];
    location_id = [];
    identity_kind = raw_address_generation;
    location_handle_id = [];
    object_lifetime_id = [];
    object_lifetime_generation = 0;
    has_object_lifetime_generation = false;
    field_id = [];
    location_generation = 0;
    value = monostate;
    lock_slot = 0;
    has_lock_slot = false;
    version = 0;
    has_version = false;
  }

  abbrev pub default_attempt : StmOpacityTransactionAttempt P
  default_attempt = record {
    transaction_id = 0;
    logical_transaction_id = 0;
    attempt = pos 0;
    thread_id = negsuc 0;
    operation = none;
    read_only = false;
    has_read_only = false;
    outcome = live;
    has_begin = false;
    has_end = false;
    begin_sequence = 0;
    begin_event_index = 0;
    end_sequence = 0;
    end_event_index = 0;
    accesses = [];
  }

-- `std::unordered_map<std::string, Value>`, as an association list.
abbrev pub StmOpacityState : Payloads → Type 0
StmOpacityState P = List (Str × Value P)

module _ {P : Payloads} where
  -- `find`
  unfoldable pub find_value : Str → StmOpacityState P → Option (Value P)
  find_value k [] = none
  find_value k ((j, v) ∷ state) = if list_eq j k then some v else find_value k state

  unfoldable pub insert_or_assign : Str → Value P → StmOpacityState P → StmOpacityState P
  insert_or_assign k v [] = (k, v) ∷ []
  insert_or_assign k v ((j, w) ∷ state) =
      if list_eq j k then (k, v) ∷ state else (j, w) ∷ insert_or_assign k v state

  -- Inserts only where the key is new, as `emplace` does.
  unfoldable pub emplace : Str → Value P → StmOpacityState P → StmOpacityState P
  emplace k v [] = (k, v) ∷ []
  emplace k v ((j, w) ∷ state) = if list_eq j k then (j, w) ∷ state else (j, w) ∷ emplace k v state

  unfoldable pub initial_loop :
      List (Str × StmOpacityLocation P) → StmOpacityState P → StmOpacityState P
  initial_loop [] state = state
  initial_loop ((k, location) ∷ locations) state =
      initial_loop locations
        (if location.has_initial_value then emplace k location.initial_value state else state)

  unfoldable pub make_initial_stm_opacity_state : StmOpacityHistory P → StmOpacityState P
  unfolding initial_loop emplace
  make_initial_stm_opacity_state history = initial_loop history.locations []

  unfoldable pub stm_opacity_precedes :
      StmOpacityTransactionAttempt P → StmOpacityTransactionAttempt P → Bool
  stm_opacity_precedes left right =
      left.has_end && (right.has_begin && ltb left.end_event_index right.begin_event_index)

  pub find_value-insert_or_assign :
      (k j : Str) (v : Value P) (state : StmOpacityState P)
      → find_value j (insert_or_assign k v state)
        ≡ (if list_eq k j then some v else find_value j state)
  unfolding find_value insert_or_assign
  find_value-insert_or_assign k j v [] = refl
  find_value-insert_or_assign k j v ((i, w) ∷ state) = ground (
    arith,
    list_eq_iff k j,
    list_eq_iff i k,
    list_eq_iff i j,
    find_value-insert_or_assign k j v state,
  )
