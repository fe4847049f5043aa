-- ===== src/Opacity/Builder/Events.antt =====
-- include/lincheck/lincheck.hpp, `build_stm_opacity_history`: the accesses of a transaction, and the
-- round of the loop.
use lincheck_cpp.Prelude.{
  ℕ, ◌≡◌, refl, sym, ap, ◌∙◌, subst, Bool, true, false, not, some, [], ◌∷◌, ◌++◌, inl, inr,
  Bool-cases, Option-cases, get_elem?, find, member, arith, is_empty, ◌&&◌,
}
use lincheck_cpp.Value.{Payloads, Value}
use lincheck_cpp.Opacity.Event.{
  StmEventRecord, StmEventKind, tx_location_register, tx_location_init, tx_location_destroy,
  tx_begin, tx_attempt_metadata, tx_read, tx_write, tx_commit_success, tx_abort, tx_retry, other,
}
use lincheck_cpp.Opacity.History.{StmOpacityTransactionAttempt}
use lincheck_cpp.Opacity.Builder.{
  BuildState, require_tx, store_tx, require_supported_value, access_to_destroyed,
}
use lincheck_cpp.Opacity.Builder.Locations.{Located}
use lincheck_cpp.Opacity.Builder.Handlers.{
  append_access, access_in, access_error, access_of, access_address, access_transaction,
  locate_access, locate_raw_access, find_or_ensure_raw, mark_destroyed_access, handle_kind,
  handle_event,
}
use lincheck_cpp.Opacity.Builder.Table.{
  Gives, Gives-bind, Gives-weaken, Gives-if, is_out_of_range, IsTable, LocationStep, step_trans,
  stay, known_of_find, is_known, anomaly_if-LocationStep, ignore-LocationStep,
}
use lincheck_cpp.Opacity.Builder.Located.{
  LocatedFrom, located_after, location_at-LocatedFrom, ensure_active_location-LocatedFrom,
}
use lincheck_cpp.Opacity.Builder.Explicit.{ensure_explicit_location-LocatedFrom}
use lincheck_cpp.Opacity.Builder.Steps.{register_location-LocationStep, init_location-LocationStep}
use lincheck_cpp.Opacity.Builder.Destroys.{destroy_location-LocationStep}
use lincheck_cpp.Opacity.Builder.Consistent.{
  AllKnown-snoc, IsAttempt, IsConsistent, step-IsConsistent, replaced-IsConsistent,
}
use lincheck_cpp.Opacity.Builder.Attempts.{
  require_tx-key, same_liveness, attempt_metadata-IsConsistent, end_transaction-IsConsistent,
  retry_transaction-IsConsistent,
}
use lincheck_cpp.Opacity.Builder.Begins.{begin_transaction-IsConsistent}

module _ {P : Payloads} where
  mark-LocationStep :
      (strict : Bool) (event : StmEventRecord P) (s : BuildState P)
      → IsTable s
      → LocationStep s (mark_destroyed_access strict event s)
  mark-LocationStep strict event s t =
      elim (Bool-cases (not strict && member event.address_id s.ignored_raw_destroyed_addresses)) [
        | inl e ↦ rw e (ignore-LocationStep s t)
        | inr e ↦ rw e (stay s t)
      ]

  find_or_ensure_raw-LocatedFrom :
      (strict : Bool) (event : StmEventRecord P) (s : BuildState P)
      → IsTable s
      → Gives (LocatedFrom s) (find_or_ensure_raw strict event s)
  find_or_ensure_raw-LocatedFrom strict event s t =
      elim (Option-cases (find event.address_id s.active_location_by_address)) [
        | inl e ↦
            rw (e, find_or_ensure_raw)
              (ensure_active_location-LocatedFrom strict event event.address_id s t)
        | inr (key, e) ↦
            rw (e, find_or_ensure_raw)
              (location_at-LocatedFrom key s t (t.by_address event.address_id key e))
      ]

  locate_raw_access-LocatedFrom :
      (strict : Bool) (event : StmEventRecord P) (s : BuildState P)
      → IsTable s
      → Gives (LocatedFrom s) (locate_raw_access strict event s)
  unfolding locate_raw_access
  locate_raw_access-LocatedFrom strict event s t =
      let s1 = mark_destroyed_access strict event s in
      let a : LocationStep s s1 = mark-LocationStep strict event s t in
      Gives-if (LocatedFrom s) (is_empty event.address_id) _ _ refl (
        Gives-bind (LocationStep s1) (LocatedFrom s) _ _
          (anomaly_if-LocationStep _ strict (access_to_destroyed event.address_id) s1 a.table refl)
          (λ s2 b.
            Gives-weaken (LocatedFrom s2) (LocatedFrom s) _
              (find_or_ensure_raw-LocatedFrom strict event s2 b.table)
              (λ found. located_after s s2 found (step_trans s s1 s2 a b))))

  locate_access-LocatedFrom :
      (strict : Bool) (event : StmEventRecord P) (s : BuildState P)
      → IsTable s
      → Gives (LocatedFrom s) (locate_access strict event s)
  unfolding locate_access
  locate_access-LocatedFrom strict event s t =
      elim (Bool-cases (is_empty event.location_handle_id)) [
        | inl e ↦ rw e (locate_raw_access-LocatedFrom strict event s t)
        | inr e ↦ rw e (ensure_explicit_location-LocatedFrom strict event s t)
      ]

  append_access-IsConsistent :
      (event : StmEventRecord P) (i : ℕ) (tx : StmOpacityTransactionAttempt P) (value : Value P)
      (s : BuildState P) (found : Located P)
      → IsConsistent s
      → get_elem? s.transactions i ≡ some tx
      → LocatedFrom s found
      → Gives IsConsistent (append_access event i tx value found)
  unfolding store_tx
  append_access-IsConsistent event i tx value s (key, location, t) c at_i h =
      let c1 : IsConsistent t = step-IsConsistent s t c h.step in
      let at_i' : get_elem? t.transactions i ≡ some tx =
        ap (λ txs. get_elem? txs i) h.step.transactions ∙ at_i in
      let old : IsAttempt t i tx = c1.attempts i tx at_i' in
      let access = access_of event value (access_address event location) location in
      let known : is_known t.locations location.location_id ≡ true =
        subst (λ k. is_known t.locations k ≡ true) (sym (h.step.table.named key location h.found))
          (known_of_find t.locations key h.found) in
      replaced-IsConsistent t i tx (record tx { accesses = tx.accesses ++ access ∷ [] })
        t.live_transactions c1 at_i' refl old.begun old.numbered old.undecided
        (AllKnown-snoc t.locations tx.accesses access old.located known)
        (same_liveness t i tx c1 at_i')

  access_error_in_range : (event : StmEventRecord P) → is_out_of_range (access_error event) ≡ false
  access_error_in_range event = ground arith

  access_in-IsConsistent :
      (strict : Bool) (event : StmEventRecord P) (s : BuildState P) (i : ℕ)
      (tx : StmOpacityTransactionAttempt P)
      → IsConsistent s
      → get_elem? s.transactions i ≡ some tx
      → Gives IsConsistent (access_in strict event s i tx)
  access_in-IsConsistent strict event s i tx c at_i =
      elim (Option-cases (require_supported_value event)) [
        | inl e ↦ rw (e, access_in) (access_error_in_range event)
        | inr (value, e) ↦
            rw (e, access_in)
              (Gives-bind (LocatedFrom s) IsConsistent _ _
                (locate_access-LocatedFrom strict event s c.table)
                (λ found. append_access-IsConsistent event i tx value s found c at_i))
      ]

  access_transaction-IsConsistent :
      (strict : Bool) (event : StmEventRecord P) (s : BuildState P)
      → IsConsistent s
      → Gives IsConsistent (access_transaction strict event s)
  unfolding access_transaction
  access_transaction-IsConsistent strict event s c = elim (Option-cases (require_tx event s)) [
    | inl e ↦ rw (e, access_transaction) refl
    | inr ((i, tx), e) ↦
        rw (e, access_transaction)
          (Gives-if IsConsistent (not tx.has_begin) _ _ refl
            (access_in-IsConsistent strict event s i tx c (require_tx-key event s i tx c e).0))
  ]

  handle_kind-IsConsistent :
      (kind : StmEventKind) (strict : Bool) (event : StmEventRecord P) (s : BuildState P)
      → IsConsistent s
      → Gives IsConsistent (handle_kind kind strict event s)
  unfolding handle_kind
  handle_kind-IsConsistent tx_location_register strict event s c =
      Gives-weaken (LocationStep s) IsConsistent _
        (register_location-LocationStep strict event s c.table) (λ t. step-IsConsistent s t c)
  handle_kind-IsConsistent tx_location_init strict event s c =
      Gives-weaken (LocationStep s) IsConsistent _
        (init_location-LocationStep strict event s c.table) (λ t. step-IsConsistent s t c)
  handle_kind-IsConsistent tx_location_destroy strict event s c =
      Gives-weaken (LocationStep s) IsConsistent _
        (destroy_location-LocationStep strict event s c.table) (λ t. step-IsConsistent s t c)
  handle_kind-IsConsistent tx_begin strict event s c = begin_transaction-IsConsistent event s c
  handle_kind-IsConsistent tx_attempt_metadata strict event s c =
      attempt_metadata-IsConsistent event s c
  handle_kind-IsConsistent tx_read strict event s c =
      access_transaction-IsConsistent strict event s c
  handle_kind-IsConsistent tx_write strict event s c =
      access_transaction-IsConsistent strict event s c
  handle_kind-IsConsistent tx_commit_success strict event s c =
      end_transaction-IsConsistent event s c
  handle_kind-IsConsistent tx_abort strict event s c = end_transaction-IsConsistent event s c
  handle_kind-IsConsistent tx_retry strict event s c = retry_transaction-IsConsistent event s c
  handle_kind-IsConsistent other strict event s c = c

  -- From a consistent state an event leads to a consistent one, or to the explanation of a
  -- malformed history; a lookup by `at` never throws. Consistent: the index leads from a key to
  -- the attempt of that key and back, exactly the attempts without an end are live, those that
  -- end have an outcome, and the tables of active locations and the accesses lead to locations
  -- of the map, which knows each by its id.
  pub handle_event-IsConsistent :
      (strict : Bool) (event : StmEventRecord P) (s : BuildState P)
      → IsConsistent s
      → Gives IsConsistent (handle_event strict event s)
  unfolding handle_event
  handle_event-IsConsistent strict event s c = handle_kind-IsConsistent event.kind strict event s c
