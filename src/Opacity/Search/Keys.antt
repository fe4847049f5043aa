-- ===== src/Opacity/Search/Keys.antt =====
-- The memo's keys tell the states of one history apart, unless hashes of its values collide.
use lincheck_cpp.Prelude.{ℕ, Bool, ◌≡◌, sym, ap, ◌∙◌, some, List, ◌⊎◌, inl, inr}
use lincheck_cpp.Value.{Str, Payloads, Value}
use lincheck_cpp.Value.Hash.{stable_hash}
use lincheck_cpp.Opacity.History.{
  StmOpacityTransactionAttempt, StmOpacityHistory, StmOpacityState, find_value,
  make_initial_stm_opacity_state,
}
use lincheck_cpp.Opacity.Reads.{Memory}
use lincheck_cpp.Opacity.Search.Serial.{memory_of, Run-Forward}
use lincheck_cpp.Opacity.Search.Writer.{Writes, memory_after-Origin}
use lincheck_cpp.Opacity.Search.Entries.{key-faithful}
use lincheck_cpp.Opacity.Search.Exchange.{IsReached, KeysAreFaithful}

module _ {P : Payloads} (history : StmOpacityHistory P)
    (committed : List (StmOpacityTransactionAttempt P)) where
  -- The values that a location may hold: the initial one, and the final writes of transactions.
  abbrev pub MayHold : Str → Value P → Type 0
  MayHold k v =
      (find_value k (make_initial_stm_opacity_state history) ≡ some v)
      ⊎ (s : ℕ) × Writes committed s k v

  -- Different values of a location have different hashes.
  abbrev pub HashesDiffer : Type 0
  HashesDiffer =
      (k : Str) (v w : Value P) → MayHold k v → MayHold k w → stable_hash v ≡ stable_hash w → v ≡ w

  reached-MayHold :
      (placed : List Bool) (state : StmOpacityState P)
      → IsReached history committed placed state
      → (k : Str) (v : Value P) → find_value k state ≡ some v
      → MayHold k v
  reached-MayHold placed state r k v e =
      let f =
        Run-Forward committed (make_initial_stm_opacity_state history) r.order r.states state
          r.run in
      elim (memory_after-Origin committed r.order
        (memory_of (make_initial_stm_opacity_state history)) k v
        (ap (λ (m : Memory P). m k) (sym f.final) ∙ e)) [
          | inl (p, s, o) ↦ inr (s, o.writes)
          | inr (start, _) ↦ inl start
        ]

  pub hashes-KeysAreFaithful : HashesDiffer → KeysAreFaithful history committed
  hashes-KeysAreFaithful differ placed a b ra rb =
      key-faithful a b
        (λ k v w va wb.
          differ k v w (reached-MayHold placed a ra k v va) (reached-MayHold placed b rb k w wb))
        placed (ra.ids ∙ sym rb.ids)
