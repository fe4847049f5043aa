-- ===== src/Opacity/Search/Writer.antt =====
-- Where the value at a location comes from after a serial run: from the last transaction of the
-- order whose final writes hold the location, or from the start.
use mathlib.Core.Path.{fun_ext}
use mathlib.Core.Option.{some_inj}
use lincheck_cpp.Prelude.{
  ℕ, zero, suc, ◌≤◌, ◌≡◌, refl, sym, subst, ap, ◌∙◌, Bool, true, false, if◌then◌else◌, Option, none,
  some, List, [], ◌∷◌, ◌⊎◌, inl, inr, Option-cases, get_elem?, arith,
}
use lincheck_cpp.Value.{Str, Payloads, Value}
use lincheck_cpp.Opacity.History.{
  StmOpacityAccess, StmOpacityTransactionAttempt, StmOpacityState, find_value, insert_or_assign,
  find_value-insert_or_assign,
}
use lincheck_cpp.Opacity.Reads.{
  Memory, step_memory, update, run_memory, final_writes_loop, stm_opacity_final_writes,
}
use lincheck_cpp.Opacity.Search.Serial.{step_by, step_of, memory_after}

module _ {P : Payloads} where
  abbrev pub or_memory : Option (Value P) → Option (Value P) → Option (Value P)
  or_memory none other = other
  or_memory (some v) other = some v

  -- What a transaction sees of its own writes and of the memory.
  abbrev pub overlay : StmOpacityState P → Memory P → Memory P
  overlay writes m k = or_memory (find_value k writes) (m k)

  pub overlay-insert :
      (writes : StmOpacityState P) (m : Memory P) (k : Str) (v : Value P)
      → overlay (insert_or_assign k v writes) m ≡ update (overlay writes m) k v
  overlay-insert writes m k v =
      fun_ext (λ j. ground (arith, find_value-insert_or_assign k j v writes))

  abbrev pub write_by : Bool → StmOpacityAccess P → StmOpacityState P → StmOpacityState P
  write_by b access writes =
      if b then insert_or_assign access.location_id access.value writes else writes

  pub overlay-step :
      (b : Bool) (access : StmOpacityAccess P) (writes : StmOpacityState P) (m : Memory P)
      → overlay (write_by b access writes) m ≡ step_memory b access (overlay writes m)
  overlay-step true access writes m = overlay-insert writes m access.location_id access.value
  overlay-step false access writes m = refl

  run_memory-overlay :
      (accesses : List (StmOpacityAccess P)) (writes : StmOpacityState P) (m : Memory P)
      → run_memory (overlay writes m) accesses ≡ overlay (final_writes_loop writes accesses) m
  unfolding final_writes_loop
  run_memory-overlay [] writes m = refl
  run_memory-overlay (access ∷ accesses) writes m =
      ap (λ n. run_memory n accesses) (sym (overlay-step access.write access writes m))
      ∙ run_memory-overlay accesses (write_by access.write access writes) m

  -- A transaction leaves what it has written, and all else as it was.
  run_memory_lem :
      (tx : StmOpacityTransactionAttempt P) (m : Memory P)
      → run_memory m tx.accesses ≡ overlay (stm_opacity_final_writes tx) m
  unfolding stm_opacity_final_writes find_value
  run_memory_lem tx m = run_memory-overlay tx.accesses [] m

module _ {P : Payloads} (committed : List (StmOpacityTransactionAttempt P)) where
  -- The transaction's final write at the location.
  pub record Writes (s : ℕ) (k : Str) (v : Value P) : Type 0 where
    pub tx : StmOpacityTransactionAttempt P
    pub there : get_elem? committed s ≡ some tx
    pub written : find_value k (stm_opacity_final_writes tx) ≡ some v

  pub record IsLastWriter (order : List ℕ) (k : Str) (v : Value P) (p s : ℕ) : Type 0 where
    pub at_place : get_elem? order p ≡ some s
    pub writes : Writes s k v
    pub last : (q t : ℕ) (w : Value P) → get_elem? order q ≡ some t → Writes t k w → q ≤ p

  abbrev pub Untouched : List ℕ → Str → Type 0
  Untouched order k = (q t : ℕ) (w : Value P) → get_elem? order q ≡ some t → Writes t k w → ⊥

  abbrev pub Origin : Memory P → List ℕ → Str → Value P → Type 0
  Origin m order k v =
      ((p : ℕ) × (s : ℕ) × IsLastWriter order k v p s) ⊎ (m k ≡ some v) × Untouched order k

  -- What one transaction leaves is its own write, or else it does not write the location.
  step-Origin :
      (m : Memory P) (i : ℕ) (k : Str) (v : Value P)
      → step_of committed m i k ≡ some v
      → Writes i k v ⊎ (m k ≡ some v) × ((w : Value P) → Writes i k w → ⊥)
  step-Origin m i k v e = elim (Option-cases (get_elem? committed i)) [
    | inl f ↦ inr (sym (ap (λ o. step_by committed m o k) f) ∙ e, λ w x. let t = x.there in cc)
    | inr (tx, f) ↦
        let at_k : or_memory (find_value k (stm_opacity_final_writes tx)) (m k) ≡ some v =
          ap (λ (n : Memory P). n k) (sym (ap (step_by committed m) f ∙ run_memory_lem tx m)) ∙ e in
        elim (Option-cases (find_value k (stm_opacity_final_writes tx))) [
          | inl g ↦ inr (sym (ap (λ o. or_memory o (m k)) g) ∙ at_k, silent tx f g)
          | inr (w, g) ↦ inl (record {
            tx = tx;
            there = f;
            written = g ∙ (sym (ap (λ o. or_memory o (m k)) g) ∙ at_k);
          })
        ]
  ]
    where
      silent :
          (tx : StmOpacityTransactionAttempt P)
          → get_elem? committed i ≡ some tx
          → find_value k (stm_opacity_final_writes tx) ≡ none
          → (w : Value P) → Writes i k w
          → ⊥
      silent tx f g w x =
          let same = some_inj.0 (sym f ∙ x.there) in
          let g' = subst (λ t. find_value k (stm_opacity_final_writes t) ≡ none) same g in
          let y = x.written in cc

  pub memory_after-Origin :
      (order : List ℕ) (m : Memory P) (k : Str) (v : Value P)
      → memory_after committed m order k ≡ some v
      → Origin m order k v
  memory_after-Origin [] m k v e = inr (e, λ q t w f. cc)
  memory_after-Origin (i ∷ order) m k v e =
      elim (memory_after-Origin order (step_of committed m i) k v e) [
        | inl (p, s, h) ↦
            inl (suc p, s, record { at_place = h.at_place; writes = h.writes; last = later p s h })
        | inr (f, untouched) ↦ elim (step-Origin m i k v f) [
          | inl x ↦ inl (0, i, record { at_place = refl; writes = x; last = first untouched })
          | inr (g, n) ↦ inr (g, never untouched n)
        ]
      ]
    where
      later :
          (p s : ℕ)
          → IsLastWriter order k v p s
          → (q t : ℕ) (w : Value P) → get_elem? (i ∷ order) q ≡ some t
          → Writes t k w
          → q ≤ suc p
      later p s h zero t w f x = omega arith
      later p s h (suc q) t w f x = omega (arith, h.last q t w f x)

      first :
          Untouched order k
          → (q t : ℕ) (w : Value P) → get_elem? (i ∷ order) q ≡ some t
          → Writes t k w
          → q ≤ 0
      first untouched zero t w f x = omega arith
      first untouched (suc q) t w f x = absurd (untouched q t w f x)

      never : Untouched order k → ((w : Value P) → Writes i k w → ⊥) → Untouched (i ∷ order) k
      never untouched n zero t w f x = n w (subst (λ j. Writes j k w) (sym (some_inj.0 f)) x)
      never untouched n (suc q) t w f x = untouched q t w f x
