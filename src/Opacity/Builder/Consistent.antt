-- ===== src/Opacity/Builder/Consistent.antt =====
-- include/lincheck/lincheck.hpp, `build_stm_opacity_history`: when the state of the loop is
-- consistent, and the changes that keep it so.
use lincheck_cpp.Prelude.{
  ℕ, ◌≡◌, ◌≢◌, sym, ap, ◌∙◌, subst, Bool, true, false, not, some, List, [], ◌∷◌, ◌++◌, inl, inr,
  Bool-cases, ◌==◌, if◌then◌else◌, list_eq, list_eq_iff, get_elem?, set, get_elem?-set,
  get_elem?-set_self, get_elem?-set_ne, find, member, arith,
}
use mathlib.Core.Option.{some_inj}
use native.Mathlib.Decide.{ℕ_discrete}
use lincheck_cpp.Value.{Str, Payloads}
use lincheck_cpp.Opacity.History.{
  StmOpacityLocation, StmOpacityAccess, StmOpacityTransactionAttempt, StmOpacityTransactionOutcome,
  live, committed, aborted,
}
use lincheck_cpp.Opacity.Builder.{BuildState, tx_key}
use lincheck_cpp.Opacity.Builder.Table.{IsTable, LocationStep, Extends, is_known}

abbrev pub is_live : StmOpacityTransactionOutcome → Bool
is_live live = true
is_live committed = false
is_live aborted = false

module _ {P : Payloads} where
  abbrev pub attempt_key : StmOpacityTransactionAttempt P → Str
  attempt_key tx = tx_key tx.thread_id tx.transaction_id

  abbrev pub AllKnown : List (Str × StmOpacityLocation P) → List (StmOpacityAccess P) → Type 0
  AllKnown locations [] = Unit
  AllKnown locations (access ∷ accesses) =
      (is_known locations access.location_id ≡ true) × AllKnown locations accesses

  -- What holds of the i-th attempt: the index knows it, it has begun under a number, it is live
  -- exactly until it ends, with an outcome from then on, and the map has its locations.
  pub record IsAttempt (s : BuildState P) (i : ℕ) (tx : StmOpacityTransactionAttempt P)
      : Type 0 where
    pub indexed : find (attempt_key tx) s.tx_index_by_id ≡ some i
    pub begun : tx.has_begin ≡ true
    pub numbered : (tx.transaction_id == 0) ≡ false
    pub is_open : member (attempt_key tx) s.live_transactions ≡ not tx.has_end
    pub undecided : is_live tx.outcome ≡ not tx.has_end
    pub located : AllKnown s.locations tx.accesses

  abbrev pub IsIndexOf : BuildState P → Str → ℕ → Type 0
  IsIndexOf s key i =
      (tx : StmOpacityTransactionAttempt P) × (get_elem? s.transactions i ≡ some tx)
      × (attempt_key tx ≡ key)

  abbrev pub IsIndexed : BuildState P → Str → Type 0
  IsIndexed s key = (i : ℕ) × (find key s.tx_index_by_id ≡ some i)

  pub record IsConsistent (s : BuildState P) : Type 0 where
    pub table : IsTable s
    pub attempts :
        (i : ℕ) (tx : StmOpacityTransactionAttempt P)
        → get_elem? s.transactions i ≡ some tx
        → IsAttempt s i tx
    pub indices : (key : Str) (i : ℕ) → find key s.tx_index_by_id ≡ some i → IsIndexOf s key i
    pub lives : (key : Str) → member key s.live_transactions ≡ true → IsIndexed s key

  AllKnown-Extends :
      (old new : List (Str × StmOpacityLocation P)) (accesses : List (StmOpacityAccess P))
      → Extends old new
      → AllKnown old accesses
      → AllKnown new accesses
  AllKnown-Extends old new [] h k = tt
  AllKnown-Extends old new (a ∷ accesses) h k =
      (h a.location_id k.0, AllKnown-Extends old new accesses h k.1)

  pub AllKnown-snoc :
      (locations : List (Str × StmOpacityLocation P)) (accesses : List (StmOpacityAccess P))
      (access : StmOpacityAccess P)
      → AllKnown locations accesses
      → is_known locations access.location_id ≡ true
      → AllKnown locations (accesses ++ access ∷ [])
  AllKnown-snoc locations [] access h k = (k, tt)
  AllKnown-snoc locations (a ∷ accesses) access h k =
      (h.0, AllKnown-snoc locations accesses access h.1 k)

  pub step-IsConsistent : (s t : BuildState P) → IsConsistent s → LocationStep s t → IsConsistent t
  step-IsConsistent s t c a = record {
    table = a.table;
    attempts = λ i tx e.
        let old = c.attempts i tx (ap (λ txs. get_elem? txs i) (sym a.transactions) ∙ e) in
        record {
          indexed = ap (find (attempt_key tx)) a.indices ∙ old.indexed;
          begun = old.begun;
          numbered = old.numbered;
          is_open = ap (member (attempt_key tx)) a.live_ids ∙ old.is_open;
          undecided = old.undecided;
          located = AllKnown-Extends s.locations t.locations tx.accesses a.extends old.located;
        };
    indices = λ key i e.
        let old = c.indices key i (ap (find key) (sym a.indices) ∙ e) in
        (old.0, ap (λ txs. get_elem? txs i) a.transactions ∙ old.1, old.2);
    lives = λ key e.
        let old = c.lives key (ap (member key) (sym a.live_ids) ∙ e) in
        (old.0, ap (find key) a.indices ∙ old.1);
  }

  -- A change of the i-th attempt, with its entry among the live ones.
  abbrev pub replaced : BuildState P → ℕ → StmOpacityTransactionAttempt P → List Str → BuildState P
  replaced s i new live_ids = record s {
    transactions = set s.transactions i new;
    live_transactions = live_ids;
  }

  module _ (s : BuildState P) (i : ℕ) (tx new : StmOpacityTransactionAttempt P)
      (live_ids : List Str) (c : IsConsistent s) (at_i : get_elem? s.transactions i ≡ some tx)
      (same_key : attempt_key new ≡ attempt_key tx) (begins : new.has_begin ≡ true)
      (numbers : (new.transaction_id == 0) ≡ false)
      (decides : is_live new.outcome ≡ not new.has_end) (knows : AllKnown s.locations new.accesses)
      (lives : (key : Str)
        → member key live_ids ≡ (
            if list_eq (attempt_key tx) key
            then not new.has_end
            else member key s.live_transactions)) where
    indexed_at_i : find (attempt_key tx) s.tx_index_by_id ≡ some i
    indexed_at_i = (c.attempts i tx at_i).indexed

    new-IsAttempt : IsAttempt (replaced s i new live_ids) i new
    new-IsAttempt = record {
      indexed = ap (λ key. find key s.tx_index_by_id) same_key ∙ indexed_at_i;
      begun = begins;
      numbered = numbers;
      is_open = ground (
        arith,
        same_key,
        lives (attempt_key new),
        list_eq_iff (attempt_key tx) (attempt_key new),
      );
      undecided = decides;
      located = knows;
    }

    -- Another attempt has another key, since the index leads from a key to one place.
    other-IsAttempt :
        (j : ℕ) (ty : StmOpacityTransactionAttempt P)
        → i ≢ j
        → get_elem? s.transactions j ≡ some ty
        → IsAttempt (replaced s i new live_ids) j ty
    other-IsAttempt j ty ne e =
        let old = c.attempts j ty e in
        record {
          indexed = old.indexed;
          begun = old.begun;
          numbered = old.numbered;
          is_open = ground (
            arith,
            old.is_open,
            old.indexed,
            indexed_at_i,
            ne,
            lives (attempt_key ty),
            list_eq_iff (attempt_key tx) (attempt_key ty),
          );
          undecided = old.undecided;
          located = old.located;
        }

    replaced-attempts :
        (j : ℕ) (ty : StmOpacityTransactionAttempt P)
        → get_elem? (set s.transactions i new) j ≡ some ty
        → IsAttempt (replaced s i new live_ids) j ty
    replaced-attempts j ty e = elim (get_elem?-set s.transactions i j new ty e) [
      | inl h ↦
          subst (λ k. IsAttempt (replaced s i new live_ids) k ty) h.0
            (subst (IsAttempt (replaced s i new live_ids) i) (sym h.1) new-IsAttempt)
      | inr h ↦ other-IsAttempt j ty h.0 h.1
    ]

    replaced-indices :
        (key : Str) (j : ℕ)
        → find key s.tx_index_by_id ≡ some j
        → IsIndexOf (replaced s i new live_ids) key j
    replaced-indices key j e =
        let (ty, at_j, of_key) = c.indices key j e in
        elim (ℕ_discrete i j) [
          | yes same ↦ (
            new,
            subst (λ k. get_elem? (set s.transactions i new) k ≡ some new) same
                (get_elem?-set_self s.transactions i new at_i),
            same_key
                ∙ (ap attempt_key
                      (some_inj.0 (sym at_i ∙ (ap (get_elem? s.transactions) same ∙ at_j)))
                    ∙ of_key),
          )
          | no other ↦ (ty, get_elem?-set_ne s.transactions i j new other ∙ at_j, of_key)
        ]

    replaced-lives : (key : Str) → member key live_ids ≡ true → IsIndexed s key
    replaced-lives key e = elim (Bool-cases (list_eq (attempt_key tx) key)) [
      | inl same ↦ (
        i,
        subst (λ k. find k s.tx_index_by_id ≡ some i) ((list_eq_iff (attempt_key tx) key).0 same)
            indexed_at_i,
      )
      | inr different ↦ c.lives key (ground (arith, different, e, lives key))
    ]

    pub replaced-IsConsistent : IsConsistent (replaced s i new live_ids)
    replaced-IsConsistent = record {
      table = record {
        named = c.table.named;
        by_address = c.table.by_address;
        by_handle = c.table.by_handle;
      };
      attempts = replaced-attempts;
      indices = replaced-indices;
      lives = replaced-lives;
    }
