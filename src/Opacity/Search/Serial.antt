-- ===== src/Opacity/Search/Serial.antt =====
-- Serial runs read from the front: the memory that an order leaves, and the legality of its reads.
use mathlib.Core.Path.{fun_ext}
use lincheck_cpp.Prelude.{
  ℕ, ◌≡◌, refl, sym, subst, ap, ◌∙◌, Option, none, some, List, [], ◌∷◌, ◌++◌, map, get_elem?,
}
use lincheck_cpp.Value.{Payloads}
use lincheck_cpp.Opacity.History.{StmOpacityTransactionAttempt, StmOpacityState, find_value}
use lincheck_cpp.Opacity.Reads.{Memory, IsLegal, run_memory}
use lincheck_cpp.Opacity.Search.Prefix.{Run, begins, continues}

module _ {P : Payloads} where
  abbrev pub memory_of : StmOpacityState P → Memory P
  memory_of state k = find_value k state

module _ {P : Payloads} (committed : List (StmOpacityTransactionAttempt P)) where
  abbrev pub step_by : Memory P → Option (StmOpacityTransactionAttempt P) → Memory P
  step_by m none = m
  step_by m (some tx) = run_memory m tx.accesses

  -- The memory that a transaction leaves, and an order.
  abbrev pub step_of : Memory P → ℕ → Memory P
  step_of m i = step_by m (get_elem? committed i)

  abbrev pub memory_after : Memory P → List ℕ → Memory P
  memory_after m [] = m
  memory_after m (i ∷ order) = memory_after (step_of m i) order

  -- The memories of all prefixes.
  abbrev pub memories : Memory P → List ℕ → List (Memory P)
  memories m [] = m ∷ []
  memories m (i ∷ order) = m ∷ memories (step_of m i) order

  abbrev pub LegalAt : Memory P → Option (StmOpacityTransactionAttempt P) → Type 0
  LegalAt m none = ⊥
  LegalAt m (some tx) = IsLegal m tx.accesses

  -- All transactions of the order are there, and read legally.
  abbrev pub Runs : Memory P → List ℕ → Type 0
  Runs m [] = Unit
  Runs m (i ∷ order) = LegalAt m (get_elem? committed i) × Runs (step_of m i) order

  pub memory_after-append :
      (m : Memory P) (a b : List ℕ) → memory_after m (a ++ b) ≡ memory_after (memory_after m a) b
  memory_after-append m [] b = refl
  memory_after-append m (i ∷ a) b = memory_after-append (step_of m i) a b

  pub Runs-append→ :
      (m : Memory P) (a b : List ℕ) → Runs m (a ++ b) → Runs m a × Runs (memory_after m a) b
  Runs-append→ m [] b h = (tt, h)
  Runs-append→ m (i ∷ a) b (l, h) = let (x, y) = Runs-append→ (step_of m i) a b h in ((l, x), y)

  pub Runs-append← :
      (m : Memory P) (a b : List ℕ) → Runs m a → Runs (memory_after m a) b → Runs m (a ++ b)
  Runs-append← m [] b h k = k
  Runs-append← m (i ∷ a) b (l, h) k = (l, Runs-append← (step_of m i) a b h k)

  memories-snoc :
      (m : Memory P) (order : List ℕ) (i : ℕ)
      → memories m (order ++ i ∷ []) ≡ memories m order ++ memory_after m (order ++ i ∷ []) ∷ []
  memories-snoc m [] i = refl
  memories-snoc m (j ∷ order) i = ap (λ ms. m ∷ ms) (memories-snoc (step_of m j) order i)

  map-snoc :
      (states : List (StmOpacityState P)) (s : StmOpacityState P)
      → map memory_of (states ++ s ∷ []) ≡ map memory_of states ++ memory_of s ∷ []
  map-snoc [] s = refl
  map-snoc (t ∷ states) s = ap (λ ms. memory_of t ∷ ms) (map-snoc states s)

  -- What a run says from the front.
  pub record Forward (m : Memory P) (order : List ℕ) (states : List (StmOpacityState P))
      (state : StmOpacityState P) : Type 0 where
    pub runs : Runs m order
    pub final : memory_of state ≡ memory_after m order
    pub each : map memory_of states ≡ memories m order

  pub Run-Forward :
      (initial : StmOpacityState P) (order : List ℕ) (states : List (StmOpacityState P))
      (state : StmOpacityState P)
      → Run committed initial order states state
      → Forward (memory_of initial) order states state
  Run-Forward initial order states state begins = record { runs = tt; final = refl; each = refl }
  Run-Forward initial order states state
        (continues before states' before_state after i tx run e legal values) =
      let h = Run-Forward initial before states' before_state run in
      let stepped : step_of (memory_of before_state) i
          ≡ run_memory (memory_of before_state) tx.accesses =
        ap (step_by (memory_of before_state)) e in
      let last : memory_of after ≡ memory_after (memory_of initial) (before ++ i ∷ []) =
        fun_ext values
        ∙ sym stepped
        ∙ ap (λ m. step_of m i) h.final
        ∙ sym (memory_after-append (memory_of initial) before (i ∷ [])) in
      record {
        runs = Runs-append← (memory_of initial) before (i ∷ []) h.runs (
          subst (λ m. LegalAt m (get_elem? committed i)) h.final
              (subst (LegalAt (memory_of before_state)) (sym e) legal),
          tt,
        );
        final = last;
        each =
            map-snoc states' after
            ∙ ap (λ ms. ms ++ memory_of after ∷ []) h.each
            ∙ ap (λ m. memories (memory_of initial) before ++ m ∷ []) last
            ∙ sym (memories-snoc (memory_of initial) before i);
      }
