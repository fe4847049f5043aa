-- ===== src/Prelude/Ranges.antt =====
-- `range_from i n` is the list of indices that `for (k = i; k < i + n; ++k)` runs through.
use Prim.Native.Nat.{ℕ, zero, suc, ◌+◌, ◌≤◌, ◌<◌}
use mathlib.Core.Path.{◌≡◌}
use mathlib.Core.Logic.{◌⊎◌, inl, inr}
use mathlib.Core.List.{List, [], ◌∷◌}
use native.Mathlib.Omega.{arith}
use native.Mathlib.Decide.{dec_le}

abbrev pub range_from : ℕ → ℕ → List ℕ
range_from i zero = []
range_from i (suc n) = i ∷ range_from (suc i) n

abbrev pub In : ℕ → List ℕ → Type 0
In a [] = ⊥
In a (x ∷ xs) = (a ≡ x) ⊎ In a xs

pub In-range_from : (k i n : ℕ) → i ≤ k → k < i + n → In k (range_from i n)
In-range_from k i zero h l = absurd (omega arith)
In-range_from k i (suc n) h l = elim (dec_le k i) [
  | yes e ↦ inl (omega arith)
  | no e ↦ inr (In-range_from k (suc i) n (omega arith) (omega arith))
]

pub range_from_bounds : (k i n : ℕ) → In k (range_from i n) → (i ≤ k) × (k < i + n)
range_from_bounds k i zero h = absurd h
range_from_bounds k i (suc n) (inl e) = omega arith
range_from_bounds k i (suc n) (inr h) = omega (arith, range_from_bounds k (suc i) n h)
