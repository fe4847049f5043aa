-- ===== src/Prelude/Flags.antt =====
-- Lists of flags.
use Prim.Native.Nat.{ℕ, zero, suc, ◌≤◌, ◌<◌}
use mathlib.Core.Path.{◌≡◌, refl}
use mathlib.Core.Bool.{Bool, true, false}
use mathlib.Core.List.{List, [], ◌∷◌}
use native.Mathlib.Omega.{arith}
use lincheck_cpp.Prelude.Lists.{length, get_or, set}

-- The number of flags that are not set.
abbrev pub open_count : List Bool → ℕ
open_count [] = 0
open_count (true ∷ bs) = open_count bs
open_count (false ∷ bs) = suc (open_count bs)

pub open_count-set :
    (bs : List Bool) (i : ℕ)
    → i < length bs
    → get_or bs i false ≡ false
    → suc (open_count (set bs i true)) ≡ open_count bs
open_count-set [] i h u = elim h [ ]
open_count-set (true ∷ bs) zero h u = cc
open_count-set (false ∷ bs) zero h u = refl
open_count-set (true ∷ bs) (suc i) h u = open_count-set bs i (omega arith) u
open_count-set (false ∷ bs) (suc i) h u = omega (arith, open_count-set bs i (omega arith) u)

pub open_count-le : (bs : List Bool) → open_count bs ≤ length bs
open_count-le [] = omega arith
open_count-le (true ∷ bs) = omega (arith, open_count-le bs)
open_count-le (false ∷ bs) = omega (arith, open_count-le bs)
