-- ===== src/Verifier/Remaining.antt =====
-- The number of operations that are not yet in the order, on which the fuel rests.
use lincheck_cpp.Prelude.{
  ℕ, zero, suc, ◌+◌, ◌-◌, ◌<◌, ◌≡◌, refl, List, [], ◌∷◌, length, get_or, set, replicate,
  total_length, arith,
}

module _ {ℓ} {A : Type ℓ} where
  abbrev pub remaining : List (List A) → List ℕ → ℕ
  remaining [] ps = 0
  remaining (xs ∷ xss) [] = length xs + remaining xss []
  remaining (xs ∷ xss) (p ∷ ps) = (length xs - p) + remaining xss ps

  pub remaining-advance :
      (xss : List (List A)) (ps : List ℕ) (t : ℕ)
      → length ps ≡ length xss
      → get_or ps t 0 < length (get_or xss t [])
      → suc (remaining xss (set ps t (suc (get_or ps t 0)))) ≡ remaining xss ps
  remaining-advance [] ps t same h = absurd (omega arith)
  remaining-advance (xs ∷ xss) [] t same h = absurd (omega arith)
  remaining-advance (xs ∷ xss) (p ∷ ps) zero same h = omega arith
  remaining-advance (xs ∷ xss) (p ∷ ps) (suc t) same h =
      omega (arith, remaining-advance xss ps t (omega arith) h)

  pub remaining-start :
      (xss : List (List A)) → remaining xss (replicate (length xss) 0) ≡ total_length xss
  remaining-start [] = refl
  remaining-start (xs ∷ xss) = omega (arith, remaining-start xss)

  pub row-lt : (xss : List (List A)) (t : ℕ) → 0 < length (get_or xss t []) → t < length xss
  row-lt [] t h = absurd (omega arith)
  row-lt (xs ∷ xss) zero h = omega arith
  row-lt (xs ∷ xss) (suc t) h = omega (arith, row-lt xss t h)
