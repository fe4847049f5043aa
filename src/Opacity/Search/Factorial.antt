-- ===== src/Opacity/Search/Factorial.antt =====
-- include/lincheck/lincheck.hpp, `saturated_factorial`, against the factorial.
use lincheck_cpp.Prelude.{
  ℕ, zero, suc, ◌+◌, ◌-◌, ◌*◌, ◌/◌, ◌%◌, ◌^◌, ◌≤◌, ◌<◌, ◌≡◌, refl, ap, ◌∙◌, ltb, leb, if◌then◌else◌,
  Bool-cases, inl, inr, arith,
}
use lincheck_cpp.Opacity.Search.Verify.{max_size, factorial_loop, saturated_factorial}

pub factorial : ℕ → ℕ
factorial zero = 1
factorial (suc n) = suc n * factorial n

abbrev pub saturate : ℕ → ℕ
saturate n = if leb n max_size then n else max_size

factorial_pos : (n : ℕ) → 1 ≤ factorial n
unfolding factorial
factorial_pos zero = omega arith
factorial_pos (suc n) = let ih = factorial_pos n in grind arith

factorial-le-suc : (n : ℕ) → factorial n ≤ factorial (suc n)
unfolding factorial
factorial-le-suc n = let pos = factorial_pos n in grind arith

factorial_mono : (n k : ℕ) → factorial n ≤ factorial (n + k)
factorial_mono n zero =
    let same : factorial n ≡ factorial (n + 0) = ap factorial (omega arith) in omega arith
factorial_mono n (suc k) =
    let ih = factorial_mono n k in
    let grows = factorial-le-suc (n + k) in
    let same : factorial (suc (n + k)) ≡ factorial (n + suc k) = ap factorial (omega arith) in
    omega arith

over_quotient : (m i r : ℕ) → m / suc i < r → m < suc i * r
over_quotient m i r h = grind arith

under_quotient : (m i r : ℕ) → r ≤ m / suc i → suc i * r ≤ m
under_quotient m i r h = grind arith

factorial_loop_lem :
    (rounds j : ℕ)
    → factorial j ≤ max_size
    → factorial_loop rounds (suc j) (factorial j) ≡ saturate (factorial (j + rounds))
unfolding factorial_loop
factorial_loop_lem zero j h =
    let same : factorial j ≡ factorial (j + 0) = ap factorial (omega arith) in ground arith
factorial_loop_lem (suc rounds) j h = elim (Bool-cases (ltb (max_size / suc j) (factorial j))) [
  | inl e ↦
      let over : max_size < factorial (suc j) =
        over_factorial j (over_quotient max_size j (factorial j) (ground arith)) in
      let mono = factorial_mono (suc j) rounds in
      let same : factorial (suc j + rounds) ≡ factorial (j + suc rounds) =
        ap factorial (omega arith) in
      rw (e, factorial_loop) (ground arith)
  | inr e ↦
      let fits : factorial (suc j) ≤ max_size =
        fits_factorial j (under_quotient max_size j (factorial j) (ground arith)) in
      let next : factorial j * suc j % 2 ^ 64 ≡ factorial (suc j) = next_factorial j fits in
      let same : factorial (suc j + rounds) ≡ factorial (j + suc rounds) =
        ap factorial (omega arith) in
      rw (e, factorial_loop)
        (ap (factorial_loop rounds (suc (suc j))) next
          ∙ (factorial_loop_lem rounds (suc j) fits ∙ ap saturate same))
]
  where
    over_factorial : (i : ℕ) → max_size < suc i * factorial i → max_size < factorial (suc i)
    over_factorial i l = unfold factorial in l

    fits_factorial : (i : ℕ) → suc i * factorial i ≤ max_size → factorial (suc i) ≤ max_size
    fits_factorial i l = unfold factorial in l

    next_factorial :
        (i : ℕ) → factorial (suc i) ≤ max_size → factorial i * suc i % 2 ^ 64 ≡ factorial (suc i)
    next_factorial i l = unfold factorial in (grind arith)

-- `saturated_factorial` gives the factorial where it is a `std::size_t`, and the largest
-- `std::size_t` otherwise.
pub saturated_factorial_lem : (n : ℕ) → saturated_factorial n ≡ saturate (factorial n)
unfolding saturated_factorial factorial
saturated_factorial_lem zero = refl
saturated_factorial_lem (suc n) =
    let rounds : suc n - 1 ≡ n = omega arith in
    let sum : 1 + n ≡ suc n = omega arith in
    ap (λ r. factorial_loop r 2 1) rounds
    ∙ (factorial_loop_lem n 1 (omega arith) ∙ ap (λ m. saturate (factorial m)) sum)
