-- ===== src/Prelude/Digits.antt =====
-- Decimals read back: the number of a text of digits, and where such a text ends.
use Prim.Native.Nat.{ℕ, zero, suc, ◌+◌, ◌-◌, ◌*◌, ◌/◌, ◌%◌, ◌<◌}
use mathlib.Core.Path.{◌≡◌, refl, ap, sym, ◌∙◌}
use mathlib.Core.Logic.{inl, inr}
use mathlib.Core.List.{List, [], ◌∷◌, ◌++◌}
use native.Mathlib.Omega.{arith}
use lincheck_cpp.Prelude.Tests.{ltb, Bool-cases}
use lincheck_cpp.Prelude.Decimal.{digits, to_string}

abbrev read_digits : ℕ → List ℕ → ℕ
read_digits n [] = n
read_digits n (c ∷ cs) = read_digits (10 * n + (c - b'0')) cs

read_digits-digits :
    (fuel n : ℕ) (out : List ℕ) → n < fuel → read_digits 0 (digits fuel n out) ≡ read_digits n out
unfolding digits
read_digits-digits zero n out l = absurd (omega arith)
read_digits-digits (suc fuel) n out l = elim (Bool-cases (ltb n 10)) [
  | inl e ↦ rw (e, read_digits) (ap (λ m. read_digits m out) (omega arith))
  | inr e ↦
      let big : 10 < suc n = ground (arith, e) in
      rw (e, read_digits)
        (read_digits-digits fuel (n / 10) ((b'0' + n % 10) ∷ out) (omega arith)
          ∙ ap (λ m. read_digits m out) (omega arith))
]

pub to_string-injective : (m n : ℕ) → to_string m ≡ to_string n → m ≡ n
unfolding to_string
to_string-injective m n e =
    sym (read_digits-digits (suc m) m [] (omega arith))
    ∙ ap (read_digits 0) e
    ∙ read_digits-digits (suc n) n [] (omega arith)

abbrev AreDigits : List ℕ → Type 0
AreDigits [] = Unit
AreDigits (c ∷ cs) = (c < b':') × AreDigits cs

digits-AreDigits : (fuel n : ℕ) (out : List ℕ) → AreDigits out → AreDigits (digits fuel n out)
unfolding digits
digits-AreDigits zero n out h = h
digits-AreDigits (suc fuel) n out h = elim (Bool-cases (ltb n 10)) [
  | inl e ↦ let small : n < 10 = ground (arith, e) in rw (e, AreDigits) (omega arith, h)
  | inr e ↦
      rw (e, AreDigits) (digits-AreDigits fuel (n / 10) ((b'0' + n % 10) ∷ out) (omega arith, h))
]

split_at_colon :
    (xs ys r s : List ℕ)
    → AreDigits xs
    → AreDigits ys
    → xs ++ (b':' ∷ r) ≡ ys ++ (b':' ∷ s)
    → (xs ≡ ys) × (r ≡ s)
split_at_colon [] [] r s h k e = (refl, cc)
split_at_colon [] (y ∷ ys) r s h k e = let same : b':' ≡ y = cc in absurd (omega (arith, k.0))
split_at_colon (x ∷ xs) [] r s h k e = let same : x ≡ b':' = cc in absurd (omega (arith, h.0))
split_at_colon (x ∷ xs) (y ∷ ys) r s h k e =
    let rest : xs ++ (b':' ∷ r) ≡ ys ++ (b':' ∷ s) = cc in
    let (same, tail) = split_at_colon xs ys r s h.1 k.1 rest in (cc, tail)

-- The number in front of a colon, and what follows it, can be read off a text.
pub to_string-split :
    (m n : ℕ) (r s : List ℕ)
    → to_string m ++ (b':' ∷ r) ≡ to_string n ++ (b':' ∷ s)
    → (m ≡ n) × (r ≡ s)
unfolding to_string
to_string-split m n r s e =
    let (same, tail) =
      split_at_colon (to_string m) (to_string n) r s (digits-AreDigits (suc m) m [] tt)
        (digits-AreDigits (suc n) n [] tt) e in
    (to_string-injective m n same, tail)
