-- ===== src/Value/Bijective.antt =====
-- The step of FNV-1a, `hash ^= byte; hash *= prime`, on 64 bits: what it keeps of the hash and of the
-- byte.
use Prim.Native.Nat.{bit_xor, bit_xor-bitwise, digits, differ}
use lincheck_cpp.Prelude.{
  ℕ, zero, suc, ◌+◌, ◌*◌, ◌/◌, ◌%◌, ◌≤◌, ◌<◌, ◌≡◌, refl, sym, ap, ◌∙◌, arith,
}

-- The prime is odd, so that a multiplication by it loses nothing.
pub times_prime-injective :
    (a b : ℕ)
    → a < 18446744073709551616
    → b < 18446744073709551616
    → (a * 1099511628211) % 18446744073709551616 ≡ (b * 1099511628211) % 18446744073709551616
    → a ≡ b
times_prime-injective a b la lb e = omega arith

differ-injective_left : (p q r : ℕ) → p < 2 → q < 2 → r < 2 → differ p r ≡ differ q r → p ≡ q
differ-injective_left zero zero r l m n e = refl
differ-injective_left (suc zero) (suc zero) r l m n e = refl
differ-injective_left zero (suc zero) zero l m n e = e
differ-injective_left zero (suc zero) (suc zero) l m n e = absurd (omega arith)
differ-injective_left (suc zero) zero zero l m n e = e
differ-injective_left (suc zero) zero (suc zero) l m n e = absurd (omega arith)
differ-injective_left p q r l m n e = absurd (omega arith)

differ-injective_right : (p q r : ℕ) → p < 2 → q < 2 → r < 2 → differ p q ≡ differ p r → q ≡ r
differ-injective_right zero q r l m n e = e
differ-injective_right (suc zero) zero zero l m n e = refl
differ-injective_right (suc zero) (suc zero) (suc zero) l m n e = refl
differ-injective_right (suc zero) zero (suc zero) l m n e = absurd (omega arith)
differ-injective_right (suc zero) (suc zero) zero l m n e = absurd (omega arith)
differ-injective_right p q r l m n e = absurd (omega arith)

differ-lt : (p q : ℕ) → p < 2 → q < 2 → differ p q < 2
differ-lt zero q l m = m
differ-lt (suc zero) zero l m = omega arith
differ-lt (suc zero) (suc zero) l m = omega arith
differ-lt p q l m = absurd (omega arith)

-- The digits of the exclusive or, on a count of digits to go.
abbrev xor_digits : ℕ → ℕ → ℕ → ℕ
xor_digits = digits (λ b. b) differ

xor_digits-zero : (n b : ℕ) → xor_digits n 0 b ≡ b
xor_digits-zero zero b = refl
xor_digits-zero (suc n) b = refl

xor_digits-step :
    (n a b : ℕ) → xor_digits (suc n) a b ≡ xor_digits n (a / 2) (b / 2) * 2 + differ (a % 2) (b % 2)
xor_digits-step n zero b = let half = xor_digits-zero n (b / 2) in omega arith
xor_digits-step n (suc a) b = refl

xor_digits-enough : (n m a b : ℕ) → a ≤ n → a ≤ m → xor_digits n a b ≡ xor_digits m a b
xor_digits-enough zero m zero b l k = sym (xor_digits-zero m b)
xor_digits-enough zero m (suc a) b l k = absurd (omega arith)
xor_digits-enough (suc n) zero zero b l k = refl
xor_digits-enough (suc n) zero (suc a) b l k = absurd (omega arith)
xor_digits-enough (suc n) (suc m) a b l k =
    xor_digits-step n a b
    ∙ ap (λ x. x * 2 + differ (a % 2) (b % 2))
        (xor_digits-enough n m (a / 2) (b / 2) (omega arith) (omega arith))
    ∙ sym (xor_digits-step m a b)

xor_digits-injective_left :
    (n a c b : ℕ) → a ≤ n → c ≤ n → xor_digits n a b ≡ xor_digits n c b → a ≡ c
xor_digits-injective_left zero a c b l k e = omega arith
xor_digits-injective_left (suc n) a c b l k e =
    let steps = sym (xor_digits-step n a b) ∙ e ∙ xor_digits-step n c b in
    let d = differ-lt (a % 2) (b % 2) (omega arith) (omega arith) in
    let d' = differ-lt (c % 2) (b % 2) (omega arith) (omega arith) in
    let half =
      xor_digits-injective_left n (a / 2) (c / 2) (b / 2) (omega arith) (omega arith)
        (omega arith) in
    let bit =
      differ-injective_left (a % 2) (c % 2) (b % 2) (omega arith) (omega arith) (omega arith)
        (omega arith) in
    omega arith

xor_digits-injective_right : (n a b c : ℕ) → xor_digits n a b ≡ xor_digits n a c → b ≡ c
xor_digits-injective_right zero a b c e = e
xor_digits-injective_right (suc n) a b c e =
    let steps = sym (xor_digits-step n a b) ∙ e ∙ xor_digits-step n a c in
    let d = differ-lt (a % 2) (b % 2) (omega arith) (omega arith) in
    let d' = differ-lt (a % 2) (c % 2) (omega arith) (omega arith) in
    let half = xor_digits-injective_right n (a / 2) (b / 2) (c / 2) (omega arith) in
    let bit =
      differ-injective_right (a % 2) (b % 2) (c % 2) (omega arith) (omega arith) (omega arith)
        (omega arith) in
    omega arith

abbrev two_to : ℕ → ℕ
two_to zero = 1
two_to (suc k) = two_to k * 2

xor_digits-lt : (k n a b : ℕ) → a ≤ n → a < two_to k → b < two_to k → xor_digits n a b < two_to k
xor_digits-lt zero zero a b l m o = o
xor_digits-lt zero (suc n) zero b l m o = o
xor_digits-lt zero (suc n) (suc a) b l m o = absurd (omega arith)
xor_digits-lt (suc k) zero a b l m o = o
xor_digits-lt (suc k) (suc n) a b l m o =
    let half = xor_digits-lt k n (a / 2) (b / 2) (omega arith) (omega arith) (omega arith) in
    let d = differ-lt (a % 2) (b % 2) (omega arith) (omega arith) in
    let step = xor_digits-step n a b in omega arith

bit_xor_lem : (a b : ℕ) → bit_xor a b ≡ xor_digits a a b
bit_xor_lem a b = λ i. bit_xor-bitwise a b i

pub bit_xor-lt :
    (a b : ℕ)
    → a < 18446744073709551616
    → b < 18446744073709551616
    → bit_xor a b < 18446744073709551616
bit_xor-lt a b l m =
    let x = xor_digits-lt 64 a a b (omega arith) l m in omega (arith, bit_xor_lem a b)

pub bit_xor-injective_left : (a c b : ℕ) → bit_xor a b ≡ bit_xor c b → a ≡ c
bit_xor-injective_left a c b e =
    xor_digits-injective_left (a + c) a c b (omega arith) (omega arith) (
      xor_digits-enough (a + c) a a b (omega arith) (omega arith)
      ∙ sym (bit_xor_lem a b)
      ∙ e
      ∙ bit_xor_lem c b
      ∙ xor_digits-enough c (a + c) c b (omega arith) (omega arith))

pub bit_xor-injective_right : (a b c : ℕ) → bit_xor a b ≡ bit_xor a c → b ≡ c
bit_xor-injective_right a b c e =
    xor_digits-injective_right a a b c (sym (bit_xor_lem a b) ∙ e ∙ bit_xor_lem a c)
