-- ===== src/Prelude/Lists.antt =====
-- Lists measured and indexed by native numbers, under the library's names.
use Prim.Native.Nat.{ℕ, zero, suc, ◌+◌, ◌<◌}
use mathlib.Core.Path.{◌≡◌, refl, ap, sym, ◌∙◌}
use mathlib.Core.Logic.{◌≢◌, ◌⊎◌, inl, inr}
use mathlib.Core.List.{List, [], ◌∷◌, ◌++◌, map}
use mathlib.Core.Option.{Option, none, some, some_inj}
use native.Mathlib.Omega.{arith}

module _ {ℓ} {A : Type ℓ} where
  abbrev pub length : List A → ℕ
  length [] = 0
  length (x ∷ xs) = suc (length xs)

  abbrev pub get_elem? : List A → ℕ → Option A
  get_elem? [] i = none
  get_elem? (x ∷ xs) zero = some x
  get_elem? (x ∷ xs) (suc i) = get_elem? xs i

  abbrev pub get_or : List A → ℕ → A → A
  get_or [] i d = d
  get_or (x ∷ xs) zero d = x
  get_or (x ∷ xs) (suc i) d = get_or xs i d

  -- A write out of bounds changes nothing.
  abbrev pub set : List A → ℕ → A → List A
  set [] i v = []
  set (x ∷ xs) zero v = v ∷ xs
  set (x ∷ xs) (suc i) v = x ∷ set xs i v

  -- The number of elements of all rows together.
  abbrev pub total_length : List (List A) → ℕ
  total_length [] = 0
  total_length (xs ∷ xss) = length xs + total_length xss

  pub length-append : (xs ys : List A) → length (xs ++ ys) ≡ length xs + length ys
  length-append [] ys = omega arith
  length-append (x ∷ xs) ys = omega (arith, length-append xs ys)

  pub length-set : (xs : List A) (i : ℕ) (v : A) → length (set xs i v) ≡ length xs
  length-set [] i v = refl
  length-set (x ∷ xs) zero v = refl
  length-set (x ∷ xs) (suc i) v = ap suc (length-set xs i v)

  pub get_elem?-lt : (xs : List A) (i : ℕ) → i < length xs → (x : A) × (get_elem? xs i ≡ some x)
  get_elem?-lt [] i h = elim h [ ]
  get_elem?-lt (x ∷ xs) zero h = (x, refl)
  get_elem?-lt (x ∷ xs) (suc i) h = get_elem?-lt xs i (omega arith)

  pub lt_of_get_elem? : (xs : List A) (i : ℕ) {x : A} → get_elem? xs i ≡ some x → i < length xs
  lt_of_get_elem? [] i h = cc
  lt_of_get_elem? (x ∷ xs) zero h = omega arith
  lt_of_get_elem? (x ∷ xs) (suc i) h = omega (arith, lt_of_get_elem? xs i h)

  pub get_or-set_self :
      (xs : List A) (i : ℕ) (v d : A) → i < length xs → get_or (set xs i v) i d ≡ v
  get_or-set_self [] i v d h = elim h [ ]
  get_or-set_self (x ∷ xs) zero v d h = refl
  get_or-set_self (x ∷ xs) (suc i) v d h = get_or-set_self xs i v d (omega arith)

  pub get_or-set_ne :
      (xs : List A) (i j : ℕ) (v d : A) → i ≢ j → get_or (set xs i v) j d ≡ get_or xs j d
  get_or-set_ne [] i j v d h = refl
  get_or-set_ne (x ∷ xs) zero zero v d h = absurd (h refl)
  get_or-set_ne (x ∷ xs) zero (suc j) v d h = refl
  get_or-set_ne (x ∷ xs) (suc i) zero v d h = refl
  get_or-set_ne (x ∷ xs) (suc i) (suc j) v d h = get_or-set_ne xs i j v d (λ e. h (ap suc e))

  abbrev pub replicate : ℕ → A → List A
  replicate zero a = []
  replicate (suc n) a = a ∷ replicate n a

  pub length-replicate : (n : ℕ) (a : A) → length (replicate n a) ≡ n
  length-replicate zero a = refl
  length-replicate (suc n) a = ap suc (length-replicate n a)

  pub get_or-replicate : (n i : ℕ) (a : A) → get_or (replicate n a) i a ≡ a
  get_or-replicate zero i a = refl
  get_or-replicate (suc n) zero a = refl
  get_or-replicate (suc n) (suc i) a = get_or-replicate n i a

  -- What an index finds after a write, and after an element was appended.
  pub get_elem?-set :
      (xs : List A) (i j : ℕ) (v y : A)
      → get_elem? (set xs i v) j ≡ some y
      → ((i ≡ j) × (y ≡ v)) ⊎ ((i ≢ j) × (get_elem? xs j ≡ some y))
  get_elem?-set [] i j v y e = cc
  get_elem?-set (x ∷ xs) zero zero v y e = inl (refl, sym (some_inj.0 e))
  get_elem?-set (x ∷ xs) zero (suc j) v y e = inr (λ h. omega arith, e)
  get_elem?-set (x ∷ xs) (suc i) zero v y e = inr (λ h. omega arith, e)
  get_elem?-set (x ∷ xs) (suc i) (suc j) v y e = elim (get_elem?-set xs i j v y e) [
    | inl h ↦ inl (ap suc h.0, h.1)
    | inr h ↦ inr (λ q. h.0 (omega arith), h.1)
  ]

  pub get_elem?-set_self :
      (xs : List A) (i : ℕ) (v : A) {x : A}
      → get_elem? xs i ≡ some x
      → get_elem? (set xs i v) i ≡ some v
  get_elem?-set_self [] i v e = cc
  get_elem?-set_self (x ∷ xs) zero v e = refl
  get_elem?-set_self (x ∷ xs) (suc i) v e = get_elem?-set_self xs i v e

  pub get_elem?-set_ne :
      (xs : List A) (i j : ℕ) (v : A) → i ≢ j → get_elem? (set xs i v) j ≡ get_elem? xs j
  get_elem?-set_ne [] i j v h = refl
  get_elem?-set_ne (x ∷ xs) zero zero v h = absurd (h refl)
  get_elem?-set_ne (x ∷ xs) zero (suc j) v h = refl
  get_elem?-set_ne (x ∷ xs) (suc i) zero v h = refl
  get_elem?-set_ne (x ∷ xs) (suc i) (suc j) v h = get_elem?-set_ne xs i j v (λ e. h (ap suc e))

  pub get_elem?-snoc :
      (xs : List A) (x : A) (i : ℕ) (y : A)
      → get_elem? (xs ++ x ∷ []) i ≡ some y
      → (get_elem? xs i ≡ some y) ⊎ ((i ≡ length xs) × (y ≡ x))
  get_elem?-snoc [] x zero y e = inr (refl, sym (some_inj.0 e))
  get_elem?-snoc [] x (suc i) y e = cc
  get_elem?-snoc (z ∷ xs) x zero y e = inl e
  get_elem?-snoc (z ∷ xs) x (suc i) y e = elim (get_elem?-snoc xs x i y e) [
    | inl h ↦ inl h
    | inr h ↦ inr (ap suc h.0, h.1)
  ]

  pub get_elem?-append :
      (xs ys : List A) (i : ℕ) {y : A} → get_elem? xs i ≡ some y → get_elem? (xs ++ ys) i ≡ some y
  get_elem?-append [] ys i e = cc
  get_elem?-append (x ∷ xs) ys zero e = e
  get_elem?-append (x ∷ xs) ys (suc i) e = get_elem?-append xs ys i e

  pub get_elem?-snoc_last : (xs : List A) (x : A) → get_elem? (xs ++ x ∷ []) (length xs) ≡ some x
  get_elem?-snoc_last [] x = refl
  get_elem?-snoc_last (z ∷ xs) x = get_elem?-snoc_last xs x

  pub append_nil : (xs : List A) → xs ++ [] ≡ xs
  append_nil [] = refl
  append_nil (x ∷ xs) = ap (λ ys. x ∷ ys) (append_nil xs)

  pub snoc_append : (xs : List A) (y : A) (zs : List A) → (xs ++ y ∷ []) ++ zs ≡ xs ++ y ∷ zs
  snoc_append [] y zs = refl
  snoc_append (x ∷ xs) y zs = ap (λ ys. x ∷ ys) (snoc_append xs y zs)

  pub get_elem?-past : (a b : List A) (q : ℕ) → get_elem? (a ++ b) (length a + q) ≡ get_elem? b q
  get_elem?-past [] b q = ap (get_elem? b) (omega arith)
  get_elem?-past (x ∷ a) b q =
      let next : length (x ∷ a) + q ≡ suc (length a + q) = omega arith in
      ap (get_elem? (x ∷ a ++ b)) next ∙ get_elem?-past a b q

  pub get_elem?-append_cases :
      (a b : List A) (p : ℕ) {x : A}
      → get_elem? (a ++ b) p ≡ some x
      → (get_elem? a p ≡ some x) ⊎ (q : ℕ) × (p ≡ length a + q) × (get_elem? b q ≡ some x)
  get_elem?-append_cases [] b p e = inr (p, omega arith, e)
  get_elem?-append_cases (x ∷ a) b zero e = inl e
  get_elem?-append_cases (x ∷ a) b (suc p) e = elim (get_elem?-append_cases a b p e) [
    | inl f ↦ inl f
    | inr (q, s, f) ↦ inr (q, omega (arith, s), f)
  ]

  pub get_elem?-before :
      (a b : List A) (q : ℕ) {t : A}
      → q < length a
      → get_elem? (a ++ b) q ≡ some t
      → get_elem? a q ≡ some t
  get_elem?-before [] b q l e = absurd (omega arith)
  get_elem?-before (j ∷ a) b zero l e = e
  get_elem?-before (j ∷ a) b (suc q) l e = get_elem?-before a b q (omega arith) e

module _ {ℓ κ} {A : Type ℓ} {B : Type κ} where
  pub length-map : (f : A → B) (xs : List A) → length (map f xs) ≡ length xs
  length-map f [] = refl
  length-map f (x ∷ xs) = ap suc (length-map f xs)

  pub get_elem?-map :
      (f : A → B) (xs : List A) (i : ℕ) {x : A}
      → get_elem? xs i ≡ some x
      → get_elem? (map f xs) i ≡ some (f x)
  get_elem?-map f [] i e = cc
  get_elem?-map f (x ∷ xs) zero e = ap some (ap f (some_inj.0 e))
  get_elem?-map f (x ∷ xs) (suc i) e = get_elem?-map f xs i e

  pub get_elem?-map→ :
      (f : A → B) (xs : List A) (i : ℕ) {y : B}
      → get_elem? (map f xs) i ≡ some y
      → (x : A) × (get_elem? xs i ≡ some x) × (f x ≡ y)
  get_elem?-map→ f [] i e = cc
  get_elem?-map→ f (x ∷ xs) zero e = (x, refl, some_inj.0 e)
  get_elem?-map→ f (x ∷ xs) (suc i) e = get_elem?-map→ f xs i e
