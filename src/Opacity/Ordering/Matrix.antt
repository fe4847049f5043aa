-- ===== src/Opacity/Ordering/Matrix.antt =====
-- Square matrices of flags, as lists of rows.
use lincheck_cpp.Prelude.{
  ℕ, zero, suc, ◌≤◌, ◌<◌, ◌≡◌, refl, subst, ap, ◌∙◌, Bool, true, false, List, [], ◌∷◌, ◌⊎◌, inl,
  inr, length, get_or, set, length-set, get_or-set_self, get_or-set_ne, arith,
}
use native.Mathlib.Decide.{ℕ_discrete, dec_lt}
use lincheck_cpp.Opacity.Ordering.{at, set_at}

pub record IsSquare (n : ℕ) (m : List (List Bool)) : Type 0 where
  pub rows : length m ≡ n
  pub columns : (i : ℕ) → i < n → length (get_or m i []) ≡ n

-- Past the end of a list `get_or` gives the default.
pub get_or_past : {A : Type 0} (xs : List A) (i : ℕ) (d : A) → length xs ≤ i → get_or xs i d ≡ d
get_or_past [] i d h = refl
get_or_past (x ∷ xs) zero d h = absurd (omega arith)
get_or_past (x ∷ xs) (suc i) d h = get_or_past xs i d (omega arith)

-- What is set lies inside.
pub at_bounds :
    (n : ℕ) (m : List (List Bool)) → IsSquare n m → (i j : ℕ) → at m i j ≡ true → (i < n) × (j < n)
at_bounds n m h i j e = elim (dec_lt i n) [
  | no out ↦
      let empty = get_or_past m i [] (omega (arith, h.rows)) in
      let f = ap (λ (r : List Bool). get_or r j false) empty in cc
  | yes l ↦ elim (dec_lt j n) [
    | no out ↦ let f = get_or_past (get_or m i []) j false (omega (arith, h.columns i l)) in cc
    | yes k ↦ (l, k)
  ]
]

pub set_at-IsSquare :
    (n : ℕ) (m : List (List Bool)) → IsSquare n m → (b a : ℕ) → IsSquare n (set_at m b a)
set_at-IsSquare n m h b a = record {
  rows = length-set m b (set (get_or m b []) a true) ∙ h.rows;
  columns = λ i l. elim (ℕ_discrete b i) [
    | yes e ↦
        subst (λ i. length (get_or (set_at m b a) i []) ≡ n) e
          (ap length (get_or-set_self m b (set (get_or m b []) a true) [] (omega (arith, h.rows)))
            ∙ (length-set (get_or m b []) a true ∙ h.columns b (omega arith)))
    | no ne ↦ ap length (get_or-set_ne m b i (set (get_or m b []) a true) [] ne) ∙ h.columns i l
  ];
}

-- A new entry is set, and the others are what they were.
pub at-set_at_self :
    (n : ℕ) (m : List (List Bool))
    → IsSquare n m
    → (b a : ℕ) → b < n
    → a < n
    → at (set_at m b a) b a ≡ true
at-set_at_self n m h b a lb la =
    ap (λ (r : List Bool). get_or r a false)
      (get_or-set_self m b (set (get_or m b []) a true) [] (omega (arith, h.rows)))
    ∙ get_or-set_self (get_or m b []) a true false (omega (arith, h.columns b lb))

flag-set_mono :
    (r : List Bool) (a j : ℕ) → get_or r j false ≡ true → get_or (set r a true) j false ≡ true
flag-set_mono [] a j e = e
flag-set_mono (x ∷ r) zero zero e = refl
flag-set_mono (x ∷ r) zero (suc j) e = e
flag-set_mono (x ∷ r) (suc a) zero e = e
flag-set_mono (x ∷ r) (suc a) (suc j) e = flag-set_mono r a j e

flag-set_cases :
    (r : List Bool) (a j : ℕ)
    → get_or (set r a true) j false ≡ true
    → (get_or r j false ≡ true) ⊎ (j ≡ a)
flag-set_cases [] a j e = inl e
flag-set_cases (x ∷ r) zero zero e = inr refl
flag-set_cases (x ∷ r) zero (suc j) e = inl e
flag-set_cases (x ∷ r) (suc a) zero e = inl e
flag-set_cases (x ∷ r) (suc a) (suc j) e = elim (flag-set_cases r a j e) [
  | inl f ↦ inl f
  | inr f ↦ inr (ap suc f)
]

pub at-set_at_mono :
    (m : List (List Bool)) (b a i j : ℕ) → at m i j ≡ true → at (set_at m b a) i j ≡ true
at-set_at_mono [] b a i j e = e
at-set_at_mono (r ∷ m) zero a zero j e = flag-set_mono r a j e
at-set_at_mono (r ∷ m) zero a (suc i) j e = e
at-set_at_mono (r ∷ m) (suc b) a zero j e = e
at-set_at_mono (r ∷ m) (suc b) a (suc i) j e = at-set_at_mono m b a i j e

pub at-set_at_cases :
    (m : List (List Bool)) (b a i j : ℕ)
    → at (set_at m b a) i j ≡ true
    → (at m i j ≡ true) ⊎ ((i ≡ b) × (j ≡ a))
at-set_at_cases [] b a i j e = inl e
at-set_at_cases (r ∷ m) zero a zero j e = elim (flag-set_cases r a j e) [
  | inl f ↦ inl f
  | inr f ↦ inr (refl, f)
]
at-set_at_cases (r ∷ m) zero a (suc i) j e = inl e
at-set_at_cases (r ∷ m) (suc b) a zero j e = inl e
at-set_at_cases (r ∷ m) (suc b) a (suc i) j e = elim (at-set_at_cases m b a i j e) [
  | inl f ↦ inl f
  | inr (f, g) ↦ inr (ap suc f, g)
]
