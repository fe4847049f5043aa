-- ===== src/Opacity/Search/Places.antt =====
-- The places of an order: an order of all indices below a number, each once, has a place for each.
use native.Mathlib.Decide.{ℕ_discrete}
use lincheck_cpp.Prelude.{
  ℕ, zero, suc, ◌≤◌, ◌<◌, ◌≡◌, ◌≢◌, refl, sym, subst, ap, ◌∙◌, ◌==◌, ==_iff, ◌⊎◌, if◌then◌else◌,
  some, List, [], ◌∷◌, ◌++◌, inl, inr, Bool-cases, length, get_elem?, In, In-range_from, range_from,
  arith,
}
use mathlib.Core.Option.{some_inj}

-- No index stands at two places.
abbrev pub AreOnce : List ℕ → Type 0
AreOnce order = (p q i : ℕ) → get_elem? order p ≡ some i → get_elem? order q ≡ some i → p ≡ q

-- The first place of an index.
abbrev pub place_in : List ℕ → ℕ → ℕ
place_in [] i = 0
place_in (j ∷ order) i = if j == i then 0 else suc (place_in order i)

get_elem?-place_in :
    (order : List ℕ) (p i : ℕ)
    → get_elem? order p ≡ some i
    → get_elem? order (place_in order i) ≡ some i
get_elem?-place_in [] p i e = cc
get_elem?-place_in (j ∷ order) zero i e = let y = (==_iff j i).1 (some_inj.0 e) in rw y e
get_elem?-place_in (j ∷ order) (suc p) i e = elim (Bool-cases (j == i)) [
  | inl y ↦ rw y (ap some ((==_iff j i).0 y))
  | inr n ↦ rw n (get_elem?-place_in order p i e)
]

pub place_in_lem :
    (order : List ℕ) (p i : ℕ) → AreOnce order → get_elem? order p ≡ some i → place_in order i ≡ p
place_in_lem order p i once e = once (place_in order i) p i (get_elem?-place_in order p i e) e

In-get_elem? : (i : ℕ) (xs : List ℕ) → In i xs → (p : ℕ) × (get_elem? xs p ≡ some i)
In-get_elem? i [] h = absurd h
In-get_elem? i (x ∷ xs) (inl e) = (0, ap some (sym e))
In-get_elem? i (x ∷ xs) (inr h) = let (p, e) = In-get_elem? i xs h in (suc p, e)

abbrev HasNoDuplicates : List ℕ → Type 0
HasNoDuplicates [] = Unit
HasNoDuplicates (x ∷ xs) = (In x xs → ⊥) × HasNoDuplicates xs

abbrev remove : ℕ → List ℕ → List ℕ
remove n [] = []
remove n (x ∷ xs) = if x == n then xs else x ∷ remove n xs

In-remove_ne : (n y : ℕ) (xs : List ℕ) → In y xs → y ≢ n → In y (remove n xs)
In-remove_ne n y [] h ne = h
In-remove_ne n y (x ∷ xs) (inl e) ne =
    let other : x ≢ n = λ f. ne (e ∙ f) in ground (arith, other, e, ==_iff x n)
In-remove_ne n y (x ∷ xs) (inr h) ne =
    let rest = In-remove_ne n y xs h ne in ground (arith, rest, h)

length-remove : (n : ℕ) (xs : List ℕ) → In n xs → length xs ≡ suc (length (remove n xs))
length-remove n [] h = absurd h
length-remove n (x ∷ xs) (inl e) = ground (arith, ==_iff x n, e)
length-remove n (x ∷ xs) (inr h) = let rest = length-remove n xs h in ground (arith, rest)

-- Different numbers that all stand in another list are at most as many.
length-le :
    (xs ys : List ℕ) → HasNoDuplicates xs → ((x : ℕ) → In x xs → In x ys) → length xs ≤ length ys
length-le [] ys h sub = omega arith
length-le (x ∷ xs) ys (new, h) sub =
    let rest =
      length-le xs (remove x ys) h
        (λ y i. In-remove_ne x y ys (sub y (inr i)) (λ e. new (subst (λ z. In z xs) e i))) in
    omega (arith, rest, length-remove x ys (sub x (inl refl)))

AreOnce-HasNoDuplicates : (xs : List ℕ) → AreOnce xs → HasNoDuplicates xs
AreOnce-HasNoDuplicates [] once = tt
AreOnce-HasNoDuplicates (x ∷ xs) once = (
  λ i. let (p, e) = In-get_elem? x xs i in let no = once 0 (suc p) x refl e in omega arith,
  AreOnce-HasNoDuplicates xs (λ p q i e f. let s = once (suc p) (suc q) i e f in omega arith),
)

In-cases : (i : ℕ) (xs : List ℕ) → In i xs ⊎ (In i xs → ⊥)
In-cases i [] = inr (λ h. h)
In-cases i (x ∷ xs) = elim (ℕ_discrete i x) [
  | yes e ↦ inl (inl e)
  | no n ↦ elim (In-cases i xs) [
    | inl h ↦ inl (inr h)
    | inr h ↦ inr (elim [ inl e ↦ n e | inr j ↦ h j ])
  ]
]

get_elem?-In : (xs : List ℕ) (p i : ℕ) → get_elem? xs p ≡ some i → In i xs
get_elem?-In [] p i e = cc
get_elem?-In (x ∷ xs) zero i e = inl (sym (some_inj.0 e))
get_elem?-In (x ∷ xs) (suc p) i e = inr (get_elem?-In xs p i e)

length-range_from : (i n : ℕ) → length (range_from i n) ≡ n
length-range_from i zero = refl
length-range_from i (suc n) = ap suc (length-range_from (suc i) n)

-- An order whose indices all stand in another one is at most as long.
pub length-le_of_listed :
    (order other : List ℕ)
    → AreOnce order
    → ((p i : ℕ) → get_elem? order p ≡ some i → (q : ℕ) × (get_elem? other q ≡ some i))
    → length order ≤ length other
length-le_of_listed order other once sub =
    length-le order other (AreOnce-HasNoDuplicates order once) (λ x i.
      let (p, e) = In-get_elem? x order i in let (q, f) = sub p x e in get_elem?-In other q x f)

-- n different numbers below n are all numbers below n.
pub all_listed :
    (n : ℕ) (order : List ℕ)
    → length order ≡ n
    → AreOnce order
    → ((p i : ℕ) → get_elem? order p ≡ some i → i < n)
    → (i : ℕ) → i < n
    → (p : ℕ) × (get_elem? order p ≡ some i)
all_listed n order full once below i l = elim (In-cases i order) [
  | inl h ↦ In-get_elem? i order h
  | inr missing ↦
      let too_long =
        length-le (i ∷ order) (range_from 0 n) (missing, AreOnce-HasNoDuplicates order once)
          (λ x. elim [
            | inl e ↦ In-range_from x 0 n (omega arith) (omega (arith, l, e))
            | inr j ↦
                let (p, e) = In-get_elem? x order j in
                In-range_from x 0 n (omega arith) (omega (arith, below p x e))
          ]) in
      absurd (omega (arith, too_long, full, length-range_from 0 n))
]

-- The order around a place.
pub record IsSplit (order : List ℕ) (p i : ℕ) : Type 0 where
  pub before : List ℕ
  pub after : List ℕ
  pub parts : order ≡ before ++ i ∷ after
  pub size : length before ≡ p

pub get_elem?-IsSplit : (order : List ℕ) (p i : ℕ) → get_elem? order p ≡ some i → IsSplit order p i
get_elem?-IsSplit [] p i e = cc
get_elem?-IsSplit (j ∷ order) zero i e = record {
  before = [];
  after = order;
  parts = ap (λ k. k ∷ order) (some_inj.0 e);
  size = refl;
}
get_elem?-IsSplit (j ∷ order) (suc p) i e =
    let s = get_elem?-IsSplit order p i e in
    record {
      before = j ∷ s.before;
      after = s.after;
      parts = ap (λ rest. j ∷ rest) s.parts;
      size = ap suc s.size;
    }
