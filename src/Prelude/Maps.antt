-- ===== src/Prelude/Maps.antt =====
-- `std::unordered_map` and `std::unordered_set` with texts for keys, as association lists and lists.
use Prim.Native.Nat.{ℕ}
use mathlib.Core.Path.{◌≡◌, refl}
use mathlib.Core.Bool.{Bool, true, false}
use mathlib.Core.List.{List, [], ◌∷◌}
use mathlib.Core.Option.{Option, none, some}
use native.Mathlib.Omega.{arith}
use lincheck_cpp.Prelude.Tests.{if◌then◌else◌, list_eq, list_eq_iff}

module _ {ℓ} {A : Type ℓ} where
  unfoldable pub find : List ℕ → List (List ℕ × A) → Option A
  find k [] = none
  find k ((j, v) ∷ m) = if list_eq j k then some v else find k m

  -- `m[k] = v`
  unfoldable pub put : List ℕ → A → List (List ℕ × A) → List (List ℕ × A)
  put k v [] = (k, v) ∷ []
  put k v ((j, w) ∷ m) = if list_eq j k then (k, v) ∷ m else (j, w) ∷ put k v m

  -- `m.erase(k)`
  unfoldable pub remove : List ℕ → List (List ℕ × A) → List (List ℕ × A)
  remove k [] = []
  remove k ((j, w) ∷ m) = let rest = remove k m in if list_eq j k then rest else (j, w) ∷ rest

  pub find-put :
      (k j : List ℕ) (v : A) (m : List (List ℕ × A))
      → find j (put k v m) ≡ (if list_eq k j then some v else find j m)
  unfolding find put
  find-put k j v [] = refl
  find-put k j v ((i, w) ∷ m) =
      ground (arith, list_eq_iff k j, list_eq_iff i k, list_eq_iff i j, find-put k j v m)

  pub find-remove :
      (k j : List ℕ) (m : List (List ℕ × A))
      → find j (remove k m) ≡ (if list_eq k j then none else find j m)
  unfolding find remove
  find-remove k j [] = ground arith
  find-remove k j ((i, w) ∷ m) =
      ground (arith, list_eq_iff k j, list_eq_iff i k, list_eq_iff i j, find-remove k j m)

  -- The value of `m[k]` where a missing key stands for `d`.
  abbrev pub find_or : List ℕ → List (List ℕ × A) → A → A
  find_or k m d = elim (find k m) [ some v ↦ v | none ↦ d ]

abbrev pub is_empty {ℓ} : {A : Type ℓ} → List A → Bool
is_empty [] = true
is_empty (_ ∷ _) = false

-- `set.find(k) != set.end()`
unfoldable pub member : List ℕ → List (List ℕ) → Bool
member k [] = false
member k (j ∷ ks) = if list_eq j k then true else member k ks

-- `set.insert(k)`
unfoldable pub add : List ℕ → List (List ℕ) → List (List ℕ)
add k [] = k ∷ []
add k (j ∷ ks) = if list_eq j k then j ∷ ks else j ∷ add k ks

-- `set.erase(k)`
unfoldable pub discard : List ℕ → List (List ℕ) → List (List ℕ)
discard k [] = []
discard k (j ∷ ks) = let rest = discard k ks in if list_eq j k then rest else j ∷ rest

pub member-add :
    (k j : List ℕ) (ks : List (List ℕ))
    → member j (add k ks) ≡ (if list_eq k j then true else member j ks)
unfolding member add
member-add k j [] = refl
member-add k j (i ∷ ks) =
    ground (arith, list_eq_iff k j, list_eq_iff i k, list_eq_iff i j, member-add k j ks)

pub member-discard :
    (k j : List ℕ) (ks : List (List ℕ))
    → member j (discard k ks) ≡ (if list_eq k j then false else member j ks)
unfolding member discard
member-discard k j [] = ground arith
member-discard k j (i ∷ ks) =
    ground (arith, list_eq_iff k j, list_eq_iff i k, list_eq_iff i j, member-discard k j ks)
