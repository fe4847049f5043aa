-- ===== src/Opacity/Ordering/Pass.antt =====
-- What one pass of `close_stm_opacity_ordering_graph` with one pivot does.
use lincheck_cpp.Prelude.{
  ℕ, ◌≡◌, refl, sym, subst, Bool, true, false, not, ◌||◌, if◌then◌else◌, List, [], ◌∷◌, ◌⊎◌, inl,
  inr, Bool-cases, In, range_from, In-range_from, arith,
}
use lincheck_cpp.Opacity.Ordering.{at, set_at, close_row, close_pivot}
use lincheck_cpp.Opacity.Ordering.Matrix.{
  IsSquare, at_bounds, set_at-IsSquare, at-set_at_self, at-set_at_mono, at-set_at_cases,
}

-- What a pass with pivot k may do to a matrix: it keeps what is set, and sets only what is joined
-- through k.
pub record IsPass (k : ℕ) (m m' : List (List Bool)) : Type 0 where
  pub mono : (i j : ℕ) → at m i j ≡ true → at m' i j ≡ true
  pub only :
      (i j : ℕ) → at m' i j ≡ true → (at m i j ≡ true) ⊎ ((at m i k ≡ true) × (at m k j ≡ true))

pub IsPass-refl : (k : ℕ) (m : List (List Bool)) → IsPass k m m
IsPass-refl k m = record { mono = λ i j e. e; only = λ i j e. inl e }

module _ (k : ℕ) (m m' : List (List Bool)) (h : IsPass k m m') where
  -- The pivot's own column and row do not change.
  pub IsPass-column : (i : ℕ) → at m' i k ≡ true → at m i k ≡ true
  IsPass-column i e = elim (h.only i k e) [ inl f ↦ f | inr (f, _) ↦ f ]

  pub IsPass-row : (j : ℕ) → at m' k j ≡ true → at m k j ≡ true
  IsPass-row j e = elim (h.only k j e) [ inl f ↦ f | inr (_, f) ↦ f ]

pub IsPass-trans :
    (k : ℕ) (m m' m'' : List (List Bool)) → IsPass k m m' → IsPass k m' m'' → IsPass k m m''
IsPass-trans k m m' m'' h h' = record {
  mono = λ i j e. h'.mono i j (h.mono i j e);
  only = λ i j e. elim (h'.only i j e) [
    | inl f ↦ h.only i j f
    | inr (f, g) ↦ inr (IsPass-column k m m' h i f, IsPass-row k m m' h j g)
  ];
}

module _ (n k : ℕ) where
  abbrev cell : ℕ → ℕ → List (List Bool) → List (List Bool)
  cell b a m = if not (at m k a) || at m b a then m else set_at m b a

  -- What one step does.
  record IsStep (b a : ℕ) (m m' : List (List Bool)) : Type 0 where
    pub square : IsSquare n m'
    pub pass : IsPass k m m'
    pub joined : at m k a ≡ true → at m' b a ≡ true

  cell-IsStep :
      (b a : ℕ) (m : List (List Bool)) → IsSquare n m → at m b k ≡ true → IsStep b a m (cell b a m)
  cell-IsStep b a m h e = go (at m k a) (at m b a) refl refl
    where
      go :
          (x y : Bool)
          → at m k a ≡ x
          → at m b a ≡ y
          → IsStep b a m (if not x || y then m else set_at m b a)
      go true true p q = record { square = h; pass = IsPass-refl k m; joined = λ _. q }
      go false y p q = record { square = h; pass = IsPass-refl k m; joined = λ p'. cc }
      go true false p q =
          let (lb, lk) = at_bounds n m h b k e in
          let (_, la) = at_bounds n m h k a p in
          record {
            square = set_at-IsSquare n m h b a;
            pass = record {
              mono = at-set_at_mono m b a;
              only = λ i j f. elim (at-set_at_cases m b a i j f) [
                | inl g ↦ inl g
                | inr (ei, ej) ↦ inr (rw ei e, rw ej p)
              ];
            };
            joined = λ _. at-set_at_self n m h b a lb la;
          }

  record IsRow (b : ℕ) (afters : List ℕ) (m m' : List (List Bool)) : Type 0 where
    pub square : IsSquare n m'
    pub pass : IsPass k m m'
    pub joined : (a : ℕ) → In a afters → at m k a ≡ true → at m' b a ≡ true

  close_row_lem :
      (b : ℕ) (afters : List ℕ) (m : List (List Bool))
      → IsSquare n m
      → at m b k ≡ true
      → IsRow b afters m (close_row k b afters m)
  unfolding close_row
  close_row_lem b [] m h e = record { square = h; pass = IsPass-refl k m; joined = λ a i. absurd i }
  close_row_lem b (a ∷ afters) m h e =
      let s = cell-IsStep b a m h e in
      let r = close_row_lem b afters (cell b a m) s.square (s.pass.mono b k e) in
      record {
        square = r.square;
        pass = IsPass-trans k m (cell b a m) (close_row k b afters (cell b a m)) s.pass r.pass;
        joined = λ a'. elim [
          | inl eq ↦ λ f. r.pass.mono b a' (
              subst (λ x. at (cell b a m) b x ≡ true) (sym eq)
                (s.joined (subst (λ x. at m k x ≡ true) eq f)))
          | inr i ↦ λ f. r.joined a' i (s.pass.mono k a' f)
        ];
      }

  -- The pass over all rows: it sets what is joined through the pivot.
  pub record IsClosedAt (befores : List ℕ) (m m' : List (List Bool)) : Type 0 where
    pub square : IsSquare n m'
    pub pass : IsPass k m m'
    pub joined : (b a : ℕ) → In b befores → at m b k ≡ true → at m k a ≡ true → at m' b a ≡ true

  abbrev row : ℕ → List (List Bool) → List (List Bool)
  row b m = if at m b k then close_row k b (range_from 0 n) m else m

  row-IsClosedAt : (b : ℕ) (m : List (List Bool)) → IsSquare n m → IsClosedAt (b ∷ []) m (row b m)
  row-IsClosedAt b m h = elim (Bool-cases (at m b k)) [
    | inl e ↦
        let r = close_row_lem b (range_from 0 n) m h e in
        rw e (record {
          square = r.square;
          pass = r.pass;
          joined = λ b' a. elim [
            | inl eq ↦ λ _ f.
                let (_, la) = at_bounds n m h k a f in
                rw eq (r.joined a (In-range_from a 0 n (omega arith) (omega arith)) f)
            | inr i ↦ absurd i
          ];
        })
    | inr e ↦ rw e (record {
      square = h;
      pass = IsPass-refl k m;
      joined = λ b' a. elim [
        | inl eq ↦ λ f. absurd (let f' = subst (λ x. at m x k ≡ true) eq f in cc)
        | inr i ↦ absurd i
      ];
    })
  ]

  pub close_pivot_lem :
      (befores : List ℕ) (m : List (List Bool))
      → IsSquare n m
      → IsClosedAt befores m (close_pivot n k befores m)
  unfolding close_pivot
  close_pivot_lem [] m h = record { square = h; pass = IsPass-refl k m; joined = λ b a i. absurd i }
  close_pivot_lem (b ∷ befores) m h =
      let s = row-IsClosedAt b m h in
      let r = close_pivot_lem befores (row b m) s.square in
      record {
        square = r.square;
        pass = IsPass-trans k m (row b m) (close_pivot n k befores (row b m)) s.pass r.pass;
        joined = λ b' a. elim [
          | inl eq ↦ λ f g. r.pass.mono b' a (s.joined b' a (inl eq) f g)
          | inr i ↦ λ f g. r.joined b' a i (s.pass.mono b' k f) (s.pass.mono k a g)
        ];
      }
