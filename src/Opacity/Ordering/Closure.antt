-- ===== src/Opacity/Ordering/Closure.antt =====
-- `close_stm_opacity_ordering_graph`, against the paths of the graph.
use lincheck_cpp.Prelude.{
  ℕ, ◌≡◌, ◌↔◌, refl, sym, subst, Bool, true, false, if◌then◌else◌, List, [], ◌∷◌, ◌⊎◌, inl, inr,
  Bool-cases, length, In, range_from, In-range_from, arith,
}
use lincheck_cpp.Opacity.Ordering.{
  StmOpacityOrderingGraph, at, close_pivot, close_all, on_cycle, close_stm_opacity_ordering_graph,
}
use lincheck_cpp.Opacity.Ordering.Matrix.{IsSquare, at_bounds}
use lincheck_cpp.Opacity.Ordering.Pass.{IsPass-column, IsPass-row, IsClosedAt, close_pivot_lem}

-- i reaches j by one or more entries.
pub data Reach (m : List (List Bool)) : ℕ → ℕ → Type 0 where
  edge : {i j : ℕ} → at m i j ≡ true → Reach m i j
  join : {i k j : ℕ} → Reach m i k → Reach m k j → Reach m i j

Reach-bind :
    (m m' : List (List Bool))
    → ((i j : ℕ) → at m' i j ≡ true → Reach m i j)
    → (i j : ℕ) → Reach m' i j
    → Reach m i j
Reach-bind m m' h i j (edge e) = h i j e
Reach-bind m m' h i j (join {k = k} r s) = join (Reach-bind m m' h i k r) (Reach-bind m m' h k j s)

-- Whatever is joined through p is set.
abbrev Through : ℕ → List (List Bool) → Type 0
Through p m = (i j : ℕ) → at m i p ≡ true → at m p j ≡ true → at m i j ≡ true

module _ (n k : ℕ) (m m' : List (List Bool)) (square : IsSquare n m)
    (h : IsClosedAt n k (range_from 0 n) m m') where
  abbrev through_pivot : (i j : ℕ) → at m i k ≡ true → at m k j ≡ true → at m' i j ≡ true
  through_pivot i j e f =
      let (l, _) = at_bounds n m square i k e in
      h.joined i j (In-range_from i 0 n (omega arith) (omega arith)) e f

  Through-pivot : Through k m'
  Through-pivot i j e f =
      through_pivot i j (IsPass-column k m m' h.pass i e) (IsPass-row k m m' h.pass j f)

  -- An earlier pivot stays done.
  Through-kept : (p : ℕ) → Through p m → Through p m'
  Through-kept p t i j e f = elim (h.pass.only i p e) [
    | inl a ↦ elim (h.pass.only p j f) [
      | inl b ↦ h.pass.mono i j (t i j a b)
      | inr (b, c) ↦ through_pivot i j (t i k a b) c
    ]
    | inr (a, b) ↦ elim (h.pass.only p j f) [
      | inl c ↦ through_pivot i j a (t k j b c)
      | inr (_, c) ↦ through_pivot i j a c
    ]
  ]

  pass-Reach : (i j : ℕ) → at m' i j ≡ true → Reach m i j
  pass-Reach i j e = elim (h.pass.only i j e) [
    | inl f ↦ edge f
    | inr (f, g) ↦ join (edge f) (edge g)
  ]

record IsClosed (n : ℕ) (pivots : List ℕ) (m m' : List (List Bool)) : Type 0 where
  pub square : IsSquare n m'
  pub mono : (i j : ℕ) → at m i j ≡ true → at m' i j ≡ true
  pub reached : (i j : ℕ) → at m' i j ≡ true → Reach m i j
  pub kept : (p : ℕ) → Through p m → Through p m'
  pub through : (p : ℕ) → In p pivots → Through p m'

close_all_lem :
    (n : ℕ) (pivots : List ℕ) (m : List (List Bool))
    → IsSquare n m
    → IsClosed n pivots m (close_all n pivots m)
unfolding close_all
close_all_lem n [] m h = record {
  square = h;
  mono = λ i j e. e;
  reached = λ i j e. edge e;
  kept = λ p t. t;
  through = λ p i. absurd i;
}
close_all_lem n (k ∷ pivots) m h =
    let m' = close_pivot n k (range_from 0 n) m in
    let c = close_pivot_lem n k (range_from 0 n) m h in
    let r = close_all_lem n pivots m' c.square in
    record {
      square = r.square;
      mono = λ i j e. r.mono i j (c.pass.mono i j e);
      reached = λ i j e. Reach-bind m m' (pass-Reach n k m m' h c) i j (r.reached i j e);
      kept = λ p t. r.kept p (Through-kept n k m m' h c p t);
      through = λ p. elim [
        | inl e ↦ r.kept p (subst (λ x. Through x m') (sym e) (Through-pivot n k m m' h c))
        | inr i ↦ r.through p i
      ];
    }

-- The closed matrix has an entry exactly where the given one has a path.
closure_iff :
    (n : ℕ) (m : List (List Bool))
    → IsSquare n m
    → (i j : ℕ) → (at (close_all n (range_from 0 n) m) i j ≡ true) ↔ Reach m i j
closure_iff n m h i j = (c.reached i j, from i j)
  where
    m' : List (List Bool)
    m' = close_all n (range_from 0 n) m

    c : IsClosed n (range_from 0 n) m m'
    c = close_all_lem n (range_from 0 n) m h

    from : (i j : ℕ) → Reach m i j → at m' i j ≡ true
    from i j (edge e) = c.mono i j e
    from i j (join {k = k} r s) =
        let e = from i k r in
        let f = from k j s in
        let (_, l) = at_bounds n m' c.square i k e in
        c.through k (In-range_from k 0 n (omega arith) (omega arith)) i j e f

on_cycle_iff :
    (m : List (List Bool)) (is : List ℕ)
    → (on_cycle m is ≡ true) ↔ ((i : ℕ) × In i is × (at m i i ≡ true))
unfolding on_cycle
on_cycle_iff m [] = (λ e. cc, λ (i, h, e). absurd h)
on_cycle_iff m (i ∷ is) = elim (Bool-cases (at m i i)) [
  | inl e ↦ (λ _. (i, inl refl, e), λ _. rw e refl)
  | inr f ↦ rw f (
    λ h. let (j, l, e) = (on_cycle_iff m is).0 h in (j, inr l, e),
    λ (j, l, e). elim l [
      | inl q ↦ absurd (let e' = subst (λ x. at m x x ≡ true) q e in cc)
      | inr l' ↦ (on_cycle_iff m is).1 (j, l', e)
    ],
  )
]

-- The second graph is the first with its constraints closed: it has an entry exactly where the first
-- has a path, and it is inconsistent exactly if the first is, or has a cycle.
pub record IsClosureOf (graph closed : StmOpacityOrderingGraph) : Type 0 where
  pub square : IsSquare (length graph.must_precede) closed.must_precede
  pub entries : (i j : ℕ) → (at closed.must_precede i j ≡ true) ↔ Reach graph.must_precede i j
  pub choices : closed.read_from_choices ≡ graph.read_from_choices
  pub verdict :
      (closed.inconsistent ≡ true)
      ↔ (graph.inconsistent ≡ true) ⊎ ((i : ℕ) × Reach graph.must_precede i i)

-- `close_stm_opacity_ordering_graph` closes the constraints of a graph with a square matrix: the
-- result has an entry exactly where the graph has a path, and it is inconsistent exactly if the graph
-- was or some transaction has a path to itself.
pub close-IsClosureOf :
    (graph : StmOpacityOrderingGraph)
    → IsSquare (length graph.must_precede) graph.must_precede
    → IsClosureOf graph (close_stm_opacity_ordering_graph graph)
unfolding close_stm_opacity_ordering_graph
close-IsClosureOf graph h = answer (on_cycle m (range_from 0 n)) refl
  where
    n : ℕ
    n = length graph.must_precede

    m : List (List Bool)
    m = close_all n (range_from 0 n) graph.must_precede

    entries : (i j : ℕ) → (at m i j ≡ true) ↔ Reach graph.must_precede i j
    entries = closure_iff n graph.must_precede h

    square : IsSquare n m
    square = (close_all_lem n (range_from 0 n) graph.must_precede h).square

    answer :
        (b : Bool)
        → on_cycle m (range_from 0 n) ≡ b
        → IsClosureOf graph (
            if b
            then record graph { must_precede = m; inconsistent = true; has_cycle = true }
            else record graph { must_precede = m })
    answer true e = record {
      square = square;
      entries = entries;
      choices = refl;
      verdict = (
        λ _. let (i, _, c) = (on_cycle_iff m (range_from 0 n)).0 e in inr (i, (entries i i).0 c),
        λ _. refl,
      );
    }
    answer false e = record {
      square = square;
      entries = entries;
      choices = refl;
      verdict = (
        λ bad. inl bad,
        elim [
          | inl bad ↦ bad
          | inr (i, r) ↦
              let c = (entries i i).1 r in
              let (l, _) = at_bounds n m square i i c in
              let t =
                (on_cycle_iff m (range_from 0 n)).1
                  (i, In-range_from i 0 n (omega arith) (omega arith), c) in
              cc
        ],
      );
    }
