-- ===== src/Opacity/Search/Ready.antt =====
-- The test of a candidate against the ordering graph, for the next transaction of an order that the
-- graph allows.
use lincheck_cpp.Prelude.{
  ℕ, zero, suc, ◌<◌, ◌≡◌, refl, sym, subst, ap, Bool, true, false, ◌==◌, ==_iff, some, List, [],
  ◌∷◌, ◌++◌, inl, inr, Bool-cases, length, length-append, get_elem?, get_elem?-append,
  get_elem?-before, lt_of_get_elem?, get_or, In, range_from, arith,
}
use mathlib.Core.Option.{some_inj}
use lincheck_cpp.Opacity.Ordering.{StmOpacityReadFromChoiceConstraint, StmOpacityOrderingGraph, at}
use lincheck_cpp.Opacity.Ordering.Serial.{Reads, AllRead, IsSerial, Keeps}
use lincheck_cpp.Opacity.Search.Predecessors.{
  predecessors_loop, contains_index, any_placed, latest_matches, choice_ready, choices_loop,
  stm_opacity_committed_predecessors_placed,
}
use lincheck_cpp.Opacity.Search.Places.{AreOnce, place_in, place_in_lem}

contains_index_sound : (xs : List ℕ) (v : ℕ) → contains_index xs v ≡ true → In v xs
unfolding contains_index
contains_index_sound [] v e = cc
contains_index_sound (x ∷ xs) v e = elim (Bool-cases (x == v)) [
  | inl y ↦ inl (sym ((==_iff x v).0 y))
  | inr n ↦ inr (contains_index_sound xs v (ground (arith, e, n)))
]

contains_index_complete : (xs : List ℕ) (v : ℕ) → In v xs → contains_index xs v ≡ true
unfolding contains_index
contains_index_complete [] v h = absurd h
contains_index_complete (x ∷ xs) v (inl e) = let y = (==_iff x v).1 (sym e) in ground arith
contains_index_complete (x ∷ xs) v (inr h) = let y = contains_index_complete xs v h in ground arith

any_placed_complete :
    (placed : List Bool) (source : ℕ) (sources : List ℕ)
    → In source sources
    → get_or placed source false ≡ true
    → any_placed placed sources ≡ true
unfolding any_placed
any_placed_complete placed source [] h e = absurd h
any_placed_complete placed source (s ∷ sources) (inl same) e =
    let e' = subst (λ t. get_or placed t false ≡ true) same e in ground arith
any_placed_complete placed source (s ∷ sources) (inr h) e =
    let rest = any_placed_complete placed source sources h e in ground arith

module _ (alternatives conflicting : List ℕ) where
  abbrev HasNoConflict : List ℕ → Type 0
  HasNoConflict order = (q t : ℕ) → get_elem? order q ≡ some t → In t conflicting → ⊥

  latest_matches-true :
      (order : List ℕ)
      → HasNoConflict order
      → latest_matches alternatives conflicting order true ≡ true
  unfolding latest_matches
  latest_matches-true [] quiet = refl
  latest_matches-true (i ∷ order) quiet =
      let rest = latest_matches-true order (λ q t e. quiet (suc q) t e) in
      elim (Bool-cases (contains_index conflicting i)) [
        | inl y ↦ absurd (quiet 0 i refl (contains_index_sound conflicting i y))
        | inr n ↦ ground (arith, rest, n)
      ]

  -- An alternative that no conflicting writer follows.
  latest_matches_complete :
      (order : List ℕ) (latest : Bool) (p s : ℕ)
      → get_elem? order p ≡ some s
      → In s alternatives
      → ((q t : ℕ) → get_elem? order q ≡ some t → In t conflicting → q < p)
      → latest_matches alternatives conflicting order latest ≡ true
  unfolding latest_matches
  latest_matches_complete [] latest p s e h last = cc
  latest_matches_complete (i ∷ order) latest zero s e h last =
      let y =
        subst (λ t. contains_index alternatives t ≡ true) (sym (some_inj.0 e))
          (contains_index_complete alternatives s h) in
      rw y
        (latest_matches-true order (λ q t f g. absurd (let l = last (suc q) t f g in omega arith)))
  latest_matches_complete (i ∷ order) latest (suc p) s e h last =
      latest_matches_complete order _ p s e h (λ q t f g. let l = last (suc q) t f g in omega arith)

module _ (order a : List ℕ) (i : ℕ) (rest : List ℕ) (once : AreOnce order)
    (parts : order ≡ a ++ i ∷ rest) (placed : List Bool)
    (flagged : (p j : ℕ) → get_elem? a p ≡ some j → get_or placed j false ≡ true) where
  abbrev place : ℕ → ℕ
  place = place_in order

  place_in-here : (a : List ℕ) → get_elem? (a ++ i ∷ rest) (length a) ≡ some i
  place_in-here [] = refl
  place_in-here (j ∷ a) = place_in-here a

  place_of_candidate : place i ≡ length a
  place_of_candidate =
      place_in_lem order (length a) i once
        (subst (λ o. get_elem? o (length a) ≡ some i) (sym parts) (place_in-here a))

  place_in-listed :
      (o : List ℕ) (j : ℕ) → place_in o j < length o → get_elem? o (place_in o j) ≡ some j
  place_in-listed [] j l = absurd (omega arith)
  place_in-listed (k ∷ o) j l = elim (Bool-cases (k == j)) [
    | inl y ↦ rw y (ap some ((==_iff k j).0 y))
    | inr n ↦ rw n (place_in-listed o j (ground (arith, l, n)))
  ]

  -- What comes before the candidate stands in the part before it.
  earlier_listed : (j : ℕ) → place j < place i → get_elem? a (place j) ≡ some j
  earlier_listed j l =
      let size = length-append a (i ∷ rest) in
      let whole = ap length parts in
      let here = place_of_candidate in
      get_elem?-before a (i ∷ rest) (place j) (omega arith)
        (subst (λ o. get_elem? o (place j) ≡ some j) parts (place_in-listed order j (omega arith)))

  from_part : (q t : ℕ) → get_elem? a q ≡ some t → (place t ≡ q) × (place t < place i)
  from_part q t e =
      let e' =
        subst (λ o. get_elem? o q ≡ some t) (sym parts) (get_elem?-append a (i ∷ rest) q e) in
      let same = place_in_lem order q t once e' in
      (same, omega (arith, same, place_of_candidate, lt_of_get_elem? a q e))

  predecessors_loop_complete :
      (m : List (List Bool)) (is : List ℕ) → Keeps place m → predecessors_loop m placed i is ≡ true
  unfolding predecessors_loop
  predecessors_loop_complete m [] keeps = refl
  predecessors_loop_complete m (j ∷ is) keeps =
      let more = predecessors_loop_complete m is keeps in
      elim (Bool-cases (at m j i)) [
        | inl e ↦
            let flag = flagged (place j) j (earlier_listed j (keeps j i e)) in
            ground (arith, flag, more)
        | inr n ↦ ground (arith, n, more)
      ]

  ready_complete :
      (c : StmOpacityReadFromChoiceConstraint)
      → c.reader ≡ i
      → Reads place c
      → choice_ready placed a c ≡ true
  unfolding choice_ready
  ready_complete c own (inl (s, r)) =
      let here = earlier_listed s (subst (λ t. place s < place t) own r.earlier) in
      let y = any_placed_complete placed s c.alternatives r.listed (flagged (place s) s here) in
      let z =
        latest_matches_complete c.alternatives c.conflicting_writers a true (place s) s here
          r.listed
          (λ q t e g.
            let (same, l) = from_part q t e in
            subst (λ k. k < place s) same
              (r.last t g (subst (λ k. place t < place k) (sym own) l))) in
      ground (arith, y, z)
  ready_complete c own (inr r) =
      let z = latest_matches-true c.alternatives c.conflicting_writers a (λ q t e g.
        let (same, l) = from_part q t e in
        r.untouched t g (subst (λ k. place t < place k) (sym own) l)) in
      let y = r.allowed in ground (arith, y, z)

  choices_loop_complete :
      (cs : List StmOpacityReadFromChoiceConstraint)
      → AllRead place cs
      → choices_loop placed a i cs ≡ true
  unfolding choices_loop
  choices_loop_complete [] h = refl
  choices_loop_complete (c ∷ cs) (h, hs) =
      let more = choices_loop_complete cs hs in
      elim (Bool-cases (c.reader == i)) [
        | inl e ↦ let y = ready_complete c ((==_iff c.reader i).0 e) h in ground (arith, y, more)
        | inr n ↦ ground (arith, n, more)
      ]

  pub predecessors_placed_complete :
      (graph : StmOpacityOrderingGraph)
      → IsSerial place graph
      → stm_opacity_committed_predecessors_placed graph placed a i ≡ true
  unfolding stm_opacity_committed_predecessors_placed
  predecessors_placed_complete graph h =
      let y =
        predecessors_loop_complete graph.must_precede (range_from 0 (length graph.must_precede))
          h.kept.keeps in
      let z = choices_loop_complete graph.read_from_choices h.reads in ground (arith, y, z)
