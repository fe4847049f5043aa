-- ===== src/Opacity/Ordering/Add.antt =====
-- `add_stm_opacity_ordering_constraint`, against the edge that it is called for.
use lincheck_cpp.Prelude.{
  ℕ, ◌≡◌, ◌≢◌, ◌↔◌, ◌<◌, refl, List, ==_iff, [], ◌∷◌, ◌++◌, if◌then◌else◌, Bool, true, false, ◌⊎◌,
  inl, length, ltb, not, ◌&&◌, ◌==◌, arith,
}
use lincheck_cpp.Opacity.Ordering.{
  StmOpacityOrderingGraph, at, set_at, add_stm_opacity_ordering_constraint,
}
use lincheck_cpp.Opacity.Ordering.Matrix.{
  IsSquare, set_at-IsSquare, at-set_at_self, at-set_at_mono, at-set_at_cases,
}

-- What the call on the first graph may leave as the second.
pub record IsExtension (graph graph' : StmOpacityOrderingGraph) (before after : ℕ) (fresh : Bool)
    : Type 0 where
  pub square : IsSquare (length graph.must_precede) graph'.must_precede
  pub mono : (i j : ℕ) → at graph.must_precede i j ≡ true → at graph'.must_precede i j ≡ true
  pub only :
      (i j : ℕ)
      → at graph'.must_precede i j ≡ true
      → (at graph.must_precede i j ≡ true) ⊎ ((i ≡ before) × (j ≡ after))
  pub added :
      before < length graph.must_precede
      → after < length graph.must_precede
      → before ≢ after
      → at graph'.must_precede before after ≡ true
  pub refused : before < length graph.must_precede → before ≡ after → graph'.inconsistent ≡ true
  pub choices : graph'.read_from_choices ≡ graph.read_from_choices
  pub consistent : before ≢ after → graph'.inconsistent ≡ graph.inconsistent
  pub fresh_matrix : fresh ≡ true → graph'.must_precede ≡ set_at graph.must_precede before after
  pub same_matrix : fresh ≡ false → graph'.must_precede ≡ graph.must_precede
  pub fresh_iff :
      (fresh ≡ true)
      ↔ (before < length graph.must_precede)
        × (after < length graph.must_precede)
        × (before ≢ after)
        × (at graph.must_precede before after ≡ false)

in_range_iff :
    (b a n : ℕ) (x : Bool) → not (ltb b n && ltb a n) ≡ x → (x ≡ false) ↔ (b < n) × (a < n)
in_range_iff b a n x e = ground arith

-- On a graph with a square matrix the call adds exactly the edge, where both ends are transactions
-- and differ. It says so exactly if the edge is new, and a transaction that has to precede itself
-- makes the graph inconsistent.
pub add-IsExtension :
    (graph : StmOpacityOrderingGraph) (before after : ℕ)
    → IsSquare (length graph.must_precede) graph.must_precede
    → IsExtension graph
        (add_stm_opacity_ordering_constraint graph before after).0
        before
        after
        (add_stm_opacity_ordering_constraint graph before after).1
unfolding add_stm_opacity_ordering_constraint
add-IsExtension graph before after h =
    answer (not (ltb before n && ltb after n)) (before == after) (at m before after) refl refl refl
  where
    n : ℕ
    n = length graph.must_precede

    m : List (List Bool)
    m = graph.must_precede

    answer :
        (x y z : Bool)
        → not (ltb before n && ltb after n) ≡ x
        → (before == after) ≡ y
        → at m before after ≡ z
        → let r : StmOpacityOrderingGraph × Bool =
            (if x
              then (graph, false)
              else if y
              then (record graph { inconsistent = true; has_cycle = true }, false)
              else if z
              then (graph, false)
              else (
                record graph {
                  must_precede = set_at m before after;
                  constraints =
                      graph.constraints ++ (record { before = before; after = after } ∷ []);
                },
                true,
              )) in
          IsExtension graph r.0 before after r.1
    answer true y z p q r = record {
      square = h;
      mono = λ i j e. e;
      only = λ i j e. inl e;
      added = λ lb la ne. let p' = (in_range_iff before after n true p).1 (lb, la) in cc;
      refused = λ lb e. let p' = (in_range_iff before after n true p).1 (lb, omega arith) in cc;
      choices = refl;
      consistent = λ ne. refl;
      fresh_matrix = λ e. cc;
      same_matrix = λ e. refl;
      fresh_iff = (
        λ e. cc,
        λ (lb, la, _, _). let p' = (in_range_iff before after n true p).1 (lb, la) in cc,
      );
    }
    answer false true z p q r = record {
      square = h;
      mono = λ i j e. e;
      only = λ i j e. inl e;
      added = λ lb la ne. absurd (ne ((==_iff before after).0 q));
      refused = λ lb e. refl;
      choices = refl;
      consistent = λ ne. absurd (ne ((==_iff before after).0 q));
      fresh_matrix = λ e. cc;
      same_matrix = λ e. refl;
      fresh_iff = (λ e. cc, λ (lb, la, ne, _). absurd (ne ((==_iff before after).0 q)));
    }
    answer false false true p q r = record {
      square = h;
      mono = λ i j e. e;
      only = λ i j e. inl e;
      added = λ lb la ne. r;
      refused = λ lb e. let q' = (==_iff before after).1 e in cc;
      choices = refl;
      consistent = λ ne. refl;
      fresh_matrix = λ e. cc;
      same_matrix = λ e. refl;
      fresh_iff = (λ e. cc, λ (lb, la, ne, f). cc);
    }
    answer false false false p q r =
        let (lb, la) = (in_range_iff before after n false p).0 refl in
        record {
          square = set_at-IsSquare n m h before after;
          mono = at-set_at_mono m before after;
          only = at-set_at_cases m before after;
          added = λ _ _ _. at-set_at_self n m h before after lb la;
          refused = λ _ e. let q' = (==_iff before after).1 e in cc;
          choices = refl;
          consistent = λ ne. refl;
          fresh_matrix = λ e. refl;
          same_matrix = λ e. cc;
          fresh_iff =
              (λ _. (lb, la, (λ e. let q' = (==_iff before after).1 e in cc), r), λ _. refl);
        }
