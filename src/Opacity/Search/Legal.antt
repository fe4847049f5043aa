-- ===== src/Opacity/Search/Legal.antt =====
-- A complete serial run, against what the ordering graph is built from: each read sees the last
-- writer before it, or the initial value.
use mathlib.Core.Option.{some_inj}
use lincheck_cpp.Prelude.{
  ℕ, zero, suc, ◌<◌, ◌≡◌, sym, subst, ap, ◌∙◌, Bool, true, some, List, [], ◌∷◌, inl, inr,
  Option-cases, map, length, length-map, get_elem?, lt_of_get_elem?, get_elem?-append,
  get_elem?-before, get_elem?-map, get_elem?-map→, arith,
}
use lincheck_cpp.Value.{Payloads, Value, value_eq}
use lincheck_cpp.Value.Symmetric.{EqIsSymmetric, value_eq_sym}
use lincheck_cpp.Opacity.History.{
  StmOpacityAccess, StmOpacityTransactionAttempt, StmOpacityHistory, StmOpacityState, find_value,
  make_initial_stm_opacity_state,
}
use lincheck_cpp.Opacity.Reads.{Memory, IsLegal, Sees, stm_opacity_final_writes}
use lincheck_cpp.Opacity.Graph.{find_location, initial_of}
use lincheck_cpp.Opacity.Graph.Sources.{IsWriter}
use lincheck_cpp.Opacity.Graph.Legal.{CanSee, AreDistinct}
use lincheck_cpp.Opacity.Graph.Loops.{ReadsLegal}
use lincheck_cpp.Opacity.Search.Serial.{
  LegalAt, step_of, memory_of, memory_after, Runs, Runs-append→,
}
use lincheck_cpp.Opacity.Search.Writer.{
  or_memory, overlay, overlay-step, write_by, Writes, memory_after-Origin,
}
use lincheck_cpp.Opacity.Search.Initial.{initial_of-find_value}
use lincheck_cpp.Opacity.Search.Places.{
  AreOnce, IsSplit, get_elem?-IsSplit, place_in, place_in_lem, all_listed,
}

module _ {P : Payloads} (history : StmOpacityHistory P)
    (committed : List (StmOpacityTransactionAttempt P)) where
  abbrev initial : Memory P
  initial = memory_of (make_initial_stm_opacity_state history)

  abbrev final_states : List (StmOpacityState P)
  final_states = map stm_opacity_final_writes committed

  -- An order of all the transactions, each once, that is a run of legal reads.
  pub record IsComplete (order : List ℕ) : Type 0 where
    pub full : length order ≡ length committed
    pub once : AreOnce order
    pub runs : Runs committed initial order

  pub Runs-lt :
      (order : List ℕ) (m : Memory P) (p i : ℕ)
      → Runs committed m order
      → get_elem? order p ≡ some i
      → i < length committed
  Runs-lt [] m p i h e = cc
  Runs-lt (j ∷ order) m zero i (h, _) e =
      subst (λ k. k < length committed) (some_inj.0 e)
        (elim (Option-cases (get_elem? committed j)) [
          | inl f ↦ absurd (subst (LegalAt committed m) f h)
          | inr (tx, f) ↦ lt_of_get_elem? committed j f
        ])
  Runs-lt (j ∷ order) m (suc p) i (_, h) e = Runs-lt order (step_of committed m j) p i h e

  module _ (order : List ℕ) (h : IsComplete order) where
    pub listed : (i : ℕ) → i < length committed → (p : ℕ) × (get_elem? order p ≡ some i)
    listed =
        all_listed (length committed) order h.full h.once (λ p i. Runs-lt order initial p i h.runs)

    abbrev place : ℕ → ℕ
    place = place_in order

    place_of : (p i : ℕ) → get_elem? order p ≡ some i → place i ≡ p
    place_of p i e = place_in_lem order p i h.once e

    pub place_in-AreDistinct : AreDistinct place history final_states
    place_in-AreDistinct i j l l' e =
        let size = length-map stm_opacity_final_writes committed in
        let (p, f) = listed i (omega arith) in
        let (q, g) = listed j (omega arith) in
        let same : p ≡ q = sym (place_of p i f) ∙ e ∙ place_of q j g in
        some_inj.0 (sym (subst (λ t. get_elem? order t ≡ some i) same f) ∙ g)

    -- The writers that the graph is built from are those of the run.
    IsWriter-Writes :
        (access : StmOpacityAccess P) (reader w : ℕ) (state : StmOpacityState P) (b : Bool)
        → get_elem? final_states w ≡ some state
        → (x : IsWriter access reader state w b) → Writes committed w access.location_id x.value
    IsWriter-Writes access reader w state b e x =
        let (tx, there, same) = get_elem?-map→ stm_opacity_final_writes committed w e in
        record {
          tx = tx;
          there = there;
          written = subst (λ s. find_value access.location_id s ≡ some x.value) (sym same) x.found;
        }

    module _ (symmetric : EqIsSymmetric P) (p reader : ℕ)
        (reader_at : get_elem? order p ≡ some reader) (s : IsSplit order p reader) where
      at_split : (q t : ℕ) → q < p → get_elem? order q ≡ some t → get_elem? s.before q ≡ some t
      at_split q t l e =
          get_elem?-before s.before (reader ∷ s.after) q (omega (arith, l, s.size))
            (subst (λ o. get_elem? o q ≡ some t) s.parts e)

      from_split :
          (q t : ℕ) → get_elem? s.before q ≡ some t → (q < p) × (get_elem? order q ≡ some t)
      from_split q t e = (
        omega (arith, lt_of_get_elem? s.before q e, s.size),
        subst (λ o. get_elem? o q ≡ some t) (sym s.parts)
            (get_elem?-append s.before (reader ∷ s.after) q e),
      )

      -- A writer that comes before the reader stands in the part before it.
      earlier_writer :
          (access : StmOpacityAccess P) (w : ℕ) (state : StmOpacityState P) (b : Bool)
          → get_elem? final_states w ≡ some state
          → IsWriter access reader state w b
          → place w < place reader
          → (q : ℕ) × (place w ≡ q) × (get_elem? s.before q ≡ some w)
      earlier_writer access w state b e x l =
          let size = length-map stm_opacity_final_writes committed in
          let (q, f) = listed w (omega (arith, lt_of_get_elem? final_states w e)) in
          (
            q,
            place_of q w f,
            at_split q w (omega (arith, place_of q w f, place_of p reader reader_at)) f,
          )

      read-CanSee :
          (access : StmOpacityAccess P) (v first : Value P)
          → memory_after committed initial s.before access.location_id ≡ some v
          → value_eq access.value v ≡ true
          → initial_of (find_location access.location_id history.locations) ≡ some first
          → CanSee place history final_states access reader first
      read-CanSee access v first e eq f =
          elim (memory_after-Origin committed s.before initial access.location_id v e) [
            | inl (p', w, o) ↦ inl (
              w,
              record {
                writes = (
                  stm_opacity_final_writes o.writes.tx,
                  get_elem?-map stm_opacity_final_writes committed w o.writes.there,
                  record {
                    other = λ same.
                        let (l, g) = from_split p' w o.at_place in
                        let q =
                          h.once p' p reader (subst (λ t. get_elem? order p' ≡ some t) same g)
                            reader_at in
                        omega arith;
                    value = v;
                    found = o.writes.written;
                    matches = value_eq_sym symmetric access.value v eq;
                  },
                );
                earlier =
                    let (l, g) = from_split p' w o.at_place in
                    omega (arith, l, place_of p' w g, place_of p reader reader_at);
                latest = λ w' state b g x l.
                    let (q, same, i) = earlier_writer access w' state b g x l in
                    let (l', g') = from_split p' w o.at_place in
                    omega (
                      arith,
                      same,
                      place_of p' w g',
                      o.last q w' x.value i (IsWriter-Writes access reader w' state b g x),
                    );
              },
            )
            | inr (e', untouched) ↦ inr (record {
              matches =
                  subst (λ u. value_eq u access.value ≡ true)
                    (some_inj.0 (sym e' ∙ initial_of-find_value history access.location_id first f))
                    (value_eq_sym symmetric access.value v eq);
              untouched = λ w state b g x l.
                  let (q, _, i) = earlier_writer access w state b g x l in
                  untouched q w x.value i (IsWriter-Writes access reader w state b g x);
            })
          ]

      accesses-ReadsLegal :
          (accesses : List (StmOpacityAccess P)) (local_writes : StmOpacityState P)
          → IsLegal (overlay local_writes (memory_after committed initial s.before)) accesses
          → ReadsLegal place history final_states reader accesses local_writes
      accesses-ReadsLegal [] local_writes legal = tt
      accesses-ReadsLegal (access ∷ accesses) local_writes (sees, legal) = (
        λ not_write unwritten first f.
            let (v, e, eq) = subst (λ b. Sees b access (overlay local_writes m)) not_write sees in
            read-CanSee access v first
              (sym (ap (λ o. or_memory o (m access.location_id)) unwritten) ∙ e) eq f,
        accesses-ReadsLegal accesses (write_by access.write access local_writes) (
            subst (λ n. IsLegal n accesses) (sym (overlay-step access.write access local_writes m))
              legal),
      )
        where
          m : Memory P
          m = memory_after committed initial s.before

      pub reader-ReadsLegal :
          (tx : StmOpacityTransactionAttempt P)
          → get_elem? committed reader ≡ some tx
          → ReadsLegal place history final_states reader tx.accesses []
      unfolding find_value
      reader-ReadsLegal tx e =
          let (_, runs) =
            Runs-append→ committed initial s.before (reader ∷ s.after)
              (subst (Runs committed initial) s.parts h.runs) in
          accesses-ReadsLegal tx.accesses []
            (subst (LegalAt committed (memory_after committed initial s.before)) e runs.0)

    pub place_in-ReadsLegal :
        EqIsSymmetric P
        → (i : ℕ) (tx : StmOpacityTransactionAttempt P) → get_elem? committed i ≡ some tx
        → ReadsLegal place history final_states i tx.accesses []
    place_in-ReadsLegal symmetric i tx e =
        let (p, f) = listed i (lt_of_get_elem? committed i e) in
        reader-ReadsLegal symmetric p i f (get_elem?-IsSplit order p i f) tx e
