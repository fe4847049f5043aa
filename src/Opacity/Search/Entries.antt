-- ===== src/Opacity/Search/Entries.antt =====
-- include/lincheck/lincheck.hpp, `stm_opacity_search_state_key`: what equal texts of two states at
-- the same locations say of their values.
use lincheck_cpp.Prelude.{
  ◌≡◌, refl, sym, subst, ap, ◌∙◌, Bool, none, some, List, [], ◌∷◌, ◌++◌, ◌⊎◌, inl, inr, Bool-cases,
  Option-cases, list_eq, list_eq_iff, to_string, to_string-split, arith,
}
use lincheck_cpp.Value.{Str, Payloads, Value}
use lincheck_cpp.Value.Hash.{stable_hash}
use lincheck_cpp.Value.Text.{value_to_string}
use lincheck_cpp.Opacity.History.{StmOpacityState, find_value}
use lincheck_cpp.Opacity.Search.Key.{
  text_lt, insert_id, sort_ids, location_ids, entry_text, entries_text, append_cancel, append_assoc,
  stm_opacity_search_state_key, key_entries,
}

abbrev pub Among : Str → List Str → Type 0
Among k [] = ⊥
Among k (j ∷ ids) = (k ≡ j) ⊎ Among k ids

insert_id-Among← :
    (k id : Str) (ids : List Str) → (k ≡ id) ⊎ Among k ids → Among k (insert_id id ids)
unfolding insert_id
insert_id-Among← k id [] h = h
insert_id-Among← k id (j ∷ ids) h =
    let rest = insert_id-Among← k id ids in
    elim (Bool-cases (text_lt j id)) [
      | inl e ↦
          rw (e, insert_id)
            (elim h [
              | inl same ↦ inr (rest (inl same))
              | inr (inl same) ↦ inl same
              | inr (inr m) ↦ inr (rest (inr m))
            ])
      | inr e ↦ rw (e, insert_id) h
    ]

insert_id-Among→ :
    (k id : Str) (ids : List Str) → Among k (insert_id id ids) → (k ≡ id) ⊎ Among k ids
unfolding insert_id
insert_id-Among→ k id [] = λ h. h
insert_id-Among→ k id (j ∷ ids) =
    let rest = insert_id-Among→ k id ids in
    elim (Bool-cases (text_lt j id)) [
      | inl e ↦
          rw (e, insert_id)
            (λ h. elim h [
              | inl same ↦ inr (inl same)
              | inr m ↦ elim (rest m) [ inl same ↦ inl same | inr n ↦ inr (inr n) ]
            ])
      | inr e ↦ rw (e, insert_id) (λ h. h)
    ]

sort_ids-Among← : (k : Str) (ids : List Str) → Among k ids → Among k (sort_ids ids)
unfolding sort_ids
sort_ids-Among← k [] h = h
sort_ids-Among← k (id ∷ ids) (inl e) = insert_id-Among← k id (sort_ids ids) (inl e)
sort_ids-Among← k (id ∷ ids) (inr h) =
    insert_id-Among← k id (sort_ids ids) (inr (sort_ids-Among← k ids h))

sort_ids-Among→ : (k : Str) (ids : List Str) → Among k (sort_ids ids) → Among k ids
unfolding sort_ids
sort_ids-Among→ k [] h = h
sort_ids-Among→ k (id ∷ ids) h = elim (insert_id-Among→ k id (sort_ids ids) h) [
  | inl e ↦ inl e
  | inr m ↦ inr (sort_ids-Among→ k ids m)
]

module _ {P : Payloads} where
  pub find_value-Among :
      (k : Str) (v : Value P) (state : StmOpacityState P)
      → find_value k state ≡ some v
      → Among k (location_ids state)
  unfolding find_value location_ids
  find_value-Among k v [] e = cc
  find_value-Among k v ((j, w) ∷ state) e = elim (Bool-cases (list_eq j k)) [
    | inl y ↦ inl (sym ((list_eq_iff j k).0 y))
    | inr n ↦ inr (find_value-Among k v state (ground (arith, e, n)))
  ]

  Among-find_value :
      (k : Str) (state : StmOpacityState P)
      → Among k (location_ids state)
      → (v : Value P) × (find_value k state ≡ some v)
  unfolding find_value location_ids
  Among-find_value k [] h = absurd h
  Among-find_value k ((j, w) ∷ state) h = elim (Bool-cases (list_eq j k)) [
    | inl y ↦ (w, ground (arith, y))
    | inr n ↦ elim h [
      | inl same ↦ absurd (let y = (list_eq_iff j k).1 (sym same) in cc)
      | inr m ↦ let (v, e) = Among-find_value k state m in (v, ground (arith, n, e))
    ]
  ]

  entries_text-cons :
      (state : StmOpacityState P) (id : Str) (ids : List Str) (v : Value P)
      → find_value id state ≡ some v
      → entries_text state (id ∷ ids) ≡ entry_text id v ++ entries_text state ids
  unfolding entries_text
  entries_text-cons state id ids v e =
      ap (λ o. elim o [ some u ↦ entry_text id u | none ↦ [] ] ++ entries_text state ids) e

  -- An entry tells its value's hash, and with the same value what follows it.
  entry_text-split :
      (id : Str) (v w : Value P) (x y : Str)
      → entry_text id v ++ x ≡ entry_text id w ++ y
      → (stable_hash v ≡ stable_hash w)
        × ((value_to_string v ++ b';' ∷ []) ++ x ≡ (value_to_string w ++ b';' ∷ []) ++ y)
  unfolding entry_text
  entry_text-split id v w x y e =
      to_string-split (stable_hash v) (stable_hash w) _ _
        (append_cancel (b'=' ∷ []) _ _ (append_cancel id _ _ (sym (flat v x) ∙ e ∙ flat w y)))
    where
      flat :
          (u : Value P) (z : Str)
          → entry_text id u ++ z
            ≡ id
              ++ (b'='
                  ∷ (to_string (stable_hash u) ++ (b':' ∷ ((value_to_string u ++ b';' ∷ []) ++ z))))
      flat u z =
          append_assoc id _ z
          ∙ ap (λ t. id ++ b'=' ∷ t) (append_assoc (to_string (stable_hash u)) _ z)

  module _ (a b : StmOpacityState P)
      (separate : (k : Str) (v w : Value P)
        → find_value k a ≡ some v
        → find_value k b ≡ some w
        → stable_hash v ≡ stable_hash w
        → v ≡ w) where
    entries_text-faithful :
        (ids : List Str)
        → ((k : Str) → Among k ids → Among k (location_ids a))
        → ((k : Str) → Among k ids → Among k (location_ids b))
        → entries_text a ids ≡ entries_text b ids
        → (k : Str) → Among k ids
        → find_value k a ≡ find_value k b
    entries_text-faithful [] in_a in_b e k h = absurd h
    entries_text-faithful (id ∷ ids) in_a in_b e k h =
        let (v, va) = Among-find_value id a (in_a id (inl refl)) in
        let (w, wb) = Among-find_value id b (in_b id (inl refl)) in
        let (hash, text) =
          entry_text-split id v w _ _
            (sym (entries_text-cons a id ids v va) ∙ e ∙ entries_text-cons b id ids w wb) in
        let same = separate id v w va wb hash in
        let rest =
          append_cancel (value_to_string v ++ b';' ∷ []) _ _
            (text ∙ ap (λ u. (value_to_string u ++ b';' ∷ []) ++ entries_text b ids) (sym same)) in
        elim h [
          | inl here ↦
              subst (λ j. find_value j a ≡ find_value j b) (sym here) (va ∙ ap some same ∙ sym wb)
          | inr m ↦
              entries_text-faithful ids (λ j n. in_a j (inr n)) (λ j n. in_b j (inr n)) rest k m
        ]

    -- With the same locations, states of equal keys hold equal values.
    pub key-faithful :
        (placed : List Bool)
        → location_ids a ≡ location_ids b
        → stm_opacity_search_state_key placed a ≡ stm_opacity_search_state_key placed b
        → (k : Str) → find_value k a ≡ find_value k b
    key-faithful placed ids e k = elim (Option-cases (find_value k a)) [
      | inr (v, va) ↦ at_id k (find_value-Among k v a va)
      | inl na ↦ elim (Option-cases (find_value k b)) [
        | inl nb ↦ na ∙ sym nb
        | inr (w, wb) ↦ at_id k (subst (Among k) (sym ids) (find_value-Among k w b wb))
      ]
    ]
      where
        texts :
            entries_text a (sort_ids (location_ids a)) ≡ entries_text b (sort_ids (location_ids a))
        texts = key_entries placed a b e ∙ ap (λ x. entries_text b (sort_ids x)) (sym ids)

        at_id : (j : Str) → Among j (location_ids a) → find_value j a ≡ find_value j b
        at_id j h =
            entries_text-faithful (sort_ids (location_ids a))
              (λ i m. sort_ids-Among→ i (location_ids a) m)
              (λ i m. subst (Among i) ids (sort_ids-Among→ i (location_ids a) m)) texts j
              (sort_ids-Among← j (location_ids a) h)
