-- ===== src/Opacity/Graph/Sources.antt =====
-- The sources of a read among the final writes of the committed transactions.
use lincheck_cpp.Prelude.{
  ℕ, zero, suc, ◌+◌, ◌<◌, ◌≡◌, ◌≢◌, ◌↔◌, refl, sym, subst, ◌∙◌, Bool, true, false, ◌==◌, ==_iff,
  if◌then◌else◌, Option, none, some, List, [], ◌∷◌, ◌⊎◌, inl, inr, get_elem?, In, arith,
}
use mathlib.Core.Option.{some_inj}
use lincheck_cpp.Value.{Payloads, Value, value_eq}
use lincheck_cpp.Opacity.History.{StmOpacityAccess, StmOpacityState, find_value}
use lincheck_cpp.Opacity.Ordering.{StmOpacityReadFromChoiceConstraint, StmOpacityOrderingGraph}
use lincheck_cpp.Opacity.Ordering.Serial.{Reads, IsSerial}
use lincheck_cpp.Opacity.Graph.{writers, constrain}
use lincheck_cpp.Opacity.Graph.Edges.{IsGood, edge-IsSerial, choice-IsSerial, before_all-IsSerial}

abbrev choice_of : ℕ → List ℕ → Bool → List ℕ → StmOpacityReadFromChoiceConstraint
choice_of reader matching initial conflicting = record {
  reader = reader;
  alternatives = matching;
  conflicting_writers = conflicting;
  initial_allowed = initial;
}

-- What a read with a source adds holds in the order.
pub constrain-IsGood :
    (place : ℕ → ℕ) (reader : ℕ) (matching : List ℕ) (initial : Bool) (conflicting : List ℕ)
    (graph : StmOpacityOrderingGraph)
    → IsSerial place graph
    → Reads place (choice_of reader matching initial conflicting)
    → ((w : ℕ) → In w conflicting → (place w < place reader) ⊎ (place reader < place w))
    → IsGood place (constrain reader matching initial conflicting graph)
constrain-IsGood place reader [] false conflicting graph h (inl (s, r)) apart = absurd r.listed
constrain-IsGood place reader [] false conflicting graph h (inr r) apart =
    absurd (let a = r.allowed in cc)
constrain-IsGood place reader [] true conflicting graph h (inl (s, r)) apart = absurd r.listed
constrain-IsGood place reader [] true conflicting graph h (inr r) apart =
    before_all-IsSerial place reader conflicting graph h
      (λ w i. elim (apart w i) [ inl l ↦ absurd (r.untouched w i l) | inr l ↦ l ])
constrain-IsGood place reader (w ∷ []) false conflicting graph h (inl (s, r)) apart =
    edge-IsSerial place graph w reader h
      (elim r.listed [ inl e ↦ subst (λ x. place x < place reader) e r.earlier | inr i ↦ absurd i ])
constrain-IsGood place reader (w ∷ []) false conflicting graph h (inr r) apart =
    absurd (let a = r.allowed in cc)
constrain-IsGood place reader (w ∷ v ∷ ws) false conflicting graph h r apart =
    choice-IsSerial place graph (choice_of reader (w ∷ v ∷ ws) false conflicting) h r
constrain-IsGood place reader (w ∷ ws) true conflicting graph h r apart =
    choice-IsSerial place graph (choice_of reader (w ∷ ws) true conflicting) h r

module _ {P : Payloads} (access : StmOpacityAccess P) (reader : ℕ) where
  -- Another transaction's state writes the location; `b` says whether it writes the value that was
  -- read.
  pub record IsWriter (state : StmOpacityState P) (w : ℕ) (b : Bool) : Type 0 where
    pub other : w ≢ reader
    pub value : Value P
    pub found : find_value access.location_id state ≡ some value
    pub matches : value_eq value access.value ≡ b

  listed_iff :
      (w v : ℕ) (rest : List ℕ) (y b : Bool)
      → In v (if y then (if b then w ∷ rest else rest) else (if b then rest else w ∷ rest))
        ↔ ((v ≡ w) × (y ≡ b)) ⊎ In v rest
  listed_iff w v rest true true = ground arith
  listed_iff w v rest true false = ground arith
  listed_iff w v rest false true = ground arith
  listed_iff w v rest false false = ground arith

  writers-cons :
      (b : Bool) (w v : ℕ) (state : StmOpacityState P) (states : List (StmOpacityState P))
      → In v (writers b access reader w (state ∷ states))
        ↔ ((v ≡ w) × IsWriter state w b) ⊎ In v (writers b access reader (suc w) states)
  unfolding writers
  writers-cons b w v state states = go (w == reader) (find_value access.location_id state) refl refl
    where
      rest : List ℕ
      rest = writers b access reader (suc w) states

      go :
          (x : Bool) (o : Option (Value P))
          → (w == reader) ≡ x
          → find_value access.location_id state ≡ o
          → In v (
              if x then rest else elim o [
                | none ↦ rest
                | some u ↦
                    if value_eq u access.value
                    then (if b then w ∷ rest else rest)
                    else (if b then rest else w ∷ rest)
              ])
            ↔ ((v ≡ w) × IsWriter state w b) ⊎ In v rest
      go true o e f =
          (λ i. inr i, elim [ inl (_, h) ↦ absurd (h.other ((==_iff w reader).0 e)) | inr i ↦ i ])
      go false none e f =
          (λ i. inr i, elim [ inl (_, h) ↦ absurd (let g = h.found in cc) | inr i ↦ i ])
      go false (some u) e f =
          let (to, from) = listed_iff w v rest (value_eq u access.value) b in
          (
            λ i. elim (to i) [
              | inl (q, m) ↦ inl (
                q,
                record {
                  other = λ r. let r' = (==_iff w reader).1 r in cc;
                  value = u;
                  found = f;
                  matches = m;
                },
              )
              | inr i' ↦ inr i'
            ],
            elim [
              | inl (q, h) ↦
                  let same = some_inj.0 (sym h.found ∙ f) in
                  from (inl (q, subst (λ x. value_eq x access.value ≡ b) same h.matches))
              | inr i ↦ from (inr i)
            ],
          )

  pub writers→ :
      (b : Bool) (w v : ℕ) (states : List (StmOpacityState P))
      → In v (writers b access reader w states)
      → (k : ℕ) × (v ≡ w + k)
        × (state : StmOpacityState P) × (get_elem? states k ≡ some state)
        × IsWriter state v b
  unfolding writers
  writers→ b w v [] i = absurd i
  writers→ b w v (state ∷ states) i = elim ((writers-cons b w v state states).0 i) [
    | inl (q, h) ↦ (0, omega arith, state, refl, rw q h)
    | inr i' ↦ let (k, e, s, g, h) = writers→ b (suc w) v states i' in (suc k, omega arith, s, g, h)
  ]

  pub writers← :
      (b : Bool) (w k : ℕ) (states : List (StmOpacityState P)) (state : StmOpacityState P)
      → get_elem? states k ≡ some state
      → IsWriter state (w + k) b
      → In (w + k) (writers b access reader w states)
  writers← b w k [] state e h = cc
  writers← b w zero (s ∷ states) state e h = (writers-cons b w (w + 0) s states).1 (
      inl (
        omega arith,
        subst (λ s. IsWriter s w b) (sym (some_inj.0 e))
            (subst (λ n. IsWriter state n b) (omega arith) h),
      ))
  writers← b w (suc k) (s ∷ states) state e h = (writers-cons b w (w + suc k) s states).1 (
      inr (
        subst (λ n. In n (writers b access reader (suc w) states)) (omega arith)
          (writers← b (suc w) k states state e (subst (λ n. IsWriter state n b) (omega arith) h))))
