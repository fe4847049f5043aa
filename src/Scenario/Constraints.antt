-- ===== src/Scenario/Constraints.antt =====
-- What the constraints on one-shot operations and non-parallel groups come to: a condition on each
-- two actors of a scenario.
use lincheck_cpp.Prelude.{
  ℕ, ◌≡◌, ◌≢◌, ◌↔◌, refl, sym, subst, ap, ◌∙◌, Bool, true, false, not, ◌&&◌, ◌==◌, ==_iff,
  if◌then◌else◌, Option, none, some, List, [], ◌∷◌, inl, inr, Bool-cases, list_eq, list_eq_iff,
  arith,
}
use lincheck_cpp.Value.{Str, Payloads}
use lincheck_cpp.Scenario.{Operation}
use lincheck_cpp.Scenario.Validate.{Seen, contains, find_group, non_parallel_key_for_operation}

-- An actor's operation, its index, and the thread if it is in the parallel section.
pub record Use (P : Payloads) (S : Type 0) : Type 0 where
  pub operation : Operation P S
  pub index : ℕ
  pub thread : Option ℕ

abbrev pub and_then {ℓ κ} : {A : Type ℓ} {B : Type κ} → Option A → (A → Option B) → Option B
and_then none f = none
and_then (some a) f = f a

abbrev group_if : Bool → Option ℕ → Str → Option (Str × ℕ)
group_if true (some t) key = some (key, t)
group_if true none key = none
group_if false thread key = none

abbrev pub SameThread : Option (Str × ℕ) → Option (Str × ℕ) → Type 0
SameThread (some (k, t)) (some (j, u)) = k ≡ j → t ≡ u
SameThread none g = Unit
SameThread (some _) none = Unit

abbrev free_for : Option ℕ → ℕ → Bool
free_for none t = true
free_for (some u) t = u == t

abbrev group_allowed : Option (Str × ℕ) → List (Str × ℕ) → Bool
group_allowed none groups = true
group_allowed (some (key, t)) groups = free_for (find_group key groups) t

abbrev add_new : Option ℕ → Str → ℕ → List (Str × ℕ) → List (Str × ℕ)
add_new none key t groups = (key, t) ∷ groups
add_new (some _) key t groups = groups

abbrev add_group : Option (Str × ℕ) → List (Str × ℕ) → List (Str × ℕ)
add_group none groups = groups
add_group (some (key, t)) groups = add_new (find_group key groups) key t groups

found_again :
    (k j : Str) (t u : ℕ) (groups : List (Str × ℕ)) (r : Option ℕ)
    → find_group k groups ≡ r
    → free_for r t ≡ true
    → (free_for (find_group j (add_new r k t groups)) u ≡ true)
      ↔ (free_for (find_group j groups) u ≡ true) × (k ≡ j → t ≡ u)
found_again k j t u groups none e h = elim (Bool-cases (list_eq k j)) [
  | inl y ↦
      let same : k ≡ j = (list_eq_iff k j).0 y in
      let f : find_group j groups ≡ none = subst (λ j. find_group j groups ≡ none) same e in
      rw (y, f) (λ a. (refl, λ _. (==_iff t u).0 a), λ p. (==_iff t u).1 (p.1 same))
  | inr n ↦ let ne : k ≢ j = λ e'. let y = (list_eq_iff k j).1 e' in cc in rw n ground arith
]
found_again k j t u groups (some w) e h = (
  λ a. (
    a,
    λ e'.
        let f : find_group j groups ≡ some w = subst (λ j. find_group j groups ≡ some w) e' e in
        let a' : free_for (some w) u ≡ true = subst (λ r. free_for r u ≡ true) f a in
        omega (arith, (==_iff w t).0 h, (==_iff w u).0 a'),
  ),
  λ p. p.0,
)

group_after :
    (g h : Option (Str × ℕ)) (groups : List (Str × ℕ))
    → group_allowed g groups ≡ true
    → (group_allowed h (add_group g groups) ≡ true)
      ↔ (group_allowed h groups ≡ true) × SameThread g h
group_after none h groups e = (λ a. (a, tt), λ p. p.0)
group_after (some (k, t)) none groups e = (λ a. (a, tt), λ p. p.0)
group_after (some (k, t)) (some (j, u)) groups e =
    found_again k j t u groups (find_group k groups) refl e

contains_after :
    (b c : Bool) (i j : ℕ) (xs : List ℕ)
    → ((c && contains j (if b then i ∷ xs else xs)) ≡ false)
      ↔ ((c && contains j xs) ≡ false) × (c ≡ true → b ≡ true → i ≢ j)
contains_after false false i j xs = ground arith
contains_after false true i j xs = ground arith
contains_after true false i j xs = ground arith
contains_after true true i j xs = ground arith

module _ {P : Payloads} {S : Type 0} where
  abbrev pub one_shot : Use P S → Bool
  one_shot u = u.operation.options.one_shot

  -- The non-parallel group that it puts into its thread.
  abbrev pub group_of : Use P S → Option (Str × ℕ)
  group_of u =
      group_if u.operation.options.non_parallel u.thread
        (non_parallel_key_for_operation u.operation)

  -- The earlier use u and the later use v do not repeat a one-shot operation, and do not split a
  -- non-parallel group over two threads.
  pub record IsCompatible (u v : Use P S) : Type 0 where
    pub once : one_shot v ≡ true → one_shot u ≡ true → u.index ≢ v.index
    pub together : SameThread (group_of u) (group_of v)

  abbrev pub All : (Use P S → Type 0) → List (Use P S) → Type 0
  All p [] = Unit
  All p (u ∷ us) = p u × All p us

  abbrev pub Pairwise : List (Use P S) → Type 0
  Pairwise [] = Unit
  Pairwise (u ∷ us) = All (IsCompatible u) us × Pairwise us

  -- What the constraints ask of an actor, given what was seen before.
  abbrev pub allowed : Use P S → Seen → Bool
  allowed u seen =
      not (one_shot u && contains u.index seen.one_shots) && group_allowed (group_of u) seen.groups

  abbrev pub after : Use P S → Seen → Seen
  after u seen = record {
    one_shots = if one_shot u then u.index ∷ seen.one_shots else seen.one_shots;
    groups = add_group (group_of u) seen.groups;
  }

  abbrev pub step : Use P S → Seen → Option Seen
  step u seen = if allowed u seen then some (after u seen) else none

  -- The constraints alone, over all actors.
  abbrev pub run : List (Use P S) → Seen → Option Seen
  run [] seen = some seen
  run (u ∷ us) seen = and_then (step u seen) (run us)

  allowed_iff :
      (u : Use P S) (seen : Seen)
      → (allowed u seen ≡ true)
        ↔ ((one_shot u && contains u.index seen.one_shots) ≡ false)
          × (group_allowed (group_of u) seen.groups ≡ true)
  allowed_iff u seen =
      both (one_shot u && contains u.index seen.one_shots) (group_allowed (group_of u) seen.groups)
    where
      both : (a b : Bool) → ((not a && b) ≡ true) ↔ (a ≡ false) × (b ≡ true)
      both a b = ground arith

  -- At the start every use is allowed.
  pub allowed-unseen : (u : Use P S) → allowed u (record { one_shots = []; groups = [] }) ≡ true
  allowed-unseen u =
      (allowed_iff u (record { one_shots = []; groups = [] })).1
        (not_seen (one_shot u), no_group (group_of u))
    where
      not_seen : (b : Bool) → (b && false) ≡ false
      not_seen true = refl
      not_seen false = refl

      no_group : (g : Option (Str × ℕ)) → group_allowed g [] ≡ true
      no_group none = refl
      no_group (some g) = refl

  -- After a use, a later one is allowed exactly if it was allowed before and the two are compatible.
  allowed-after :
      (u v : Use P S) (seen : Seen)
      → allowed u seen ≡ true
      → (allowed v (after u seen) ≡ true) ↔ (allowed v seen ≡ true) × IsCompatible u v
  allowed-after u v seen h =
      let (to, from) =
        group_after (group_of u) (group_of v) seen.groups ((allowed_iff u seen).0 h).1 in
      let (to', from') = contains_after (one_shot u) (one_shot v) u.index v.index seen.one_shots in
      (
        λ a.
            let (c, g) = (allowed_iff v (after u seen)).0 a in
            (
              (allowed_iff v seen).1 ((to' c).0, (to g).0),
              record { once = (to' c).1; together = (to g).1 },
            ),
        λ (a, c).
            let (c', g') = (allowed_iff v seen).0 a in
            (allowed_iff v (after u seen)).1 (from' (c', c.once), from (g', c.together)),
      )

  All-and :
      (p q r : Use P S → Type 0)
      → ((u : Use P S) → p u ↔ q u × r u)
      → (us : List (Use P S)) → All p us ↔ All q us × All r us
  All-and p q r h [] = (λ _. (tt, tt), λ _. tt)
  All-and p q r h (u ∷ us) = (
    λ (a, as').
        let (x, y) = (h u).0 a in let (xs, ys) = (All-and p q r h us).0 as' in ((x, xs), (y, ys)),
    λ ((x, xs), (y, ys)). ((h u).1 (x, y), (All-and p q r h us).1 (xs, ys)),
  )

  run-allowed :
      (u : Use P S) (us : List (Use P S)) (seen : Seen)
      → allowed u seen ≡ true
      → run (u ∷ us) seen ≡ run us (after u seen)
  run-allowed u us seen e = ap (λ b. and_then (if b then some (after u seen) else none) (run us)) e

  run-refused :
      (u : Use P S) (us : List (Use P S)) (seen : Seen)
      → allowed u seen ≡ false
      → run (u ∷ us) seen ≡ none
  run-refused u us seen e = ap (λ b. and_then (if b then some (after u seen) else none) (run us)) e

  -- The constraints accept a list of uses exactly if each is allowed at the start and each two are
  -- compatible.
  pub run_iff :
      (us : List (Use P S)) (seen : Seen)
      → ((seen' : Seen) × (run us seen ≡ some seen'))
        ↔ All (λ u. allowed u seen ≡ true) us × Pairwise us
  run_iff [] seen = (λ _. (tt, tt), λ _. (seen, refl))
  run_iff (u ∷ us) seen = elim (Bool-cases (allowed u seen)) [
    | inl e ↦
        let (split, join) =
          All-and (λ v. allowed v (after u seen) ≡ true) (λ v. allowed v seen ≡ true)
            (IsCompatible u) (λ v. allowed-after u v seen e) us in
        let (to, from) = run_iff us (after u seen) in
        (
          λ (seen', r).
              let (alls, pairs) = to (seen', sym (run-allowed u us seen e) ∙ r) in
              let (alls', compatible) = split alls in ((e, alls'), (compatible, pairs)),
          λ ((_, alls'), (compatible, pairs)).
              let (seen', r) = from (join (alls', compatible), pairs) in
              (seen', run-allowed u us seen e ∙ r),
        )
    | inr n ↦ (λ (seen', r). let refused = run-refused u us seen n in cc, λ ((e, _), _). cc)
  ]
