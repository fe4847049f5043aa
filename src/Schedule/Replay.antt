-- ===== src/Schedule/Replay.antt =====
-- What the checks of schedules and of recorded decisions accept.
use lincheck_cpp.Prelude.{
  ℤ, pos, negsuc, int_eq, ℕ, suc, ◌<◌, ◌≡◌, ◌≢◌, ◌↔◌, refl, sym, ap, ◌∙◌, true, false, ==_iff, List,
  [], ◌∷◌, map, ◌⊎◌, inl, inr, Bool-cases, length, Result, ok, err, ◌>>=◌, arith,
}
use lincheck_cpp.Value.{Payloads}
use lincheck_cpp.Scenario.{ExecutionScenario, valid}
use lincheck_cpp.Schedule.{
  ScheduleDecision, is_outside, validate_choices, is_listed, any_outside, is_blank,
  validate_decision, decisions_loop, validate_replay_schedule, schedule_from_decisions,
}

-- The thread is one of `count`.
abbrev pub IsThread : ℕ → ℤ → Type 0
IsThread count (pos n) = n < count
IsThread count (negsuc n) = ⊥

abbrev pub AreThreads : ℕ → List ℤ → Type 0
AreThreads count [] = Unit
AreThreads count (t ∷ ts) = IsThread count t × AreThreads count ts

abbrev pub IsListed : ℤ → List ℤ → Type 0
IsListed t [] = ⊥
IsListed t (x ∷ xs) = (x ≡ t) ⊎ IsListed t xs

outside_iff : (count : ℕ) (t : ℤ) → (is_outside count t ≡ false) ↔ IsThread count t
outside_iff count (pos n) = ground arith
outside_iff count (negsuc n) = (λ e. cc, λ h. absurd h)

any_outside_iff : (count : ℕ) (ts : List ℤ) → (any_outside count ts ≡ false) ↔ AreThreads count ts
any_outside_iff count [] = (λ _. tt, λ _. refl)
any_outside_iff count (t ∷ ts) = ground (arith, outside_iff count t, any_outside_iff count ts)

int_eq_iff : (a b : ℤ) → (int_eq a b ≡ true) ↔ (a ≡ b)
int_eq_iff (pos a) (pos b) = (λ e. ap pos ((==_iff a b).0 e), λ e. (==_iff a b).1 cc)
int_eq_iff (pos a) (negsuc b) = (λ e. cc, λ e. cc)
int_eq_iff (negsuc a) (pos b) = (λ e. cc, λ e. cc)
int_eq_iff (negsuc a) (negsuc b) = (λ e. ap negsuc ((==_iff a b).0 e), λ e. (==_iff a b).1 cc)

is_listed_iff : (t : ℤ) (ts : List ℤ) → (is_listed t ts ≡ true) ↔ IsListed t ts
is_listed_iff t [] = (λ e. cc, λ h. absurd h)
is_listed_iff t (x ∷ ts) = ground (arith, int_eq_iff x t, is_listed_iff t ts)

validate_choices_iff :
    (count : ℕ) (schedule : List ℤ)
    → (validate_choices count schedule ≡ ok tt) ↔ AreThreads count schedule
unfolding validate_choices
validate_choices_iff count [] = (λ _. tt, λ _. refl)
validate_choices_iff count (t ∷ schedule) =
    ground (arith, outside_iff count t, validate_choices_iff count schedule)

-- A recorded decision that can be replayed as the i-th.
pub record IsReplayable (count i : ℕ) (decision : ScheduleDecision) : Type 0 where
  pub position : decision.switch_position ≡ i
  pub location : decision.location ≢ []
  pub chosen : IsThread count decision.chosen_thread
  pub listed : IsListed decision.chosen_thread decision.runnable_threads
  pub runnable : AreThreads count decision.runnable_threads

blank_iff : (s : List ℕ) → (is_blank s ≡ false) ↔ (s ≢ [])
blank_iff [] = (λ e. cc, λ n. absurd (n refl))
blank_iff (c ∷ s) = (λ _ e. cc, λ _. refl)

validate_decision_iff :
    (count i : ℕ) (d : ScheduleDecision)
    → (validate_decision count i d ≡ ok tt) ↔ IsReplayable count i d
unfolding validate_decision
validate_decision_iff count i d = ground (
  arith,
  blank_iff d.location,
  outside_iff count d.chosen_thread,
  is_listed_iff d.chosen_thread d.runnable_threads,
  any_outside_iff count d.runnable_threads,
)

ok_inj : {E A : Type 0} {a b : A} → ◌≡◌ {A = Result E A} (ok a) (ok b) → a ≡ b
ok_inj e = cc

bind_iff :
    {E A B : Type 0} (m : Result E A) (f : A → Result E B) (b : B)
    → ((m >>= f) ≡ ok b) ↔ ((a : A) × (m ≡ ok a) × (f a ≡ ok b))
bind_iff (ok a) f b = (λ e. (a, refl, e), λ (a', e, e'). let e'' = ap f (ok_inj e) in e'' ∙ e')
bind_iff (err e) f b = (λ h. cc, λ (a, h, _). cc)

abbrev pub AreReplayable : ℕ → ℕ → List ScheduleDecision → Type 0
AreReplayable count i [] = Unit
AreReplayable count i (d ∷ ds) = IsReplayable count i d × AreReplayable count (suc i) ds

abbrev pub chosen_threads : List ScheduleDecision → List ℤ
chosen_threads = map (λ (d : ScheduleDecision). d.chosen_thread)

decisions_loop_iff :
    (count i : ℕ) (ds : List ScheduleDecision) (schedule : List ℤ)
    → (decisions_loop count i ds ≡ ok schedule)
      ↔ AreReplayable count i ds × (schedule ≡ chosen_threads ds)
unfolding decisions_loop
decisions_loop_iff count i [] schedule = (λ e. (tt, sym (ok_inj e)), λ (_, e). ap ok (sym e))
decisions_loop_iff count i (d ∷ ds) schedule = (
  λ e.
      let (u, v, e') = (bind_iff (validate_decision count i d) _ schedule).0 e in
      let (rest, r, e'') = (bind_iff (decisions_loop count (suc i) ds) _ schedule).0 e' in
      let (all, same) = (decisions_loop_iff count (suc i) ds rest).0 r in
      (
        ((validate_decision_iff count i d).0 v, all),
        sym (ok_inj e'') ∙ ap (λ s. d.chosen_thread ∷ s) same,
      ),
  λ ((good, all), same). (bind_iff (validate_decision count i d) _ schedule).1 (
    tt,
    (validate_decision_iff count i d).1 good,
    (bind_iff (decisions_loop count (suc i) ds) _ schedule).1 (
      chosen_threads ds,
      (decisions_loop_iff count (suc i) ds (chosen_threads ds)).1 (all, refl),
      ap ok (sym same),
    ),
  ),
)

module _ {P : Payloads} (scenario : ExecutionScenario P) where
  abbrev count : ℕ
  count = length scenario.parallel

  -- A schedule can be replayed exactly if the scenario has a parallel actor, the schedule is not
  -- empty, and all its choices are threads of the scenario.
  pub validate_replay_schedule_iff :
      (schedule : List ℤ)
      → (validate_replay_schedule scenario schedule ≡ ok tt)
        ↔ (valid scenario ≡ true) × (schedule ≢ []) × AreThreads count schedule
  unfolding validate_replay_schedule
  validate_replay_schedule_iff [] = elim (Bool-cases (valid scenario)) [
    | inl v ↦ rw v (λ e. cc, λ (_, n, _). absurd (n refl))
    | inr v ↦ rw v (λ e. cc, λ (e, _, _). cc)
  ]
  validate_replay_schedule_iff (t ∷ schedule) =
      let (to, from) = validate_choices_iff count (t ∷ schedule) in
      elim (Bool-cases (valid scenario)) [
        | inl v ↦ rw v (λ e. (refl, (λ n. cc), to e), λ (_, _, h). from h)
        | inr v ↦ rw v (λ e. cc, λ (e, _, _). cc)
      ]

  -- Recorded decisions give a schedule exactly if the scenario has a parallel actor, there are
  -- decisions, and the i-th says that it is the i-th, names its location, and chose one of the
  -- threads that it lists, all of them threads of the scenario. The schedule is what they chose.
  pub schedule_from_decisions_iff :
      (decisions : List ScheduleDecision) (schedule : List ℤ)
      → (schedule_from_decisions scenario decisions ≡ ok schedule)
        ↔ (valid scenario ≡ true)
          × (decisions ≢ [])
          × AreReplayable count 0 decisions
          × (schedule ≡ chosen_threads decisions)
  unfolding schedule_from_decisions
  schedule_from_decisions_iff [] schedule = elim (Bool-cases (valid scenario)) [
    | inl v ↦ rw v (λ e. cc, λ (_, n, _, _). absurd (n refl))
    | inr v ↦ rw v (λ e. cc, λ (e, _, _, _). cc)
  ]
  schedule_from_decisions_iff (d ∷ ds) schedule =
      let (to, from) = decisions_loop_iff count 0 (d ∷ ds) schedule in
      elim (Bool-cases (valid scenario)) [
        | inl v ↦
            rw v (λ e. let (a, s) = to e in (refl, (λ n. cc), a, s), λ (_, _, a, s). from (a, s))
        | inr v ↦ rw v (λ e. cc, λ (e, _, _, _). cc)
      ]

  chosen-AreThreads :
      (i : ℕ) (ds : List ScheduleDecision)
      → AreReplayable count i ds
      → AreThreads count (chosen_threads ds)
  chosen-AreThreads i [] h = tt
  chosen-AreThreads i (d ∷ ds) (h, hs) = (h.chosen, chosen-AreThreads (suc i) ds hs)

  chosen_nonempty : (ds : List ScheduleDecision) → ds ≢ [] → chosen_threads ds ≢ []
  chosen_nonempty [] n = absurd (n refl)
  chosen_nonempty (d ∷ ds) n = λ e. cc

  -- A schedule that is taken from recorded decisions can be replayed.
  pub from_decisions_replays :
      (decisions : List ScheduleDecision) (schedule : List ℤ)
      → schedule_from_decisions scenario decisions ≡ ok schedule
      → validate_replay_schedule scenario schedule ≡ ok tt
  from_decisions_replays decisions schedule e =
      let (v, n, all, same) = (schedule_from_decisions_iff decisions schedule).0 e in
      rw same (
        (validate_replay_schedule_iff (chosen_threads decisions)).1
          (v, chosen_nonempty decisions n, chosen-AreThreads 0 decisions all))
