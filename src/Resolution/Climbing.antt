-- ===== src/Resolution/Climbing.antt =====
-- An incident climbs: it never comes back to a strategy of a victim.
use amr_fleet_system.Prelude.{
  ℕ, suc, zero, ◌+◌, ◌≤◌, ◌<◌, ◌-ℤ◌, ltb_ℤ, leb_ℤ, Bool, true, not, ◌&&◌, ◌≡◌, refl, ◌≢◌, subst,
  ◌∙◌, ◌⊎◌, inl, inr, Option, none, some, [], ◌∷◌, length, arith, if_rule,
}
use amr_fleet_system.Prelude.Dict.{lookup}
use amr_fleet_system.Resolution.Stepping.{after_test-all}
use amr_fleet_system.Resolution.Settling.{HasPlan, IsRunning}
use amr_fleet_system.Resolution.{
  Way, Strategy, unset, yield, alt_path, Reason, persist, yield_timeout, no_alt_path, alt_timeout,
  deadlock_max, no_route, RobotView, Pocket, KeepoutMask, Geometry, Incident, victim,
  IncidentManager, Cycle, Outcome, others_passed, release_ok, any_moved, resolve, give_up,
  other_robots, add_attempt, start_alt, retryable, retried, advanced, next_victim, next_for,
  note_path, with_sig, plan_ok, alt_done, alt_judged, step_alt, both, yield_judged, by_strategy,
  step_one,
}
use amr_fleet_system.Resolution.Rungs.{rung, start_alt-IsAbove, changed-IsAbove, next_victim-rises}

-- No strategy has been begun, and the incident stands where it stood; or it has risen.
abbrev pub Climbs : Incident → Outcome → Type 0
Climbs inc o =
    ((o.incident.attempts ≡ inc.attempts) × (rung o.incident ≡ rung inc))
    ⊎ (rung inc < rung o.incident)

retried-Climbs :
    (c : Cycle) (inc : Incident) (why : Reason) (m : IncidentManager)
    → Climbs inc (retried c inc why m)
unfolding give_up
retried-Climbs c inc why m =
    if_rule (Climbs inc) (ltb_ℤ (c.now -ℤ inc.detected_at) m.cfg.deadlock_max_s) _ _
      (λ e. inl (refl, refl)) (λ e. inl (refl, refl))

next_victim-Climbs :
    (n : ℕ) (c : Cycle) (inc : Incident) (why : Reason) (m : IncidentManager)
    → inc.victim_index < length inc.victims
    → length inc.victims ≤ inc.victim_index + n
    → inc.strategy ≡ alt_path
    → Climbs inc (next_victim n c inc why m)
unfolding next_victim
next_victim-Climbs zero c inc why m lt fuel alt = absurd (omega arith)
next_victim-Climbs (suc n) c inc why m lt fuel alt =
    if_rule (Climbs inc) (retryable inc why) _ _ (λ e. retried-Climbs c inc why m)
      (λ e.
        let higher = changed-IsAbove n c inc why m (λ lt' a w.
          let further =
            next_victim-rises n c (add_attempt a (advanced inc)) (no_route w) m lt' (omega arith)
              refl in
          omega (arith, further)) in
        let level : rung inc ≡ inc.victim_index + inc.victim_index + 1 = rw alt refl in
        inr (omega (arith, higher, level)))

yield_judged-Climbs :
    (c : Cycle) (inc : Incident) (m : IncidentManager) (done : Bool)
    → inc.victim_index < length inc.victims
    → inc.strategy ≡ yield
    → Climbs inc (yield_judged c inc m done)
unfolding resolve
yield_judged-Climbs c inc m done lt gives_way =
    let others = other_robots (victim inc) inc.robots in
    let elapsed = c.now -ℤ inc.step_started in
    let below : rung inc ≡ inc.victim_index + inc.victim_index = rw gives_way refl in
    let up : (why : Reason) → Climbs inc (start_alt (next_for c inc) c inc why true m) = λ why.
      let higher =
        start_alt-IsAbove (inc.victim_index + inc.victim_index + 1) (next_for c inc) c inc why true
          m (omega arith)
          (λ a w.
            let further =
              next_victim-rises (length inc.victims) c (add_attempt a inc) (no_route w) m lt
                (omega arith) refl in
            omega (arith, further)) in
      inr (omega (arith, higher, below)) in
    if_rule (Climbs inc) done _ _ (λ e. inl (refl, refl))
      (λ e.
        if_rule (Climbs inc)
          (leb_ℤ m.cfg.escalate_after_s elapsed && not (any_moved c m.cfg inc others)) _ _
          (λ e'. up persist)
          (λ e'.
            if_rule (Climbs inc) (leb_ℤ m.cfg.yield_timeout_s elapsed) _ _ (λ e''. up yield_timeout)
              (λ e''. inl (refl, refl))))

alt_judged-Climbs :
    (c : Cycle) (inc : Incident) (ok : Bool) (m : IncidentManager) (done : Bool)
    → inc.victim_index < length inc.victims
    → inc.strategy ≡ alt_path
    → Climbs inc (alt_judged c inc ok m done)
unfolding resolve
alt_judged-Climbs c inc ok m done lt around =
    let elapsed = c.now -ℤ inc.step_started in
    let up : (why : Reason) → Climbs inc (next_for c inc inc why m) =
      λ why. next_victim-Climbs (length inc.victims) c inc why m lt (omega arith) around in
    if_rule (Climbs inc) done _ _ (λ e. inl (refl, refl))
      (λ e.
        if_rule (Climbs inc) (not ok && leb_ℤ m.cfg.replan_grace_s elapsed) _ _
          (λ e'. up no_alt_path)
          (λ e'.
            if_rule (Climbs inc) (leb_ℤ m.cfg.alt_path_timeout_s elapsed) _ _
              (λ e''. up alt_timeout) (λ e''. inl (refl, refl))))

-- What is noted of the path leaves the incident where it is.
abbrev SameRung : Incident → Incident → Type 0
SameRung inc inc' =
    (inc'.attempts ≡ inc.attempts)
    × (inc'.strategy ≡ inc.strategy)
    × (inc'.victim_index ≡ inc.victim_index)
    × (inc'.victims ≡ inc.victims)

with_sig-SameRung :
    (g : Geometry) (path : Option Way) (inc : Incident) → SameRung inc (with_sig g path inc)
with_sig-SameRung g none inc = (refl, refl, refl, refl)
with_sig-SameRung g (some []) inc = (refl, refl, refl, refl)
with_sig-SameRung g (some (p ∷ rest)) inc = (refl, refl, refl, refl)

note_path-SameRung :
    (g : Geometry) (v : Option RobotView) (inc : Incident) → SameRung inc (note_path g v inc)
note_path-SameRung g none inc = (refl, refl, refl, refl)
note_path-SameRung g (some v) inc = with_sig-SameRung g v.path inc

step_alt-Climbs :
    (c : Cycle) (inc inc' : Incident) (m : IncidentManager) (ok : Option Bool) (o : Outcome)
    → SameRung inc inc'
    → inc.victim_index < length inc.victims
    → inc.strategy ≡ alt_path
    → step_alt c inc' m ok ≡ some o
    → Climbs inc o
step_alt-Climbs c inc inc' m none o same lt around e = cc
step_alt-Climbs c inc inc' m (some ok) o (attempts, strategy, index, victims) lt around e =
    let climbs : Climbs inc' o =
      after_test-all (Climbs inc')
        (both (some ok) (alt_done c m.cfg inc' (other_robots (victim inc') inc'.robots)))
        (alt_judged c inc' ok m) o
        (λ done. alt_judged-Climbs c inc' ok m done (rw (index, victims) lt) (strategy ∙ around))
        e in
    let level : rung inc' ≡ rung inc = rw (strategy, index) refl in
    elim climbs [
      | inl (a, r) ↦ inl (a ∙ attempts, r ∙ level)
      | inr higher ↦ inr (omega (arith, higher, level))
    ]

by_strategy-Climbs :
    (c : Cycle) (inc : Incident) (m : IncidentManager) (s : Strategy) (o : Outcome)
    → inc.strategy ≡ s
    → s ≢ unset
    → inc.victim_index < length inc.victims
    → by_strategy c inc m s ≡ some o
    → Climbs inc o
by_strategy-Climbs c inc m unset o is_s known lt e = absurd (known refl)
by_strategy-Climbs c inc m yield o is_s known lt e =
    after_test-all (Climbs inc)
      (both (others_passed c m.cfg inc (other_robots (victim inc) inc.robots))
        (some (release_ok c m.cfg inc (other_robots (victim inc) inc.robots))))
      (yield_judged c inc m) o (λ done. yield_judged-Climbs c inc m done lt is_s) e
by_strategy-Climbs c inc m alt_path o is_s known lt e =
    let v = lookup (victim inc) c.world.robots in
    step_alt-Climbs c inc (note_path c.geometry v inc) m (plan_ok c.geometry v inc.mask) o
      (note_path-SameRung c.geometry v inc) lt is_s e

plan-known : (s : Strategy) (p : Option Pocket) (k : Option KeepoutMask) → HasPlan s p k → s ≢ unset
plan-known unset p k plan e = plan
plan-known yield p k plan e = cc
plan-known alt_path p k plan e = cc

-- In a step of an incident that has a plan and a victim, if it does not raise, either no strategy is begun and the incident keeps its strategy and its
-- victim, or it rises: from giving way to going around, or to a later victim. So no strategy of a victim is
-- taken up again.
pub step_one-Climbs :
    (c : Cycle) (inc : Incident) (m : IncidentManager) (o : Outcome)
    → IsRunning inc
    → step_one c inc m ≡ some o
    → Climbs inc o
unfolding step_one give_up
step_one-Climbs c inc m o (plan, lt) e =
    if_rule (λ r. (r ≡ some o) → Climbs inc o)
      (ltb_ℤ m.cfg.deadlock_max_s (c.now -ℤ inc.detected_at)) _ _
      (λ late e'.
        let same : give_up c.now inc deadlock_max m ≡ o = cc in
        subst (Climbs inc) same (inl (refl, refl)))
      (λ t e'.
        by_strategy-Climbs c inc m inc.strategy o refl
          (plan-known inc.strategy inc.pocket inc.mask plan) lt e')
      e
