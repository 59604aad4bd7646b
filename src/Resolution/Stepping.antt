-- ===== src/Resolution/Stepping.antt =====
-- One step of one incident.
use amr_fleet_system.Prelude.{
  ◌-ℤ◌, ltb_ℤ, leb_ℤ, Bool, true, false, not, ◌&&◌, ◌≡◌, refl, sym, subst, inr, Option, none, some,
  [], ◌∷◌, length, arith, if_rule,
}
use amr_fleet_system.Prelude.Dict.{lookup, contains, erase, IsUnique}
use amr_fleet_system.Resolution.{
  Way, Strategy, unset, yield, alt_path, Reason, persist, yield_timeout, no_alt_path, alt_timeout,
  deadlock_max, RobotView, Geometry, Incident, victim, IncidentManager, Cycle, give_up, both,
  others_passed, release_ok, alt_done, Outcome, any_moved, other_robots, next_for, note_path,
  with_sig, after_test, alt_judged, step_alt, yield_judged, by_strategy, step_one,
}
use amr_fleet_system.Resolution.Settling.{
  IsRunning, Fixed, fixed, Settled, IsKept, resolve-Settled, give_up-Settled, give_up-active,
}
use amr_fleet_system.Resolution.Falling.{Falls, start_alt-Settled, next_victim-Settled}

unchanged-Settled :
    (inc : Incident) (m : IncidentManager)
    → IsRunning inc
    → Settled (fixed inc) m (record { manager = m; incident = inc; events = [] })
unchanged-Settled inc m run = record {
  same = refl;
  goes_on = inr (refl, run);
  counted = λ k. omega arith;
  cfg = refl;
  next_id = refl;
}

next_for-Settled :
    (c : Cycle) (inc : Incident) (why : Reason) (m : IncidentManager)
    → IsRunning inc
    → IsKept inc m
    → Settled (fixed inc) m (next_for c inc inc why m)
next_for-Settled c inc why m (plan, lt) kept =
    next_victim-Settled (length inc.victims) c inc why m (lt, omega arith) (λ e. plan) kept

next_for-Falls :
    (c : Cycle) (inc : Incident) (m : IncidentManager)
    → IsRunning inc
    → IsKept inc m
    → Falls (next_for c inc) inc m
next_for-Falls c inc m (plan, lt) kept a why =
    next_victim-Settled (length inc.victims) c _ _ m (lt, omega arith) (λ e. absurd cc) kept

-- What follows from a test that does not raise follows from one of its two answers.
pub after_test-all {κ} :
    (P : Outcome → Type κ) (test : Option Bool) (k : Bool → Outcome) (o : Outcome)
    → ((b : Bool) → P (k b))
    → after_test test k ≡ some o
    → P o
after_test-all P none k o h e = cc
after_test-all P (some b) k o h e = let same : k b ≡ o = cc in subst P same (h b)

yield_judged-Settled :
    (c : Cycle) (inc : Incident) (m : IncidentManager) (done : Bool)
    → IsRunning inc
    → IsKept inc m
    → Settled (fixed inc) m (yield_judged c inc m done)
yield_judged-Settled c inc m done run kept =
    let S = Settled (fixed inc) m in
    let others = other_robots (victim inc) inc.robots in
    let elapsed = c.now -ℤ inc.step_started in
    let falls = next_for-Falls c inc m run kept in
    if_rule S done _ _ (λ e. resolve-Settled c.now inc m kept)
      (λ e.
        if_rule S (leb_ℤ m.cfg.escalate_after_s elapsed && not (any_moved c m.cfg inc others)) _ _
          (λ e'. start_alt-Settled (next_for c inc) c inc persist true m run.1 falls)
          (λ e'.
            if_rule S (leb_ℤ m.cfg.yield_timeout_s elapsed) _ _
              (λ e''. start_alt-Settled (next_for c inc) c inc yield_timeout true m run.1 falls)
              (λ e''. unchanged-Settled inc m run)))

alt_judged-Settled :
    (c : Cycle) (inc : Incident) (ok : Bool) (m : IncidentManager) (done : Bool)
    → IsRunning inc
    → IsKept inc m
    → Settled (fixed inc) m (alt_judged c inc ok m done)
alt_judged-Settled c inc ok m done run kept =
    let S = Settled (fixed inc) m in
    let elapsed = c.now -ℤ inc.step_started in
    if_rule S done _ _ (λ e. resolve-Settled c.now inc m kept)
      (λ e.
        if_rule S (not ok && leb_ℤ m.cfg.replan_grace_s elapsed) _ _
          (λ e'. next_for-Settled c inc no_alt_path m run kept)
          (λ e'.
            if_rule S (leb_ℤ m.cfg.alt_path_timeout_s elapsed) _ _
              (λ e''. next_for-Settled c inc alt_timeout m run kept)
              (λ e''. unchanged-Settled inc m run)))

-- What is noted of the path changes neither what is fixed nor the plan.
with_sig-keeps :
    (g : Geometry) (path : Option Way) (inc : Incident)
    → IsRunning inc
    → (fixed (with_sig g path inc) ≡ fixed inc) × IsRunning (with_sig g path inc)
with_sig-keeps g none inc run = (refl, run)
with_sig-keeps g (some []) inc run = (refl, run)
with_sig-keeps g (some (p ∷ rest)) inc run = (refl, run)

note_path-keeps :
    (g : Geometry) (v : Option RobotView) (inc : Incident)
    → IsRunning inc
    → (fixed (note_path g v inc) ≡ fixed inc) × IsRunning (note_path g v inc)
note_path-keeps g none inc run = (refl, run)
note_path-keeps g (some v) inc run = with_sig-keeps g v.path inc run

-- What a step that does not raise does.
abbrev pub Steps : Cycle → Fixed → IncidentManager → Outcome → Type 0
Steps c f m o =
    Settled f m o
    × (ltb_ℤ m.cfg.deadlock_max_s (c.now -ℤ f.detected_at) ≡ true
        → o.manager.active ≡ erase f.id m.active)

abbrev InTime : Cycle → Fixed → IncidentManager → Type 0
InTime c f m = ltb_ℤ m.cfg.deadlock_max_s (c.now -ℤ f.detected_at) ≡ false

step_alt-Steps :
    (c : Cycle) (inc : Incident) (m : IncidentManager) (ok : Option Bool) (o : Outcome)
    → IsRunning inc
    → IsKept inc m
    → InTime c (fixed inc) m
    → step_alt c inc m ok ≡ some o
    → Steps c (fixed inc) m o
step_alt-Steps c inc m none o run kept t e = cc
step_alt-Steps c inc m (some ok) o run kept t e = (
  after_test-all (Settled (fixed inc) m)
      (both (some ok) (alt_done c m.cfg inc (other_robots (victim inc) inc.robots)))
      (alt_judged c inc ok m) o (λ done. alt_judged-Settled c inc ok m done run kept) e,
  λ late. absurd cc,
)

by_strategy-Steps :
    (c : Cycle) (inc : Incident) (m : IncidentManager) (s : Strategy) (o : Outcome)
    → inc.strategy ≡ s
    → IsRunning inc
    → IsKept inc m
    → InTime c (fixed inc) m
    → by_strategy c inc m s ≡ some o
    → Steps c (fixed inc) m o
by_strategy-Steps c inc m unset o e run kept t stepped = absurd (rw e at run.0)
by_strategy-Steps c inc m yield o e run kept t stepped = (
  after_test-all (Settled (fixed inc) m)
      (both (others_passed c m.cfg inc (other_robots (victim inc) inc.robots))
        (some (release_ok c m.cfg inc (other_robots (victim inc) inc.robots))))
      (yield_judged c inc m) o (λ done. yield_judged-Settled c inc m done run kept) stepped,
  λ late. absurd cc,
)
by_strategy-Steps c inc m alt_path o e run kept t stepped =
    let v = lookup (victim inc) c.world.robots in
    let (same, run') = note_path-keeps c.geometry v inc run in
    subst (λ f. Steps c f m o) same
      (step_alt-Steps c (note_path c.geometry v inc) m _ o run'
        (subst (λ f. (contains f.id m.active ≡ true) × IsUnique m.active) (sym same) kept)
        (subst (λ f. InTime c f m) (sym same) t) stepped)

pub step_one-Steps :
    (c : Cycle) (inc : Incident) (m : IncidentManager) (o : Outcome)
    → IsRunning inc
    → IsKept inc m
    → step_one c inc m ≡ some o
    → Steps c (fixed inc) m o
unfolding step_one
step_one-Steps c inc m o run kept stepped =
    if_rule (λ r. (r ≡ some o) → Steps c (fixed inc) m o)
      (ltb_ℤ m.cfg.deadlock_max_s (c.now -ℤ inc.detected_at)) _ _
      (λ late e.
        let same : give_up c.now inc deadlock_max m ≡ o = cc in
        subst (Steps c (fixed inc) m) same (
          give_up-Settled c.now inc deadlock_max m kept,
          λ l. give_up-active c.now inc deadlock_max m,
        ))
      (λ t e. by_strategy-Steps c inc m inc.strategy o refl run kept t e) stepped
