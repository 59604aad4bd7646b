-- ===== src/Resolution/Falling.antt =====
-- The strategies one after the other: whoever has no way is followed by another, or the incident ends.
use amr_fleet_system.Prelude.{
  ℕ, zero, suc, ◌+◌, ◌≤◌, ◌<◌, ◌-ℤ◌, ltb_ℤ, ℤ, Bool, true, false, not, ◌&&◌, ◌||◌, ◌==◌, ◌≡◌, refl,
  inr, Option, none, some, [], ◌∷◌, length, leb, arith, any, if_rule,
}
use amr_fleet_system.Prelude.Dict.{lookup, contains}
use amr_fleet_system.Resolution.{
  Reason, Attempt, Pocket, KeepoutMask, Incident, victim, ResolutionEvent, IncidentManager, Cycle,
  Outcome, is_yield, is_no_pocket, add_attempt, Next, alt_started, start_alt, yield_started,
  start_yield, is_slow, retryable, retried, reversed, advanced, next_victim, yield_pocket, alt_mask,
  other_robots, is_active, others_parked, no_pocket, no_route, exhausted,
}
use amr_fleet_system.Resolution.Settling.{
  is_ending, endings, present, HasPlan, IsRunning, Fixed, fixed, Settled, IsKept, give_up-Settled,
}

restarted-Settled :
    (now : ℤ) (inc : Incident) (m : IncidentManager)
    → IsRunning inc
    → Settled
        (fixed inc)
        m
        (record { manager = m; incident = record inc { step_started = now }; events = [] })
restarted-Settled now inc m run = record {
  same = refl;
  goes_on = inr (refl, run);
  counted = λ k. omega arith;
  cfg = refl;
  next_id = refl;
}

retried-Settled :
    (c : Cycle) (inc : Incident) (why : Reason) (m : IncidentManager)
    → IsRunning inc
    → IsKept inc m
    → Settled (fixed inc) m (retried c inc why m)
retried-Settled c inc why m run kept =
    if_rule (Settled (fixed inc) m) (ltb_ℤ (c.now -ℤ inc.detected_at) m.cfg.deadlock_max_s) _ _
      (λ e. restarted-Settled c.now inc m run)
      (λ e. give_up-Settled c.now inc (exhausted why) m kept)

told-Settled :
    (e : ResolutionEvent) (f : Fixed) (m : IncidentManager) (o : Outcome)
    → is_ending e.kind ≡ false
    → Settled f m o
    → Settled f m (record o { events = e ∷ o.events })
told-Settled e f m o quiet h = record {
  same = h.same;
  goes_on = h.goes_on;
  counted = λ k. rw quiet (h.counted k);
  cfg = h.cfg;
  next_id = h.next_id;
}

reversed-Settled :
    (now : ℤ) (why : Reason) (who : ℕ) (f : Fixed) (m : IncidentManager) (o : Outcome)
    → Settled f m o
    → Settled f m (reversed now why who o)
reversed-Settled now why who f m o h =
    if_rule (Settled f m)
      (not (contains o.incident.incident_id o.manager.active) || not (victim o.incident == who)) _ _
      (λ e. h) (λ e. told-Settled _ f m o refl h)

-- The victim has no way, whatever is added to the attempts.
abbrev pub Falls : Next → Incident → IncidentManager → Type 0
Falls next inc m =
    (a : Attempt) (why : Reason) → Settled (fixed inc) m (next (add_attempt a inc) (no_route why) m)

alt_started-Settled :
    (next : Next) (c : Cycle) (inc : Incident) (why : Reason) (announce : Bool)
    (m : IncidentManager) (mask : Option KeepoutMask)
    → inc.victim_index < length inc.victims
    → Falls next inc m
    → Settled (fixed inc) m (alt_started next c inc why announce m mask)
alt_started-Settled next c inc why announce m none lt falls = falls _ why
alt_started-Settled next c inc why announce m (some mask) lt falls = record {
  same = refl;
  goes_on = inr (refl, (tt, lt));
  counted = λ k.
      if_rule (λ es. endings k es + present k m.active ≡ present k m.active)
        (announce && (is_yield inc.strategy || is_no_pocket why)) _ _ (λ e. omega arith)
        (λ e. omega arith);
  cfg = refl;
  next_id = refl;
}

pub start_alt-Settled :
    (next : Next) (c : Cycle) (inc : Incident) (why : Reason) (announce : Bool)
    (m : IncidentManager)
    → inc.victim_index < length inc.victims
    → Falls next inc m
    → Settled (fixed inc) m (start_alt next c inc why announce m)
unfolding start_alt
start_alt-Settled next c inc why announce m =
    alt_started-Settled next c inc why announce m (alt_mask c inc m)

yield_started-Settled :
    (next : Next) (c : Cycle) (inc : Incident) (m : IncidentManager)
    (found : Option (Pocket × Bool))
    → inc.victim_index < length inc.victims
    → Falls next inc m
    → Settled (fixed inc) m (yield_started next c inc m found)
yield_started-Settled next c inc m none lt falls =
    start_alt-Settled next c inc no_pocket true m lt falls
yield_started-Settled next c inc m (some (p, true)) lt falls = record {
  same = refl;
  goes_on = inr (refl, (tt, lt));
  counted = λ k. omega arith;
  cfg = refl;
  next_id = refl;
}
yield_started-Settled next c inc m (some (p, false)) lt falls = record {
  same = refl;
  goes_on = inr (refl, (tt, lt));
  counted = λ k. omega arith;
  cfg = refl;
  next_id = refl;
}

pub start_yield-Settled :
    (next : Next) (c : Cycle) (inc : Incident) (m : IncidentManager)
    → inc.victim_index < length inc.victims
    → Falls next inc m
    → Settled (fixed inc) m (start_yield next c inc m)
unfolding start_yield
start_yield-Settled next c inc m lt falls =
    if_rule (Settled (fixed inc) m)
      (any (λ r. is_active (lookup r c.world.robots)) (other_robots (victim inc) inc.robots)) _ _
      (λ e. yield_started-Settled next c inc m (yield_pocket c inc m) lt falls)
      (λ e. start_alt-Settled next c inc others_parked false m lt falls)

-- The fuel is enough for the victims that are left.
abbrev pub HasFuel : ℕ → Incident → Type 0
HasFuel n inc =
    (inc.victim_index < length inc.victims) × (length inc.victims ≤ inc.victim_index + n)

pub next_victim-Settled :
    (n : ℕ) (c : Cycle) (inc : Incident) (why : Reason) (m : IncidentManager)
    → HasFuel n inc
    → (is_slow why ≡ true → HasPlan inc.strategy inc.pocket inc.mask)
    → IsKept inc m
    → Settled (fixed inc) m (next_victim n c inc why m)
unfolding next_victim
next_victim-Settled zero c inc why m fuel plan kept = absurd (ground arith)
next_victim-Settled (suc n) c inc why m fuel plan kept =
    if_rule (Settled (fixed inc) m) (retryable inc why) _ _
      (λ e. retried-Settled c inc why m (plan (ground arith), fuel.0) kept)
      (λ e.
        if_rule (Settled (fixed inc) m) (leb (length inc.victims) (suc inc.victim_index)) _ _
          (λ last. give_up-Settled c.now (advanced inc) (exhausted why) m kept)
          (λ more. reversed-Settled c.now why (victim (advanced inc)) (fixed inc) m _ (
            start_yield-Settled (next_victim n c) c (advanced inc) m (ground arith) (λ a w.
              next_victim-Settled n c (add_attempt a (advanced inc)) (no_route w) m (ground arith)
                (λ s. absurd cc) kept))))
