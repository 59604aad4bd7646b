-- ===== src/Resolution/Rungs.antt =====
-- How high an incident stands after a change of its strategy or its victim.
use amr_fleet_system.Prelude.{
  ℕ, suc, zero, ◌+◌, ◌≤◌, ◌<◌, ℤ, Bool, true, false, not, ◌||◌, ◌==◌, leb, ◌≡◌, refl, Option, none,
  some, length, any, arith, if_rule, if◌then◌else◌,
}
use amr_fleet_system.Prelude.Dict.{lookup, contains}
use amr_fleet_system.Resolution.{
  Strategy, unset, yield, alt_path, Reason, others_parked, no_pocket, no_route, exhausted, Attempt,
  Pocket, KeepoutMask, Incident, victim, IncidentManager, Cycle, Outcome, give_up, other_robots,
  is_active, add_attempt, Next, alt_started, alt_mask, start_alt, yield_pocket, yield_started,
  start_yield, is_slow, reversed, advanced, next_victim,
}

-- Two rungs for each victim: to give way, and to go around.
abbrev pub rung_of : Strategy → ℕ → ℕ
rung_of alt_path i = i + i + 1
rung_of unset i = i + i
rung_of yield i = i + i

abbrev pub rung : Incident → ℕ
rung inc = rung_of inc.strategy inc.victim_index

rung_of-le : (s : Strategy) (i : ℕ) → i + i ≤ rung_of s i
rung_of-le unset i = omega arith
rung_of-le yield i = omega arith
rung_of-le alt_path i = omega arith

-- The outcome stands at least this high.
abbrev pub IsAbove : ℕ → Outcome → Type 0
IsAbove low o = low ≤ rung o.incident

give_up-IsAbove :
    (low : ℕ) (now : ℤ) (inc : Incident) (why : Reason) (m : IncidentManager)
    → low ≤ rung inc
    → IsAbove low (give_up now inc why m)
unfolding give_up
give_up-IsAbove low now inc why m h = h

alt_started-IsAbove :
    (low : ℕ) (next : Next) (c : Cycle) (inc : Incident) (why : Reason) (announce : Bool)
    (m : IncidentManager) (mask : Option KeepoutMask)
    → low ≤ inc.victim_index + inc.victim_index + 1
    → ((a : Attempt) (w : Reason) → IsAbove low (next (add_attempt a inc) (no_route w) m))
    → IsAbove low (alt_started next c inc why announce m mask)
alt_started-IsAbove low next c inc why announce m none h falls = falls _ why
alt_started-IsAbove low next c inc why announce m (some mask) h falls = h

pub start_alt-IsAbove :
    (low : ℕ) (next : Next) (c : Cycle) (inc : Incident) (why : Reason) (announce : Bool)
    (m : IncidentManager)
    → low ≤ inc.victim_index + inc.victim_index + 1
    → ((a : Attempt) (w : Reason) → IsAbove low (next (add_attempt a inc) (no_route w) m))
    → IsAbove low (start_alt next c inc why announce m)
unfolding start_alt
start_alt-IsAbove low next c inc why announce m =
    alt_started-IsAbove low next c inc why announce m (alt_mask c inc m)

yield_started-IsAbove :
    (low : ℕ) (next : Next) (c : Cycle) (inc : Incident) (m : IncidentManager)
    (found : Option (Pocket × Bool))
    → low ≤ inc.victim_index + inc.victim_index
    → ((a : Attempt) (w : Reason) → IsAbove low (next (add_attempt a inc) (no_route w) m))
    → IsAbove low (yield_started next c inc m found)
yield_started-IsAbove low next c inc m none h falls =
    start_alt-IsAbove low next c inc no_pocket true m (omega arith) falls
yield_started-IsAbove low next c inc m (some (p, true)) h falls = h
yield_started-IsAbove low next c inc m (some (p, false)) h falls = h

start_yield-IsAbove :
    (low : ℕ) (next : Next) (c : Cycle) (inc : Incident) (m : IncidentManager)
    → low ≤ inc.victim_index + inc.victim_index
    → ((a : Attempt) (w : Reason) → IsAbove low (next (add_attempt a inc) (no_route w) m))
    → IsAbove low (start_yield next c inc m)
unfolding start_yield
start_yield-IsAbove low next c inc m h falls =
    if_rule (IsAbove low)
      (any (λ r. is_active (lookup r c.world.robots)) (other_robots (victim inc) inc.robots)) _ _
      (λ e. yield_started-IsAbove low next c inc m (yield_pocket c inc m) h falls)
      (λ e. start_alt-IsAbove low next c inc others_parked false m (omega arith) falls)

reversed-IsAbove :
    (low : ℕ) (now : ℤ) (why : Reason) (who : ℕ) (o : Outcome)
    → IsAbove low o
    → IsAbove low (reversed now why who o)
reversed-IsAbove low now why who o h =
    if_rule (IsAbove low)
      (not (contains o.incident.incident_id o.manager.active) || not (victim o.incident == who)) _ _
      (λ e. h) (λ e. h)

-- The victim changes, or there is none left.
pub changed-IsAbove :
    (n : ℕ) (c : Cycle) (inc : Incident) (why : Reason) (m : IncidentManager)
    → ((suc inc.victim_index < length inc.victims)
        → (a : Attempt) (w : Reason)
        → IsAbove
            (inc.victim_index + inc.victim_index + 2)
            (next_victim n c (add_attempt a (advanced inc)) (no_route w) m))
    → IsAbove (inc.victim_index + inc.victim_index + 2) (
        if leb (length inc.victims) (suc inc.victim_index)
        then give_up c.now (advanced inc) (exhausted why) m
        else reversed c.now why
            (victim (advanced inc))
            (start_yield (next_victim n c) c (advanced inc) m))
changed-IsAbove n c inc why m rises =
    let low = inc.victim_index + inc.victim_index + 2 in
    if_rule (IsAbove low) (leb (length inc.victims) (suc inc.victim_index)) _ _
      (λ last.
        give_up-IsAbove low c.now (advanced inc) (exhausted why) m
          (omega (arith, rung_of-le inc.strategy (suc inc.victim_index))))
      (λ more.
        reversed-IsAbove low c.now why (victim (advanced inc))
          (start_yield (next_victim n c) c (advanced inc) m)
          (start_yield-IsAbove low (next_victim n c) c (advanced inc) m (omega arith)
            (rises (ground arith))))

-- A victim that has no way is followed by one higher up.
pub next_victim-rises :
    (n : ℕ) (c : Cycle) (inc : Incident) (why : Reason) (m : IncidentManager)
    → inc.victim_index < length inc.victims
    → length inc.victims ≤ inc.victim_index + n
    → is_slow why ≡ false
    → IsAbove (inc.victim_index + inc.victim_index + 2) (next_victim n c inc why m)
unfolding next_victim
next_victim-rises zero c inc why m lt fuel quick = absurd (omega arith)
next_victim-rises (suc n) c inc why m lt fuel quick = rw quick (
    changed-IsAbove n c inc why m (λ lt' a w.
      let higher =
        next_victim-rises n c (add_attempt a (advanced inc)) (no_route w) m lt' (omega arith)
          refl in
      omega (arith, higher)))
