-- ===== src/Resolution/Manager.antt =====
-- The operations of `IncidentManager`. A changed incident is written back where the source has one object
-- in two places.
use amr_fleet_system.Prelude.{
  ℕ, ℤ, pos, ◌-ℤ◌, ltb_ℤ, leb_ℤ, Bool, true, false, not, ◌&&◌, ◌||◌, ◌==◌, Option, none, some, List,
  [], ◌∷◌, ◌++◌, length, any, if◌then◌else◌,
}
use amr_fleet_system.Prelude.Dict.{Dict, lookup, contains, insert, keys, values}
use amr_fleet_system.Prelude.Sorting.{sorted_by}
use amr_fleet_system.Deadlock.Confirmer.{sorted_set}
use amr_fleet_system.Resolution.Types.{
  Point, Way, Strategy, yield, persist, yield_timeout, no_alt_path, alt_timeout, deadlock_max,
  ResolutionConfig, RobotView, intent_path, KeepoutMask, Geometry, Incident, victim,
  ResolutionEvent, Until, at_time, forever, IncidentManager, Cycle, Outcome,
}
use amr_fleet_system.Resolution.Passing.{
  both, other_robots, passed, others_passed, release_ok, any_moved, last_point,
}
use amr_fleet_system.Resolution.Strategies.{lookup_set, erase_set, reset_robot, resolve, give_up}
use amr_fleet_system.Resolution.Ladder.{Next, start_alt, next_victim}

-- `__init__`
abbrev pub new_manager : ResolutionConfig → IncidentManager
new_manager cfg = record {
  cfg = cfg;
  active = [];
  next_id = 1;
  robot_attempts = [];
  anchor = [];
  cooldown = [];
  stuck = [];
  history = [];
}

-- `active`
unfoldable pub active_incidents : IncidentManager → List Incident
active_incidents m = sorted_by (λ inc. pos inc.incident_id ∷ []) (values m.active)

-- `members`
abbrev robots_of : List Incident → List ℕ
robots_of [] = []
robots_of (inc ∷ rest) = inc.robots ++ robots_of rest

unfoldable pub members : IncidentManager → List ℕ
members m = sorted_set (robots_of (values m.active))

abbrev pub before_end : ℤ → Option Until → Bool
before_end now none = false
before_end now (some forever) = true
before_end now (some (at_time t)) = ltb_ℤ now t

unfoldable pub in_cooldown : List ℕ → ℤ → IncidentManager → Bool
in_cooldown robots now m = before_end now (lookup_set (sorted_set robots) m.cooldown)

abbrev robots_of_sets : List (List ℕ × List ℕ) → List ℕ
robots_of_sets [] = []
robots_of_sets ((sig, immobile) ∷ rest) = sig ++ robots_of_sets rest

unfoldable pub suppressed : IncidentManager → List ℕ
suppressed m = sorted_set (robots_of_sets m.stuck)

abbrev pub attempts_of : ℕ → IncidentManager → ℕ
attempts_of r m = elim (lookup r m.robot_attempts) [ none ↦ 0 | some n ↦ n ]

-- `intent_remaining_m`
abbrev pub length_of : Geometry → Option Way → Option ℤ
length_of g none = none
length_of g (some []) = none
length_of g (some (p ∷ [])) = none
length_of g (some (p ∷ q ∷ more)) = some (g.total_length (p ∷ q ∷ more))

abbrev pub remaining : Cycle → Option RobotView → Option ℤ
remaining c none = none
remaining c (some v) = length_of c.geometry (intent_path v)

abbrev pub shorter_by : ℤ → Option ℤ → Option ℤ → Bool
shorter_by reset none a = false
shorter_by reset (some rem) none = false
shorter_by reset (some rem) (some a) = ltb_ℤ rem (a -ℤ reset)

abbrev pub observe_each : Cycle → List ℕ → IncidentManager → IncidentManager
observe_each c [] m = m
observe_each c (r ∷ rs) m =
    let nearer =
      shorter_by m.cfg.progress_reset_m (remaining c (lookup r c.world.robots))
        (lookup r m.anchor) in
    observe_each c rs (if nearer then reset_robot r m else m)

unfoldable pub observe_progress : Cycle → IncidentManager → IncidentManager
unfolding reset_robot
observe_progress c m = observe_each c (keys m.anchor) m

abbrev pub is_mobile : Option RobotView → Bool
is_mobile none = false
is_mobile (some v) = v.mobile

-- The robot is gone or can move again.
abbrev pub is_free : Option RobotView → Bool
is_free none = true
is_free (some v) = v.mobile

abbrev pub retry_stuck : Cycle → List (List ℕ × List ℕ) → IncidentManager → IncidentManager
retry_stuck c [] m = m
retry_stuck c ((sig, immobile) ∷ rest) m = retry_stuck c rest (
    if any (λ r. is_free (lookup r c.world.robots)) immobile
    then record m { stuck = erase_set sig m.stuck; cooldown = erase_set sig m.cooldown }
    else m)

-- The first half of `step`.
unfoldable pub refresh : Cycle → IncidentManager → IncidentManager
unfolding observe_progress
refresh c m = let m₁ = observe_progress c m in retry_stuck c m₁.stuck m₁

abbrev same_point : Point → Point → Bool
same_point p q = leb_ℤ p.0 q.0 && leb_ℤ q.0 p.0 && leb_ℤ p.1 q.1 && leb_ℤ q.1 p.1

abbrev same_sig : ℕ × Point × Point → ℕ × Point × Point → Bool
same_sig a b = (a.0 == b.0) && same_point a.1 b.1 && same_point a.2 b.2

abbrev sig_changed : ℕ × Point × Point → Option (ℕ × Point × Point) → Bool
sig_changed sig none = false
sig_changed sig (some old) = not (same_sig sig old)

-- The victim has been given another way.
abbrev pub with_sig : Geometry → Option Way → Incident → Incident
with_sig g none inc = inc
with_sig g (some []) inc = inc
with_sig g (some (p ∷ rest)) inc =
    let sig : ℕ × Point × Point = (length (p ∷ rest), g.round3 p, g.round3 (last_point p rest)) in
    record inc {
      victim_replanned = inc.victim_replanned || sig_changed sig inc.victim_path_sig;
      victim_path_sig = some sig;
    }

abbrev pub note_path : Geometry → Option RobotView → Incident → Incident
note_path g none inc = inc
note_path g (some v) inc = with_sig g v.path inc

-- Whether the victim's way keeps off the mask; without a mask, and on an empty way, of which there are no
-- samples, the source raises.
abbrev pub way_ok : Geometry → Option Way → Option KeepoutMask → Option Bool
way_ok g none mask = some true
way_ok g (some path) none = none
way_ok g (some []) (some mask) = none
way_ok g (some (p ∷ rest)) (some mask) =
    some (not (any (g.blocks mask) (g.resample_half (p ∷ rest) mask.spec.resolution)))

abbrev pub plan_ok : Geometry → Option RobotView → Option KeepoutMask → Option Bool
plan_ok g none mask = some true
plan_ok g (some v) mask = if v.active then way_ok g v.path mask else some true

abbrev pub drives : Option RobotView → Bool
drives none = false
drives (some v) = v.active && v.mobile

abbrev pub victim_passed : Cycle → ResolutionConfig → Incident → Option RobotView → Option Bool
victim_passed c cfg inc none = some true
victim_passed c cfg inc (some v) = passed c cfg (some (victim inc)) inc v

abbrev pub alt_done : Cycle → ResolutionConfig → Incident → List ℕ → Option Bool
alt_done c cfg inc others =
    if any (λ r. drives (lookup r c.world.robots)) others
    then both (others_passed c cfg inc others) (some (release_ok c cfg inc others))
    else victim_passed c cfg inc (lookup (victim inc) c.world.robots)

abbrev pub unchanged : Incident → IncidentManager → Outcome
unchanged inc m = record { manager = m; incident = inc; events = [] }

-- As many victims as there are is enough fuel.
abbrev pub next_for : Cycle → Incident → Next
next_for c inc = next_victim (length inc.victims) c

-- What follows from a test, unless it raises.
abbrev pub after_test : Option Bool → (Bool → Outcome) → Option Outcome
after_test none k = none
after_test (some b) k = some (k b)

abbrev pub yield_judged : Cycle → Incident → IncidentManager → Bool → Outcome
yield_judged c inc m done =
    let others = other_robots (victim inc) inc.robots in
    let elapsed = c.now -ℤ inc.step_started in
    if done
    then resolve c.now inc m
    else if leb_ℤ m.cfg.escalate_after_s elapsed && not (any_moved c m.cfg inc others)
    then start_alt (next_for c inc) c inc persist true m
    else if leb_ℤ m.cfg.yield_timeout_s elapsed
    then start_alt (next_for c inc) c inc yield_timeout true m
    else unchanged inc m

abbrev pub step_yield : Cycle → Incident → IncidentManager → Option Outcome
step_yield c inc m =
    let others = other_robots (victim inc) inc.robots in
    after_test (both (others_passed c m.cfg inc others) (some (release_ok c m.cfg inc others)))
      (yield_judged c inc m)

abbrev pub alt_judged : Cycle → Incident → Bool → IncidentManager → Bool → Outcome
alt_judged c inc ok m done =
    let elapsed = c.now -ℤ inc.step_started in
    if done
    then resolve c.now inc m
    else if not ok && leb_ℤ m.cfg.replan_grace_s elapsed
    then next_for c inc inc no_alt_path m
    else if leb_ℤ m.cfg.alt_path_timeout_s elapsed
    then next_for c inc inc alt_timeout m
    else unchanged inc m

abbrev pub step_alt : Cycle → Incident → IncidentManager → Option Bool → Option Outcome
step_alt c inc m none = none
step_alt c inc m (some ok) =
    after_test (both (some ok) (alt_done c m.cfg inc (other_robots (victim inc) inc.robots)))
      (alt_judged c inc ok m)

abbrev pub by_strategy : Cycle → Incident → IncidentManager → Strategy → Option Outcome
by_strategy c inc m yield = step_yield c inc m
by_strategy c inc m s =
    let v = lookup (victim inc) c.world.robots in
    step_alt c (note_path c.geometry v inc) m (plan_ok c.geometry v inc.mask)

-- `_step_one`; `none` is an exception.
unfoldable pub step_one : Cycle → Incident → IncidentManager → Option Outcome
unfolding give_up resolve start_alt next_victim passed others_passed release_ok any_moved
step_one c inc m =
    if ltb_ℤ m.cfg.deadlock_max_s (c.now -ℤ inc.detected_at)
    then some (give_up c.now inc deadlock_max m)
    else by_strategy c inc m inc.strategy

abbrev pub stored : Incident → Dict Incident → Dict Incident
stored inc d = if contains inc.incident_id d then insert inc.incident_id inc d else d

abbrev pub store : Incident → IncidentManager → IncidentManager
store inc m = record m { active = stored inc m.active }

abbrev pub Stepped : Type 0
Stepped = IncidentManager × List ResolutionEvent

abbrev pub followed : List ResolutionEvent → Option Stepped → Option Stepped
followed events none = none
followed events (some (m, more)) = some (m, events ++ more)

abbrev pub after : Option Outcome → (Outcome → Option Stepped) → Option Stepped
after none k = none
after (some o) k = followed o.events (k o)

unfoldable pub step_each : Cycle → List Incident → IncidentManager → Option Stepped
unfolding step_one
step_each c [] m = some (m, [])
step_each c (inc ∷ rest) m =
    after (step_one c inc m) (λ o. step_each c rest (store o.incident o.manager))

unfoldable pub step : Cycle → IncidentManager → Option Stepped
unfolding refresh active_incidents step_each
step c m = let m₁ = refresh c m in step_each c (active_incidents m₁) m₁
