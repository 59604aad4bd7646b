-- ===== src/Resolution/Ladder.antt =====
-- The strategies one after the other, for one victim after the other.
use amr_fleet_system.Prelude.{
  ℕ, zero, suc, ℤ, pos, ◌-ℤ◌, ltb_ℤ, leb_ℤ, Bool, true, false, not, ◌&&◌, ◌||◌, ◌==◌, Option, none,
  some, List, [], ◌∷◌, ◌++◌, length, any, filter, member, leb, if◌then◌else◌,
}
use amr_fleet_system.Prelude.Dict.{Dict, lookup, contains}
use amr_fleet_system.Resolution.Types.{
  Point, Way, Strategy, unset, yield, alt_path, escalated, Reason, others_parked, no_pocket,
  no_alt_path, alt_timeout, no_route, exhausted, yield_into_zone, yield_attempt, alt_attempt,
  alt_no_route, RobotView, intent_path, Pocket, KeepoutMask, TraversabilityGrid, Geometry, Incident,
  victim, IncidentManager, Cycle, Outcome,
}
use amr_fleet_system.Resolution.Passing.{other_robots, points_but, build_keepout_mask, last_point}
use amr_fleet_system.Resolution.Strategies.{event, pocket_of, give_up, begin, add_attempt}

abbrev pub is_active : Option RobotView → Bool
is_active none = false
is_active (some v) = v.active

-- `_clip`
abbrev pub clip : Geometry → ℤ → Way → Way
clip g len [] = []
clip g len (p ∷ []) = p ∷ []
clip g len (p ∷ q ∷ more) =
    let path = p ∷ q ∷ more in
    if leb_ℤ (g.total_length path) len then path else g.sub_path path (pos 0) len

-- The ways of the robots that drive, but the victim's.
abbrev pub ways_of_others : Geometry → ℤ → ℕ → Dict RobotView → List Way
ways_of_others g len v [] = []
ways_of_others g len v ((r, view) ∷ rest) =
    let more = ways_of_others g len v rest in
    elim (intent_path view) [
      | none ↦ more
      | some path ↦ if not (r == v) && view.active then clip g len path ∷ more else more
    ]

abbrev pub places_of_others : ℕ → Dict RobotView → List Point
places_of_others v [] = []
places_of_others v ((r, view) ∷ rest) =
    let more = places_of_others v rest in if r == v then more else view.xy ∷ more

-- The pockets that other incidents have taken.
abbrev pub reserved_pockets : ℕ → Dict Incident → List Point
reserved_pockets id [] = []
reserved_pockets id ((k, inc) ∷ rest) =
    let more = reserved_pockets id rest in
    elim inc.pocket [ none ↦ more | some p ↦ if k == id then more else p.xy ∷ more ]

abbrev pub zones_of_others : ℕ → Dict (List ℕ) → List ℕ
zones_of_others v [] = []
zones_of_others v ((r, zs) ∷ rest) =
    let more = zones_of_others v rest in if r == v then more else zs ++ more

-- The pocket, and whether it lies in a zone.
abbrev pub pocket_or : (Bool → Option Pocket) → Bool → Option Pocket → Option (Pocket × Bool)
pocket_or search_with into_zone (some p) = some (p, false)
pocket_or search_with false none = none
pocket_or search_with true none = elim (search_with true) [ none ↦ none | some p ↦ some (p, true) ]

abbrev pub pocket_for :
    Cycle
    → Incident
    → IncidentManager
    → Option TraversabilityGrid
    → Option RobotView
    → Option (Pocket × Bool)
pocket_for c inc m none v = none
pocket_for c inc m (some grid) none = none
pocket_for c inc m (some grid) (some v) =
    let who = victim inc in
    let w = c.world in
    let held = filter (λ z. not (member z v.zones)) (zones_of_others who w.held_zones) in
    let search_with =
      c.geometry.find_yield_pocket grid v.xy (places_of_others who w.robots)
        (ways_of_others c.geometry m.cfg.pocket_path_horizon_m who w.robots) w.pockets
        (reserved_pockets inc.incident_id m.active) held in
    pocket_or search_with m.cfg.pocket_into_zone (search_with false)

unfoldable pub yield_pocket : Cycle → Incident → IncidentManager → Option (Pocket × Bool)
yield_pocket c inc m = pocket_for c inc m c.world.tgrid (lookup (victim inc) c.world.robots)

-- The zones of the others, if none of them can move.
abbrev pub others_views : Cycle → List ℕ → List RobotView
others_views c [] = []
others_views c (r ∷ rs) =
    let more = others_views c rs in
    elim (lookup r c.world.robots) [ none ↦ more | some v ↦ v ∷ more ]

abbrev pub zones_union : List RobotView → List ℕ
zones_union [] = []
zones_union (v ∷ vs) = v.zones ++ zones_union vs

abbrev pub stuck_zones : List RobotView → List ℕ
stuck_zones views = if any (λ v. v.mobile) views then [] else zones_union views

-- A mask that leaves no way to the goal is dropped.
abbrev pub passable_mask :
    Cycle
    → RobotView
    → Option TraversabilityGrid
    → Option Way
    → Option KeepoutMask
    → Option KeepoutMask
passable_mask c v grid path none = none
passable_mask c v none path (some mask) = some mask
passable_mask c v (some grid) none (some mask) = some mask
passable_mask c v (some grid) (some path) (some mask) =
    if c.geometry.route_exists grid v.xy (last_point v.xy path) (some mask) then some mask else none

abbrev pub mask_for : Cycle → Incident → IncidentManager → Option RobotView → Option KeepoutMask
mask_for c inc m none = none
mask_for c inc m (some v) =
    let who = victim inc in
    if v.active
    then passable_mask c v c.world.tgrid (intent_path v) (
        build_keepout_mask c m.cfg v (points_but (some who) inc.contested_points)
          inc.contested_zones (stuck_zones (others_views c (other_robots who inc.robots))))
    else none

unfoldable pub alt_mask : Cycle → Incident → IncidentManager → Option KeepoutMask
unfolding build_keepout_mask
alt_mask c inc m = mask_for c inc m (lookup (victim inc) c.world.robots)

abbrev pub is_yield : Strategy → Bool
is_yield yield = true
is_yield unset = false
is_yield alt_path = false

abbrev pub is_no_pocket : Reason → Bool
is_no_pocket no_pocket = true
is_no_pocket _ = false

-- What happens once the victim has no way either.
abbrev pub Next : Type 0
Next = Incident → Reason → IncidentManager → Outcome

abbrev pub alt_started :
    Next → Cycle → Incident → Reason → Bool → IncidentManager → Option KeepoutMask → Outcome
alt_started next c inc why announce m none =
    next (add_attempt (alt_no_route (victim inc) why) inc) (no_route why) m
alt_started next c inc why announce m (some mask) =
    let inc' =
      add_attempt (alt_attempt (victim inc) why)
        (record (begin c alt_path inc) { pocket = none; mask = some mask }) in
    record {
      manager = m;
      incident = inc';
      events =
          if announce && (is_yield inc.strategy || is_no_pocket why)
          then record (event escalated inc' c.now) { reason = some why; strategy = some alt_path }
            ∷ []
          else [];
    }

-- `_start_alt`
unfoldable pub start_alt : Next → Cycle → Incident → Reason → Bool → IncidentManager → Outcome
unfolding alt_mask
start_alt next c inc why announce m = alt_started next c inc why announce m (alt_mask c inc m)

abbrev pub yield_started :
    Next → Cycle → Incident → IncidentManager → Option (Pocket × Bool) → Outcome
yield_started next c inc m none = start_alt next c inc no_pocket true m
yield_started next c inc m (some (p, into_zone)) =
    let who = victim inc in
    let tried = if into_zone then add_attempt (yield_into_zone who) inc else inc in
    let inc' = record (begin c yield tried) { pocket = some p; mask = none } in
    record { manager = m; incident = add_attempt (yield_attempt who) inc'; events = [] }

-- `_start_yield`
unfoldable pub start_yield : Next → Cycle → Incident → IncidentManager → Outcome
unfolding start_alt yield_pocket
start_yield next c inc m =
    if any (λ r. is_active (lookup r c.world.robots)) (other_robots (victim inc) inc.robots)
    then yield_started next c inc m (yield_pocket c inc m)
    else start_alt next c inc others_parked false m

-- `reason in ('no_alt_path', 'alt_timeout')`
abbrev pub is_slow : Reason → Bool
is_slow no_alt_path = true
is_slow alt_timeout = true
is_slow _ = false

abbrev pub retryable : Incident → Reason → Bool
retryable inc why = is_slow why && (length inc.victims == 1) && inc.victim_replanned

-- The change of the victim is told unless the new one has failed at once.
abbrev pub reversed : ℤ → Reason → ℕ → Outcome → Outcome
reversed now why who o =
    if not (contains o.incident.incident_id o.manager.active) || not (victim o.incident == who)
    then o
    else record o {
      events =
          record (event escalated o.incident now) {
            reason = some why;
            strategy = some o.incident.strategy;
            pocket = pocket_of o.incident;
          }
          ∷ o.events;
    }

abbrev pub dropped : Incident → Incident
dropped inc = record inc { pocket = none; mask = none }

abbrev pub advanced : Incident → Incident
advanced inc = record (dropped inc) { victim_index = suc inc.victim_index }

abbrev pub retried : Cycle → Incident → Reason → IncidentManager → Outcome
retried c inc why m =
    if ltb_ℤ (c.now -ℤ inc.detected_at) m.cfg.deadlock_max_s
    then record { manager = m; incident = record inc { step_started = c.now }; events = [] }
    else give_up c.now inc (exhausted why) m

-- `_next_victim`, on fuel for the victims that are left.
unfoldable pub next_victim : ℕ → Cycle → Next
unfolding start_yield give_up
next_victim zero c inc why m = record { manager = m; incident = dropped inc; events = [] }
next_victim (suc n) c inc why m =
    let inc' = advanced inc in
    let rest = start_yield (next_victim n c) c inc' m in
    if retryable inc why
    then retried c inc why m
    else if leb (length inc.victims) inc'.victim_index
    then give_up c.now inc' (exhausted why) m
    else reversed c.now why (victim inc') rest
