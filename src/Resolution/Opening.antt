-- ===== src/Resolution/Opening.antt =====
-- `IncidentManager.open` and `commands`.
use amr_fleet_system.Prelude.{
  ℕ, suc, ℤ, pos, neg_ℤ, true, false, not, ltb, Option, none, some, List, [], ◌∷◌, length, map,
  filter, if◌then◌else◌,
}
use amr_fleet_system.Prelude.Dict.{Dict, lookup, contains, insert}
use amr_fleet_system.Prelude.Sorting.{sorted_by}
use amr_fleet_system.Resolution.Types.{
  Strategy, unset, yield, alt_path, deadlock, no_mobile_victim, too_many_attempts, Reason,
  DeadlockKind, RobotView, rank, intent_path, Pocket, KeepoutMask, Incident, victim,
  ResolutionEvent, IncidentCommand, IncidentManager, Cycle, Outcome,
}
use amr_fleet_system.Resolution.Strategies.{event, pocket_of, give_up}
use amr_fleet_system.Resolution.Ladder.{start_yield, next_victim}
use amr_fleet_system.Resolution.Manager.{
  active_incidents, attempts_of, remaining, is_mobile, store, Stepped,
}

-- The members that the view has, in order.
unfoldable pub known_members : Cycle → List ℕ → List ℕ
known_members c robots =
    sorted_by (λ r. pos r ∷ []) (filter (λ r. contains r c.world.robots) robots)

-- `sorted(..., reverse=True)`: the least important robot comes first.
abbrev pub reverse_rank_of : Option RobotView → List ℤ
reverse_rank_of none = []
reverse_rank_of (some v) = map neg_ℤ (rank v)

abbrev pub reverse_rank : Cycle → ℕ → List ℤ
reverse_rank c r = reverse_rank_of (lookup r c.world.robots)

unfoldable pub mobile_victims : Cycle → List ℕ → List ℕ
mobile_victims c ms =
    sorted_by (reverse_rank c) (filter (λ r. is_mobile (lookup r c.world.robots)) ms)

-- Entries of the view for the members, as the comprehensions of `open` make them.
abbrev pub of_views : {V : Type 0} → Cycle → (RobotView → V) → List ℕ → Dict V
of_views c f [] = []
of_views c f (r ∷ rs) =
    let rest = of_views c f rs in
    elim (lookup r c.world.robots) [ none ↦ rest | some v ↦ (r, f v) ∷ rest ]

-- `victims or list(members)`
abbrev pub or_members : List ℕ → List ℕ → List ℕ
or_members [] ms = ms
or_members (v ∷ vs) ms = v ∷ vs

abbrev pub new_incident : Cycle → List ℕ → DeadlockKind → List ℕ → ℕ → Incident
new_incident c ms kind zones id = record {
  incident_id = id;
  robots = ms;
  kind = kind;
  detected_at = c.now;
  victims = or_members (mobile_victims c ms) ms;
  contested_points = of_views c (λ v. v.xy) ms;
  contested_zones = zones;
  victim_index = 0;
  strategy = unset;
  step_started = pos 0;
  step_positions = [];
  pocket = none;
  mask = none;
  attempts = [];
  original_paths = of_views c intent_path ms;
  immobile = filter (λ r. not (is_mobile (lookup r c.world.robots))) ms;
  victim_path_sig = none;
  victim_replanned = false;
}

abbrev pub anchored : ℕ → Option ℤ → IncidentManager → IncidentManager
anchored r none m = m
anchored r (some rem) m = record m { anchor = insert r rem m.anchor }

unfoldable pub count_attempts : Cycle → List ℕ → IncidentManager → IncidentManager
count_attempts c [] m = m
count_attempts c (r ∷ rs) m = count_attempts c rs (
    anchored r (remaining c (lookup r c.world.robots))
      (record m { robot_attempts = insert r (suc (attempts_of r m)) m.robot_attempts }))

-- `max(members, key=...)`: the first of those with most attempts.
abbrev pub most_tried : IncidentManager → ℕ → List ℕ → ℕ
most_tried m r [] = r
most_tried m r (s ∷ rest) =
    most_tried m (if ltb (attempts_of r m) (attempts_of s m) then s else r) rest

abbrev pub opened : Cycle → Incident → IncidentManager → Outcome
opened c inc m =
    start_yield (next_victim (length inc.victims) c) c inc
      (record m { active = insert inc.incident_id inc m.active })

-- The event of the detection, which is completed once a strategy has begun.
abbrev pub detected : Cycle → Incident → Outcome → ResolutionEvent
detected c inc o = record (event deadlock inc c.now) {
  strategy = some o.incident.strategy;
  victim = victim o.incident;
  attempts = o.incident.attempts;
  pocket = pocket_of o.incident;
}

abbrev pub refused : Cycle → Incident → Reason → IncidentManager → Stepped
refused c inc why m =
    let o = give_up c.now inc why m in (o.manager, event deadlock inc c.now ∷ o.events)

abbrev pub begun : Cycle → Incident → IncidentManager → Stepped
begun c inc m = let o = opened c inc m in (store o.incident o.manager, detected c inc o ∷ o.events)

abbrev pub refused_or_begun : Cycle → Incident → ℕ → IncidentManager → List ℕ → Stepped
refused_or_begun c inc worst m [] = refused c inc no_mobile_victim m
refused_or_begun c inc worst m (v ∷ vs) =
    if ltb m.cfg.max_attempts_per_robot (attempts_of worst m)
    then refused c inc (too_many_attempts worst) m
    else begun c inc m

abbrev pub open_for : Cycle → DeadlockKind → List ℕ → IncidentManager → List ℕ → Option Stepped
open_for c kind zones m [] = none
open_for c kind zones m (r ∷ rest) =
    let inc = new_incident c (r ∷ rest) kind zones m.next_id in
    let m₁ = count_attempts c (r ∷ rest) (record m { next_id = suc m.next_id }) in
    some (refused_or_begun c inc (most_tried m₁ r rest) m₁ (mobile_victims c (r ∷ rest)))

-- `open`; without a member in the view the source raises.
unfoldable pub open_incident :
    Cycle → List ℕ → DeadlockKind → List ℕ → IncidentManager → Option Stepped
unfolding known_members mobile_victims count_attempts give_up start_yield next_victim
open_incident c robots kind zones m = open_for c kind zones m (known_members c robots)

abbrev pub command_of :
    Incident → Strategy → Option Pocket → Option KeepoutMask → Option IncidentCommand
command_of inc yield (some p) mask = some (record {
  incident_id = inc.incident_id;
  hold = true;
  yield_pose = some (p.xy, p.yaw);
  keepout = none;
  masked_zones = [];
})
command_of inc alt_path pocket (some mask) = some (record {
  incident_id = inc.incident_id;
  hold = false;
  yield_pose = none;
  keepout = some mask;
  masked_zones = inc.contested_zones;
})
command_of inc s pocket mask = none

abbrev pub command : Incident → Option IncidentCommand
command inc = command_of inc inc.strategy inc.pocket inc.mask

abbrev pub commanded :
    Incident → Option IncidentCommand → Dict IncidentCommand → Dict IncidentCommand
commanded inc none out = out
commanded inc (some x) out = insert (victim inc) x out

abbrev pub commands_from : List Incident → Dict IncidentCommand → Dict IncidentCommand
commands_from [] out = out
commands_from (inc ∷ rest) out = commands_from rest (commanded inc (command inc) out)

unfoldable pub commands : IncidentManager → Dict IncidentCommand
unfolding active_incidents
commands m = commands_from (active_incidents m) []
