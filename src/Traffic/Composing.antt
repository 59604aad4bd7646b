-- ===== src/Traffic/Composing.antt =====
-- The commands of a cycle, put together from the incidents, the tokens and the crossings, and the watch over
-- long waits for tokens.
use amr_fleet_system.Prelude.{
  ℕ, ℤ, Bool, true, false, not, ◌&&◌, Option, none, some, List, [], ◌∷◌, any, all, member,
  if◌then◌else◌,
}
use amr_fleet_system.Prelude.Dict.{Dict, lookup, keys}
use amr_fleet_system.Zones.{TokenDecision}
use amr_fleet_system.Resolution.{Point, RobotView, KeepoutMask, IncidentCommand}

pub data HoldReason : Type 0 where
  no_hold : HoldReason
  yield_hold : (incident : ℕ) → HoldReason
  zone_hold : (zones : List ℕ) → HoldReason
  crossing_hold : (other : ℕ) → HoldReason

pub record RobotCommand : Type 0 where
  pub hold : Bool
  pub reason : HoldReason
  pub yield_pose : Option (Point × ℤ)
  pub keepout : Option KeepoutMask
  pub incident_id : ℕ

abbrev pub no_command : RobotCommand
no_command = record {
  hold = false;
  reason = no_hold;
  yield_pose = none;
  keepout = none;
  incident_id = 0;
}

abbrev pub is_stale : Option RobotView → Bool
is_stale none = false
is_stale (some v) = v.stale

-- The mask keeps the robot out of the zones that it waits for, and every robot that blocks them is seen.
abbrev pub masked_by : Dict RobotView → TokenDecision → Option KeepoutMask → List ℕ → Bool
masked_by views dec none zones = false
masked_by views dec (some mask) zones =
    all (λ z. member z zones) dec.zones && not (any (λ b. is_stale (lookup b views)) dec.blockers)

abbrev pub is_masked : Dict RobotView → TokenDecision → Option IncidentCommand → Bool
is_masked views dec none = false
is_masked views dec (some x) = masked_by views dec x.keepout x.masked_zones

-- The hold for a token, or else for a crossing.
abbrev pub held_for :
    Dict RobotView
    → Option IncidentCommand
    → Option TokenDecision
    → Option ℕ
    → RobotCommand
    → RobotCommand
held_for views x none none cmd = cmd
held_for views x none (some o) cmd = record cmd { hold = true; reason = crossing_hold o }
held_for views x (some dec) crossing cmd =
    if is_masked views dec x then cmd else record cmd { hold = true; reason = zone_hold dec.zones }

abbrev pub command_for :
    Dict RobotView → Option IncidentCommand → Option TokenDecision → Option ℕ → RobotCommand
command_for views none wait crossing = held_for views none wait crossing no_command
command_for views (some x) wait crossing =
    let cmd : RobotCommand = record no_command {
      incident_id = x.incident_id;
      keepout = x.keepout;
      yield_pose = x.yield_pose;
    } in
    if x.hold
    then record cmd { hold = true; reason = yield_hold x.incident_id }
    else held_for views (some x) wait crossing cmd

unfoldable pub compose_each :
    Bool
    → Dict RobotView
    → Dict IncidentCommand
    → Dict TokenDecision
    → Dict ℕ
    → List ℕ
    → Dict RobotCommand
compose_each active views incs waits crossing [] = []
compose_each active views incs waits crossing (r ∷ rest) =
    let more = compose_each active views incs waits crossing rest in
    (
      r,
      if active
          then command_for views (lookup r incs) (lookup r waits) (lookup r crossing)
          else no_command,
    )
    ∷ more

-- `_compose`
unfoldable pub compose :
    Bool → Dict RobotView → Dict IncidentCommand → Dict TokenDecision → Dict ℕ → Dict RobotCommand
unfolding compose_each
compose active views incs waits crossing =
    compose_each active views incs waits crossing (keys views)
