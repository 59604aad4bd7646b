-- ===== src/Traffic/Tests.antt =====
-- Three robots in a circle at crossings, a robot with a mask, and a long wait.
use amr_fleet_system.Prelude.{
  ℕ, ◌≤◌, ℤ, pos, ◌-ℤ◌, true, false, ◌≡◌, refl, ◌⊎◌, none, some, List, [], ◌∷◌,
}
use amr_fleet_system.Prelude.Dict.{Dict, lookup}
use amr_fleet_system.Prelude.Sorting.{sorted_by}
use amr_fleet_system.Deadlock.Confirmer.{sorted_set}
use amr_fleet_system.Zones.{ZoneTokenManager, TokenDecision, entered_by, new_manager as no_tokens}
use amr_fleet_system.Resolution.{new_manager as no_incidents, members}
use amr_fleet_system.Resolution.Tests.{cfg}
use amr_fleet_system.Resolution.{
  crossing, RobotView, GridSpec, KeepoutMask, Geometry, ZoneMap, IncidentCommand,
}
use amr_fleet_system.Traffic.{
  CrossingParams, scene_of, pinned_robots, Conflict, CrossLatch, Scene, crossing_holds, no_command,
  RobotCommand, compose, WatchParams, Watch, token_watch,
}
use amr_fleet_system.Traffic.Chains.{IsAcyclic}
use amr_fleet_system.Traffic.Holding.{crossing_holds-IsAcyclic}
use amr_fleet_system.Traffic.Pinning.{crossing_holds-free}
use amr_fleet_system.Traffic.Commands.{IsCovered, compose-held}
use amr_fleet_system.Traffic.Alerts.{stalls, failures, watch_all, token_watch-once}

abbrev spec : GridSpec
spec = record { resolution = pos 50; origin = (pos 0, pos 0); width = 10; height = 10 }

abbrev mask : KeepoutMask
mask = record { spec = spec; data_rows = [] }

-- Nothing is near anything.
abbrev far : Geometry
far = record {
  hypot = λ x y. x;
  round3 = λ p. p;
  total_length = λ way. pos 9000;
  project = λ way p. (p.0, pos 0);
  sub_path = λ way a b. way;
  distance_to_path = λ p way. pos 5000;
  resample_half = λ way r. way;
  blocks = λ m p. false;
  draw_mask = λ s way a b blockers zones xy. mask;
  route_exists = λ g a b m. true;
  find_yield_pocket = λ g a others ways pockets taken held zones. none;
  predict_trajectory = λ r xy yaw way horizon. record { robot = r; samples = [] };
  find_conflict = λ a b. none;
}

abbrev no_zones : ZoneMap
no_zones = record { zones_at = λ way. []; zone_at = λ p. none; zone_visits = λ way. [] }

abbrev robot : ℕ → ℤ → RobotView
robot id priority = record {
  robot_id = id;
  xy = (pos 0, pos 0);
  yaw = pos 0;
  path = some ((pos 0, pos 0) ∷ (pos 9000, pos 0) ∷ []);
  active = true;
  priority = priority;
  deadline = none;
  zones = [];
  intent = none;
  mobile = true;
  stale = false;
}

abbrev three : Dict RobotView
three = (1, robot 1 (pos 1)) ∷ (2, robot 2 (pos 1)) ∷ (3, robot 3 (pos 1)) ∷ []

-- Robot 3 is in a zone by now.
abbrev views : Dict RobotView
views =
    (1, robot 1 (pos 1))
    ∷ (2, robot 2 (pos 1))
    ∷ (3, record (robot 3 (pos 1)) { zones = 9 ∷ [] })
    ∷ []

abbrev params : CrossingParams
params = record {
  crossing_min_s = pos 1;
  crossing_act_s = pos 4;
  crossing_max_hold_s = pos 15;
  safety_distance = pos 1020;
}

abbrev tokens : ZoneTokenManager
tokens = no_tokens [] 3 (pos 0)

abbrev scene : Scene
scene =
    scene_of far params (pos 100) views no_zones true (1 ∷ 2 ∷ 3 ∷ []) [] [] tokens
      (no_incidents cfg)

abbrev meeting : ℕ → ℕ → Conflict
meeting a b = record {
  robot_a = a;
  robot_b = b;
  kind = crossing;
  t_a = pos 3;
  t_b = pos 3;
  at = (pos 2000, pos 0);
}

-- The latches of the cycles before: 2 yielded to 3, and 3 to 1.
abbrev old_latches : List (List ℕ × CrossLatch)
old_latches =
    (2 ∷ 3 ∷ [], record { yielder = 2; other = 3; since = pos 95 })
    ∷ (1 ∷ 3 ∷ [], record { yielder = 3; other = 1; since = pos 95 })
    ∷ []

abbrev meetings : List Conflict
meetings = meeting 2 3 ∷ meeting 1 2 ∷ meeting 1 3 ∷ []

-- 1 yields to 3 now, 2 still yields to 3, and neither 3 nor a circle is held.
held_robots : (crossing_holds scene meetings old_latches).0 ≡ (2, 3) ∷ (1, 3) ∷ []
unfolding crossing_holds sorted_by ◌-ℤ◌ sorted_set pinned_robots members entered_by
held_robots = refl

crossing_holds-IsAcyclic_example : IsAcyclic (crossing_holds scene meetings old_latches).0
crossing_holds-IsAcyclic_example = crossing_holds-IsAcyclic scene meetings old_latches

crossing_holds-free_example : ((robot 1 (pos 1)).zones ≡ []) × (entered_by 1 tokens ≡ [])
unfolding crossing_holds sorted_by ◌-ℤ◌ sorted_set pinned_robots members entered_by
crossing_holds-free_example =
    crossing_holds-free far params (pos 100) views no_zones true (1 ∷ 2 ∷ 3 ∷ []) [] [] tokens
      (no_incidents cfg) meetings old_latches 1 3 (robot 1 (pos 1)) refl refl

-- Robot 1 waits for zone 4, which its mask covers.
abbrev wait : ℤ → TokenDecision
wait t = record { granted = false; zones = 4 ∷ []; blockers = 2 ∷ []; waiting_s = t; bypassed = 0 }

abbrev around : IncidentCommand
around = record {
  incident_id = 8;
  hold = false;
  yield_pose = none;
  keepout = some mask;
  masked_zones = 4 ∷ 5 ∷ [];
}

abbrev told_around : RobotCommand
told_around = record no_command { incident_id = 8; keepout = some mask }

compose-held_example :
    (told_around.hold ≡ true)
    ⊎ IsCovered three (wait (pos 9)) (lookup 1 ((1, around) ∷ [])) told_around
unfolding compose
compose-held_example =
    compose-held three ((1, around) ∷ []) ((1, wait (pos 9)) ∷ []) [] 1 (wait (pos 9)) told_around
      refl refl

abbrev watch_params : WatchParams
watch_params = record { token_wait_stall_s = pos 30; wait_max_s = pos 120 }

abbrev long_wait : List (List ℕ × Dict TokenDecision)
long_wait =
    ([], (1, wait (pos 29)) ∷ [])
    ∷ ([], (1, wait (pos 30)) ∷ [])
    ∷ ([], (1, wait (pos 31)) ∷ [])
    ∷ ([], (1, wait (pos 120)) ∷ [])
    ∷ ([], (1, wait (pos 121)) ∷ [])
    ∷ []

abbrev no_watch : Watch
no_watch = record { levels = []; events = []; unresolved = 0 }

told_once :
    (stalls 1 (watch_all watch_params long_wait no_watch).events ≡ 1)
    × (failures 1 (watch_all watch_params long_wait no_watch).events ≡ 1)
unfolding token_watch sorted_by
told_once = (refl, refl)

token_watch-once_example :
    (stalls 1 (watch_all watch_params long_wait no_watch).events ≤ 1)
    × (failures 1 (watch_all watch_params long_wait no_watch).events ≤ 1)
token_watch-once_example =
    token_watch-once watch_params 1 long_wait [] (refl, (refl, (refl, (refl, (refl, tt)))))
