-- ===== src/Resolution/Tests.antt =====
-- Two robots that stand in each other's way, and what becomes of their incident.
use amr_fleet_system.Prelude.{
  ℕ, ◌+◌, ℤ, pos, ◌-ℤ◌, ◌+ℤ◌, ◌≤ℤ◌, ltb_ℤ, true, false, ◌≡◌, refl, Option, none, some, List, [],
  ◌∷◌, ◌++◌, if◌then◌else◌, arith,
}
use amr_fleet_system.Prelude.Dict.{Dict, lookup, contains}
use amr_fleet_system.Resolution.{
  Strategy, yield, alt_path, deadlock, resolved, unresolved, escalated, head_on_kind, deadlock_max,
  ResolutionConfig, RobotView, Pocket, GridSpec, TraversabilityGrid, Geometry, WorldView, Incident,
  victim, ResolutionEvent, IncidentCommand, Cycle, Outcome, give_up, step_one, new_manager,
  in_cooldown, reset_robots, step, Stepped, new_incident, unchanged, open_incident, commands,
}
use amr_fleet_system.Prelude.Sorting.{sorted_by}
use amr_fleet_system.Resolution.Settling.{endings, present}
use amr_fleet_system.Resolution.Sweeping.{IsValid}
use amr_fleet_system.Resolution.Steps.{step-in_time}
use amr_fleet_system.Resolution.Runs.{
  Reach, start, opens, steps, was_opened, Reach-IsValid, Reach-counted,
}
use amr_fleet_system.Resolution.Orders.{IsOrdered, commands-IsOrdered, commands-contains}
use amr_fleet_system.Resolution.Climbing.{Climbs, step_one-Climbs}
use amr_fleet_system.Resolution.Refusals.{give_up-in_cooldown}

-- Times in seconds, lengths in millimetres.
abbrev pub cfg : ResolutionConfig
cfg = record {
  robot_radius = pos 360;
  pocket_into_zone = true;
  pocket_path_horizon_m = pos 12000;
  escalate_after_s = pos 10;
  yield_timeout_s = pos 30;
  replan_grace_s = pos 5;
  alt_path_timeout_s = pos 45;
  deadlock_max_s = pos 120;
  max_attempts_per_robot = 3;
  keepout_half_width_m = pos 600;
  keepout_extend_m = pos 1500;
  keepout_margin_m = pos 200;
  contested_radius_m = pos 1200;
  pass_check_m = pos 6000;
  move_eps_m = pos 500;
  cooldown_s = pos 30;
  progress_reset_m = pos 2000;
  release_check = false;
  release_horizon_s = pos 10;
}

abbrev grid : GridSpec
grid = record { resolution = pos 50; origin = (pos 0, pos 0); width = 100; height = 100 }

abbrev free_grid : TraversabilityGrid
free_grid = record { spec = grid; passable = [] }

abbrev pocket : Pocket
pocket = record { pocket_id = 7; xy = (pos 5000, pos 3000); yaw = pos 0 }

-- Distances along the first axis only, one free pocket, and masks that cover nothing.
abbrev line : Geometry
line = record {
  hypot = λ x y. if ltb_ℤ x (pos 0) then pos 0 -ℤ x else x;
  round3 = λ p. p;
  total_length = λ path. pos 9000;
  project = λ path p. (p.0, pos 0);
  sub_path = λ path a b. path;
  distance_to_path = λ p path. pos 5000;
  resample_half = λ path r. path;
  blocks = λ mask p. false;
  draw_mask = λ spec path a b blockers zones xy. record { spec = grid; data_rows = [] };
  route_exists = λ g a b mask. true;
  find_yield_pocket = λ g a others ways pockets taken held zones. some pocket;
  predict_trajectory = λ r xy yaw path horizon. record { robot = r; samples = [] };
  find_conflict = λ a b. none;
}

abbrev robot_at : ℕ → ℤ → ℤ → ℤ → RobotView
robot_at id x goal priority = record {
  robot_id = id;
  xy = (x, pos 0);
  yaw = pos 0;
  path = some ((x, pos 0) ∷ (goal, pos 0) ∷ []);
  active = true;
  priority = priority;
  deadline = none;
  zones = [];
  intent = none;
  mobile = true;
  stale = false;
}

abbrev world_of : ℤ → ℤ → WorldView
world_of x y = record {
  robots = (1, robot_at 1 x (pos 9000) (pos 5)) ∷ (2, robot_at 2 y (pos 0) (pos 1)) ∷ [];
  zone_map = none;
  tgrid = some free_grid;
  pockets = pocket ∷ [];
  mask_spec = none;
  held_zones = [];
}

abbrev cycle_at : ℤ → Cycle
cycle_at t = record { geometry = line; now = t; world = world_of (pos 1000) (pos 2000) }

abbrev nothing : Stepped
nothing = (new_manager cfg, [])

abbrev or_nothing : Option Stepped → Stepped
or_nothing none = nothing
or_nothing (some r) = r

-- The incident is opened at 100 s, and looked at again at 105 s, 111 s and 230 s.
abbrev opened_at : Stepped
opened_at =
    or_nothing (open_incident (cycle_at (pos 100)) (2 ∷ 1 ∷ []) head_on_kind [] (new_manager cfg))

abbrev after_5_s : Stepped
after_5_s = or_nothing (step (cycle_at (pos 105)) opened_at.0)

abbrev after_11_s : Stepped
after_11_s = or_nothing (step (cycle_at (pos 111)) opened_at.0)

abbrev after_130_s : Stepped
after_130_s = or_nothing (step (cycle_at (pos 230)) opened_at.0)

abbrev kinds : List ResolutionEvent → List (ℕ × ℕ)
kinds [] = []
kinds (e ∷ es) =
    (e.incident_id, elim e.kind [ deadlock ↦ 0 | resolved ↦ 1 | unresolved ↦ 2 | escalated ↦ 3 ])
    ∷ kinds es

abbrev state_of : Incident → Strategy × ℕ
state_of inc = (inc.strategy, victim inc)

abbrev states_of : Dict Incident → List (Strategy × ℕ)
states_of [] = []
states_of ((k, inc) ∷ rest) = state_of inc ∷ states_of rest

-- Robot 2, of the lower priority, gives way; when the other does not move it goes around; after 120 s the
-- incident is given up.
run_ends :
    (kinds opened_at.1 ≡ (1, 0) ∷ [])
    × (states_of opened_at.0.active ≡ (yield, 2) ∷ [])
    × (kinds after_5_s.1 ≡ [])
    × (kinds after_11_s.1 ≡ (1, 3) ∷ [])
    × (states_of after_11_s.0.active ≡ (alt_path, 2) ∷ [])
    × (kinds after_130_s.1 ≡ (1, 2) ∷ [])
    × (states_of after_130_s.0.active ≡ [])
unfolding open_incident step sorted_by ◌-ℤ◌ ◌+ℤ◌ reset_robots
run_ends = (refl, refl, refl, refl, refl, refl, refl)

-- The first incident that is there, the command to a robot, and what 11 seconds do to the incident.
abbrev first_incident : Dict Incident → Option Incident
first_incident [] = none
first_incident ((k, inc) ∷ rest) = some inc

abbrev no_incident : Incident
no_incident = new_incident (cycle_at (pos 0)) [] head_on_kind [] 0

abbrev or_no_incident : Option Incident → Incident
or_no_incident none = no_incident
or_no_incident (some inc) = inc

abbrev incident_of : Stepped → Incident
incident_of r = or_no_incident (first_incident r.0.active)

abbrev no_order : IncidentCommand
no_order = record {
  incident_id = 0;
  hold = false;
  yield_pose = none;
  keepout = none;
  masked_zones = [];
}

abbrev or_no_order : Option IncidentCommand → IncidentCommand
or_no_order none = no_order
or_no_order (some x) = x

abbrev command_to : ℕ → Stepped → IncidentCommand
command_to v r = or_no_order (lookup v (commands r.0))

abbrev or_unchanged : Option Outcome → Outcome
or_unchanged none = unchanged no_incident opened_at.0
or_unchanged (some o) = o

abbrev after_step : Outcome
after_step = or_unchanged (step_one (cycle_at (pos 111)) (incident_of opened_at) opened_at.0)

reach_opened : Reach cfg opened_at.0 ([] ++ opened_at.1)
unfolding open_incident step sorted_by ◌-ℤ◌ ◌+ℤ◌ reset_robots
reach_opened = opens (cycle_at (pos 100)) (2 ∷ 1 ∷ []) head_on_kind [] start refl

reach_11_s : Reach cfg after_11_s.0 (([] ++ opened_at.1) ++ after_11_s.1)
unfolding open_incident step sorted_by ◌-ℤ◌ ◌+ℤ◌ reset_robots
reach_11_s = steps (cycle_at (pos 111)) reach_opened refl

reach_130_s : Reach cfg after_130_s.0 (([] ++ opened_at.1) ++ after_130_s.1)
unfolding open_incident step sorted_by ◌-ℤ◌ ◌+ℤ◌ reset_robots
reach_130_s = steps (cycle_at (pos 230)) reach_opened refl

opened-IsValid : IsValid opened_at.0
opened-IsValid = Reach-IsValid reach_opened

Reach-IsValid_example : IsValid after_11_s.0
Reach-IsValid_example = Reach-IsValid reach_11_s

Reach-counted_example :
    endings 1 (([] ++ opened_at.1) ++ after_130_s.1) + present 1 after_130_s.0.active
    ≡ was_opened after_130_s.0.next_id 1
Reach-counted_example = Reach-counted reach_130_s 1

step-in_time_example : pos 111 -ℤ (incident_of after_11_s).detected_at ≤ℤ pos 120
unfolding open_incident step sorted_by ◌-ℤ◌ ◌+ℤ◌ reset_robots
step-in_time_example =
    step-in_time (cycle_at (pos 111)) opened_at.0 after_11_s 1 (incident_of after_11_s)
      opened-IsValid refl refl

commands-IsOrdered_example : IsOrdered after_11_s.0 2 (command_to 2 after_11_s)
unfolding open_incident step sorted_by ◌-ℤ◌ ◌+ℤ◌ reset_robots commands
commands-IsOrdered_example =
    commands-IsOrdered after_11_s.0 2 (command_to 2 after_11_s) Reach-IsValid_example refl

commands-contains_example : contains 2 (commands after_11_s.0) ≡ true
unfolding open_incident step sorted_by ◌-ℤ◌ ◌+ℤ◌ reset_robots
commands-contains_example =
    commands-contains after_11_s.0 1 (incident_of after_11_s) Reach-IsValid_example refl

step_one-Climbs_example : Climbs (incident_of opened_at) after_step
unfolding open_incident step sorted_by ◌-ℤ◌ ◌+ℤ◌ reset_robots step_one
step_one-Climbs_example =
    step_one-Climbs (cycle_at (pos 111)) (incident_of opened_at) opened_at.0 after_step
      (tt, omega arith) refl

give_up-in_cooldown_example :
    in_cooldown
      (1 ∷ 2 ∷ [])
      (pos 259)
      (give_up (pos 230) (incident_of opened_at) deadlock_max opened_at.0).manager
    ≡ true
unfolding open_incident step sorted_by ◌-ℤ◌ ◌+ℤ◌ reset_robots
give_up-in_cooldown_example =
    give_up-in_cooldown (pos 230) (pos 259) (incident_of opened_at) deadlock_max opened_at.0
      (omega arith)
