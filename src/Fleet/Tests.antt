-- ===== src/Fleet/Tests.antt =====
-- The node with two robots at a task that comes in, and the theorems there.
use amr_fleet_system.Prelude.{
  if◌then◌else◌, ℕ, ℤ, pos, negsuc, ◌+ℤ◌, ◌-ℤ◌, ◌*ℤ◌, floor_div, true, false, ◌==◌, ◌≡◌, ◌⊎◌, refl,
  ap, none, some, List, [], ◌∷◌, ◌++◌, arith,
}
use amr_fleet_system.Prelude.Dict.{Dict, lookup}
use amr_fleet_system.Prelude.Sorting.{sorted_by, insert_sorted}
use amr_fleet_system.Task.{TaskSpec, Pose2D, small, pending}
use amr_fleet_system.TaskState.{add, emit, update_pose}
use amr_fleet_system.TaskState.Runs.{new_machine}
use amr_fleet_system.Scheduler
use amr_fleet_system.Scheduler.{SchedulerConfig, ordered, sort_key, band, effective_priority}
use amr_fleet_system.Kpi.{assigned, default_busy, fresh, update_robot}
use amr_fleet_system.Latency.{
  start_model, empty_queue, enabled, sample, sample_latency, append_bounded,
}
use amr_fleet_system.Allocation.{
  RobotInfo, select_batch, fill_batch, allocate, pin_all, accept_all, pool_of, proposals, opening,
}
use amr_fleet_system.Fleet.State.{RobotState, Dispatch, Params, Fleet, World}
use amr_fleet_system.Fleet.Tasks.{admit, measure_at, update_kpi_robot, clear_inflight}
use amr_fleet_system.Fleet.Reports.{on_robot_state, reconcile_from_state}
use amr_fleet_system.Fleet.Callbacks.{valid, on_task_request, request_batch_allocation, add_robot}
use amr_fleet_system.Fleet.Rounds.{
  rounds, allocate_round, allocate_once, dispatch_all, dispatch, reserve, deliver, send, send_found,
  abort_dispatch, candidates,
}
use amr_fleet_system.Fleet.Calls.{call_of}
use amr_fleet_system.Fleet.Runs.{Event, discovered, requested, robot_seen, run, run-one_call}
use amr_fleet_system.Fleet.Ends.{allocate_round_ends}

abbrev params : Params
params = record {
  allocation_batch_size = 0;
  allocation_batch_window = pos 0;
  robot_state_timeout = pos 50;
  assign_timeout_s = pos 30;
  assign_reconcile = pos 20;
  reject_backoff = pos 10;
  task_timeout = pos 6000;
}

abbrev config : SchedulerConfig
config = record {
  band_width = 32;
  deadline_weight = pos 1;
  fifo_weight = pos 0;
  age_boost_rate = pos 1;
  age_boost_max = pos 64;
}

abbrev node : Fleet
node = record {
  params = params;
  sm = new_machine none false 0 (pos 20);
  scheduler = record { config = config; tasks = [] };
  kpi = fresh (pos 18000) (pos 1) default_busy assigned;
  latency = start_model false (pos 0) (pos 100) (pos 0) 10;
  robots = [];
  inflight = [];
  sent = [];
  outbox = empty_queue;
  batch_trigger = empty_queue;
  allocating = false;
  realloc_requested = false;
  next_id = 0;
  alerts = [];
  internal_errors = 0;
  invalid_tasks = 0;
  conflicts = 0;
}

-- Tasks and robots are paired as they come.
abbrev paired : List TaskSpec → List RobotInfo → Dict ℕ
paired [] rs = []
paired (t ∷ ts) [] = []
paired (t ∷ ts) (r ∷ rs) = (t.task_id, r.robot_id) ∷ paired ts rs

-- Robot 1 has no service.
abbrev at : ℤ → World
at now = record {
  now = now;
  clock = λ moment k. now;
  max_rounds = 4;
  uniform = λ draw lo hi. lo;
  draws = λ n. (pos 0, pos 0);
  ready = λ k. k == 2;
  answered = λ n. false;
  strategy = paired;
  disk = record { day = 20260922; writable = true };
  hypot = λ x y. x;
}

abbrev origin : Pose2D
origin = record { x = pos 0; y = pos 0; yaw = pos 0; frame_id = "map" }

abbrev box : TaskSpec
box = record {
  task_id = 5;
  pickup = origin;
  dropoff = origin;
  item_type = small;
  item_mass = pos 2;
  priority = pos 5;
  deadline = none;
  robot_id = 0;
  created = pos 3;
  status = pending;
}

abbrev idle_state : RobotState
idle_state = record { position = some (pos 1, pos 1); status = 0; current_task_id = 0 }

-- A task comes in while both robots are idle.
abbrev morning : List (World × Event)
morning =
    (at (pos 0), discovered (negsuc 1000) 1)
    ∷ (at (pos 0), discovered (negsuc 1000) 2)
    ∷ (at (pos 1), robot_seen 1 idle_state)
    ∷ (at (pos 2), robot_seen 2 idle_state)
    ∷ []

abbrev day : List (World × Event)
day = morning ++ (at (pos 3), requested (valid box)) ∷ []

program : Unit {0}
unfolding add_robot on_robot_state reconcile_from_state measure_at update_pose update_kpi_robot
    update_robot on_task_request request_batch_allocation admit add emit Scheduler.push ordered
    sort_key band effective_priority sorted_by insert_sorted allocate_round rounds allocate_once
    dispatch_all dispatch reserve deliver enabled sample sample_latency append_bounded send
    send_found abort_dispatch clear_inflight candidates select_batch fill_batch allocate pin_all
    accept_all pool_of proposals opening floor_div ◌+ℤ◌ ◌-ℤ◌ ◌*ℤ◌
program = tt

-- Robot 1 is called first, and left out because its service is missing; robot 2 gets the task.
abbrev call : Dispatch
call = record {
  identity = 1;
  robot_id = 2;
  command_time = pos 3;
  timeout_at = pos 33;
  delay_s = some (pos 0);
  future = some 2;
  unconfirmed = false;
}

day-inflight : (run day node).inflight ≡ (5, call) ∷ []
unfolding program
day-inflight = refl

day-requested : (run day node).realloc_requested ≡ false
unfolding program
day-requested = refl

run-one_call_example :
    (call_of 2 (run day node).robots ≡ some 5) × (◌≡◌ {A = ℕ} 2 2 → ◌≡◌ {A = ℕ} 5 5)
run-one_call_example =
    run-one_call day node (refl, refl) 5 5 call call (ap (lookup 5) day-inflight)
      (ap (lookup 5) day-inflight)

-- The task is in the queue, and no robot has a service.
abbrev waiting_node : Fleet
waiting_node = (admit (at (pos 3)) box (run morning node)).1

abbrev silent : World
silent = record (at (pos 3)) {
  ready = λ k. false;
  clock = λ moment k. if k == 0 then pos 3 else pos 4;
}

allocate_round_ends_example :
    ((allocate_round silent waiting_node).0 ≡ none)
    ⊎ ((allocate_round silent waiting_node).1.realloc_requested ≡ false)
unfolding program
allocate_round_ends_example =
    allocate_round_ends silent (pos 4) waiting_node refl (λ k. ground arith) (λ k. ground arith)
      (refl, (refl, tt)) (omega arith)

-- With no time to be left out, a round that finds no service asks for the next one each time.
abbrev hasty_node : Fleet
hasty_node = record waiting_node {
  params = record params { reject_backoff = pos 0 };
  allocating = true;
  realloc_requested = true;
}

rounds-hasty : (rounds 6 silent hasty_node).1.realloc_requested ≡ true
unfolding program
rounds-hasty = refl
