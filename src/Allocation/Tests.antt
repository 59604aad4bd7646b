-- ===== src/Allocation/Tests.antt =====
-- One round with three robots and four tasks, and the theorems at this input.
use amr_fleet_system.Prelude.{
  ℕ, ℤ, pos, negsuc, ◌+◌, ◌+ℤ◌, ◌-ℤ◌, ◌≤ℤ◌, ◌≤◌, ◌≡◌, refl, ◌⊎◌, Bool, true, false, none, some,
  List, [], ◌∷◌, length, member, All, arith, map,
}
use Prim.Native.Nat.{min}
use mathlib.Core.List.{Sublist}
use amr_fleet_system.Prelude.Sorting.{sorted_by, insert_sorted, min_by}
use amr_fleet_system.Task.{TaskSpec, Pose2D, small, pending}
use amr_fleet_system.Allocation.{
  RobotInfo, free_ids, nearest, load_balance, greedy, remove_robot, select_batch, fill_batch,
  allocate, pin_all, accept_all, pool_of, proposals, opening, travel_time, add_trips,
  evaluate_assignment, Metrics,
}
use amr_fleet_system.Allocation.Fairness.{IsFair, Distinct, allocate-IsFair}
use amr_fleet_system.Allocation.Greedy.{OnePerRobot, greedy_assigns_all}
use amr_fleet_system.Allocation.BatchLimits.{pinned_robots, unpinned_count, select_batch_lem}
use amr_fleet_system.Allocation.Trips.{}

abbrev at : ℕ → ℕ → Pose2D
at x y = record { x = pos x; y = pos y; yaw = pos 0; frame_id = "map" }

-- A task with the robot that it is pinned to, or 0.
abbrev task : ℕ → ℕ → ℕ → TaskSpec
task n x robot = record {
  task_id = n;
  pickup = at x 0;
  dropoff = at x 5;
  item_type = small;
  item_mass = pos 2;
  priority = pos 1;
  deadline = none;
  robot_id = robot;
  created = pos 0;
  status = pending;
}

abbrev robot : ℕ → ℕ → Bool → RobotInfo
robot n x free = record { robot_id = n; x = pos x; y = pos 0; load = 0; available = free }

abbrev robots : List RobotInfo
robots = robot 7 0 true ∷ robot 8 10 true ∷ robot 9 20 false ∷ []

abbrev tasks : List TaskSpec
tasks = task 1 9 0 ∷ task 2 3 9 ∷ task 3 1 7 ∷ task 4 2 0 ∷ []

abbrev magnitude : ℤ → ℕ
magnitude (pos n) = n
magnitude (negsuc n) = n + 1

abbrev street : ℤ → ℤ → ℤ
street a b = pos (magnitude a + magnitude b)

abbrev whole : ℤ → ℤ → ℤ
whole a b = a

program : Unit {0}
unfolding nearest load_balance greedy remove_robot min_by select_batch fill_batch allocate pin_all
    accept_all pool_of proposals opening sorted_by insert_sorted travel_time add_trips
    evaluate_assignment ◌+ℤ◌ ◌-ℤ◌
program = tt

nearest-tasks : nearest street (task 1 9 0 ∷ task 4 2 0 ∷ []) robots ≡ (1, 8) ∷ (4, 7) ∷ []
unfolding program
nearest-tasks = refl

select_batch-tasks : map (λ t. t.task_id) (select_batch tasks robots 0) ≡ 1 ∷ 3 ∷ []
unfolding program
select_batch-tasks = refl

allocate-tasks : (allocate (nearest street) tasks robots).assignments ≡ (3, 7) ∷ (1, 8) ∷ []
unfolding program
allocate-tasks = refl

allocate-IsFair_example : IsFair (free_ids robots) (allocate (nearest street) tasks robots)
allocate-IsFair_example = allocate-IsFair (nearest street) tasks robots

greedy_assigns_all_example :
    ((length (nearest street tasks robots) ≡ min 4 3)
      × OnePerRobot robots (nearest street tasks robots))
    × ((length (load_balance street tasks robots) ≡ min 4 3)
        × OnePerRobot robots (load_balance street tasks robots))
greedy_assigns_all_example =
    greedy_assigns_all street tasks robots (refl, (refl, (refl, (refl, tt))))
      (refl, (refl, (refl, tt)))

select_batch_lem_example :
    let batch = select_batch tasks robots 2 in
    Sublist batch tasks
    × (length batch ≤ 2)
    × Distinct (pinned_robots batch)
    × All (λ x. member x (free_ids robots) ≡ true) (pinned_robots batch)
    × ((length (free_ids robots) ≡ 0)
        ⊎ ((2 ≤ length batch) ⊎ (unpinned_count tasks ≤ unpinned_count batch)))
select_batch_lem_example = select_batch_lem tasks robots 2

abbrev metrics : Metrics
metrics = record {
  n_tasks = 4;
  n_robots = 3;
  n_assigned = 2;
  total_travel_distance_m = pos 12;
  approach_distance_m = pos 2;
  mean_approach_distance_m = pos 2;
  makespan_s = pos 6;
}

evaluate_assignment-tasks :
    evaluate_assignment street whole (pos 1) ((3, 7) ∷ (1, 8) ∷ []) tasks robots ≡ some metrics
unfolding program
evaluate_assignment-tasks = refl

street_nonneg : (a b : ℤ) → pos 0 ≤ℤ street a b
street_nonneg a b = omega arith
