-- ===== src/Kpi/Tests.antt =====
-- A run of `KpiTracker` and the status map at concrete inputs, and the theorems there.
use amr_fleet_system.Prelude.{
  ◌*◌, pos, ◌+ℤ◌, ◌-ℤ◌, ◌≤ℤ◌, ◌<ℤ◌, ◌≡◌, refl, true, false, none, some, List, [], ◌∷◌, length,
  filter, String, arith,
}
use amr_fleet_system.Kpi.{
  assigned, KpiTracker, default_busy, fresh, new_tracker, start, drop_until, trim,
  record_completion, record_failure, record_deadlock, update_robot, throughput, robot_utilization,
  robot_busy_time, avg_task_duration, snapshot, Event, completion, failure, deadlocks, robot_state,
  query, run, map_status,
}
use amr_fleet_system.Kpi.Window.{inside, completion_times, throughput-window}
use amr_fleet_system.Kpi.Busy.{robot_utilization-bounds}

program : Unit {0}
unfolding new_tracker start drop_until trim record_completion record_failure record_deadlock
    update_robot throughput robot_utilization robot_busy_time avg_task_duration snapshot map_status
    ◌+ℤ◌ ◌-ℤ◌
program = tt

abbrev tracker : KpiTracker
tracker = fresh (pos 100) (pos 1) default_busy assigned

-- Robot 7 has a task from 10 to 60, robot 8 is seen at 20 without one.
abbrev events : List Event
events =
    robot_state 7 1 (pos 10) true
    ∷ robot_state 8 0 (pos 20) false
    ∷ completion (pos 30) (pos 20)
    ∷ robot_state 7 0 (pos 60) false
    ∷ query (pos 90)
    ∷ completion (pos 120) (pos 40)
    ∷ failure (pos 125)
    ∷ deadlocks (pos 2)
    ∷ []

new_tracker-tracker : new_tracker (pos 100) (pos 1) default_busy assigned ≡ some tracker
unfolding program
new_tracker-tracker = refl

throughput-events :
    (throughput (pos 130) (run events tracker)).0 ≡ record { amount = pos 3600; per = pos 100 }
unfolding program
throughput-events = refl

robot_utilization-events :
    robot_utilization (pos 110) (run events tracker) ≡ record { amount = pos 50; per = pos 190 }
unfolding program
robot_utilization-events = refl

robot_busy_time-events : robot_busy_time 7 (pos 200) (run events tracker) ≡ pos 50
unfolding program
robot_busy_time-events = refl

avg_task_duration-events :
    avg_task_duration (run events tracker) ≡ record { amount = pos 60; per = pos 2 }
unfolding program
avg_task_duration-events = refl

snapshot-events : (snapshot (pos 130) none (run events tracker)).0.deadlocks ≡ 2
unfolding program
snapshot-events = refl

abbrev as_it_is : String → String
as_it_is s = s

map_status-lost : map_status as_it_is false (some "loading") true ≡ 5
unfolding program
map_status-lost = refl

map_status-unloading : map_status as_it_is false (some "unloading") false ≡ 3
unfolding program
map_status-unloading = refl

throughput-window_example :
    let k = run events tracker in
    ((throughput (pos 130) k).0.amount
      ≡ pos (length (filter (inside (pos 100) (pos 130)) (completion_times events)) * 3600))
    × (k.completed ≡ length (completion_times events))
throughput-window_example =
    throughput-window (pos 100) (pos 1) (pos 0) (pos 130) default_busy assigned events
      (omega arith, (omega arith, (omega arith, omega arith)))

robot_utilization-bounds_example :
    let r = robot_utilization (pos 130) (run events tracker) in
    (pos 0 ≤ℤ r.amount) × (r.amount ≤ℤ r.per) × (pos 0 <ℤ r.per)
robot_utilization-bounds_example =
    robot_utilization-bounds (pos 100) (pos 1) default_busy assigned events (pos 130)
      (omega arith, (omega arith, (tt, (omega arith, (tt, (tt, (tt, (tt, tt))))))))
