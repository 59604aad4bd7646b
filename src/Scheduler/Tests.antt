-- ===== src/Scheduler/Tests.antt =====
-- `TaskScheduler` on four tasks, and the theorems at this input.
use amr_fleet_system.Prelude.{
  ℕ, ℤ, pos, ◌+ℤ◌, ◌-ℤ◌, ◌*ℤ◌, ◌≤ℤ◌, floor_div, lex_lt, ◌≡◌, refl, true, Option, none, some, [],
  ◌∷◌, arith, map,
}
use amr_fleet_system.Prelude.Sorting.{sorted_by, insert_sorted}
use amr_fleet_system.Task.{TaskSpec, Pose2D, small, pending}
use amr_fleet_system.Scheduler.{
  SchedulerConfig, TaskScheduler, accepts, effective_priority, band, sort_key, ordered, peek, pop,
  push, overdue,
}
use amr_fleet_system.Scheduler.Order.{waiting_task_first}
use amr_fleet_system.Scheduler.Queue.{IsQueue, Pops, pop-Pops}

-- The defaults, with the rate raised to 1 for the unit of a second.
abbrev config : SchedulerConfig
config = record {
  band_width = 32;
  deadline_weight = pos 1;
  fifo_weight = pos 0;
  age_boost_rate = pos 1;
  age_boost_max = pos 64;
}

abbrev origin : Pose2D
origin = record { x = pos 0; y = pos 0; yaw = pos 0; frame_id = "map" }

abbrev task : ℕ → ℕ → Option ℤ → ℕ → TaskSpec
task n priority deadline created = record {
  task_id = n;
  pickup = origin;
  dropoff = origin;
  item_type = small;
  item_mass = pos 2;
  priority = pos priority;
  deadline = deadline;
  robot_id = 0;
  created = pos created;
  status = pending;
}

abbrev queue : TaskScheduler
queue = record {
  config = config;
  tasks =
      (1, task 1 0 none 0)
      ∷ (2, task 2 5 (some (pos 300)) 100)
      ∷ (3, task 3 5 (some (pos 200)) 100)
      ∷ (4, task 4 30 none 100)
      ∷ [];
}

program : Unit {0}
unfolding accepts effective_priority band sort_key ordered peek pop push overdue sorted_by
    insert_sorted floor_div ◌+ℤ◌ ◌-ℤ◌ ◌*ℤ◌
program = tt

ordered-queue : map (λ t. t.task_id) (ordered (pos 100) queue) ≡ 1 ∷ 3 ∷ 2 ∷ 4 ∷ []
unfolding program
ordered-queue = refl

overdue-queue : map (λ t. t.task_id) (overdue (pos 250) queue) ≡ 3 ∷ []
unfolding program
overdue-queue = refl

queue-IsQueue : IsQueue queue
queue-IsQueue = ground arith

config-accepts : accepts config ≡ true
unfolding accepts
config-accepts = refl

waited : pos 0 ≤ℤ pos 100 -ℤ pos 0
unfolding ◌-ℤ◌
waited = omega arith

fully_boosted : pos 64 ≤ℤ pos 1 *ℤ (pos 100 -ℤ pos 0)
unfolding ◌-ℤ◌ ◌*ℤ◌
fully_boosted = omega arith

a_band_below : pos 30 +ℤ pos 32 ≤ℤ pos 0 +ℤ pos 64
unfolding ◌+ℤ◌
a_band_below = omega arith

waiting_task_first_example :
    lex_lt
      (sort_key config (pos 100) (task 1 0 none 0))
      (sort_key config (pos 100) (task 4 30 none 100))
    ≡ true
waiting_task_first_example =
    waiting_task_first config (task 1 0 none 0) (task 4 30 none 100) (pos 100) config-accepts waited
      fully_boosted (omega arith) a_band_below

band_of_due :
    band config (pos 100) (task 3 5 (some (pos 200)) 100)
    ≡ band config (pos 100) (task 2 5 (some (pos 300)) 100)
unfolding program
band_of_due = refl

pop-Pops_example : Pops (pos 100) queue (pop (pos 100) queue)
pop-Pops_example = pop-Pops (pos 100) queue queue-IsQueue
