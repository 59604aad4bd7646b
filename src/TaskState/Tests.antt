-- ===== src/TaskState/Tests.antt =====
-- `TaskStateMachine` on a small shift: three tasks, of which one is completed, one is retried and one
-- is late, and the theorems at this input.
use amr_fleet_system.Prelude.{
  ℕ, ◌+◌, ◌≤◌, ℤ, pos, negsuc, ◌+ℤ◌, ◌-ℤ◌, ◌≤ℤ◌, ◌≡◌, refl, true, false, Option, none, some, List,
  [], ◌∷◌, arith,
}
use amr_fleet_system.Prelude.Dict.{lookup}
use amr_fleet_system.Task.{pending, in_progress, completed, failed, Pose2D, TaskSpec, small}
use amr_fleet_system.TaskState.Types.{TaskRecord, duration_s}
use amr_fleet_system.TaskState.Log.{Writer, Disk, header, row, write}
use amr_fleet_system.TaskState.Methods.{
  Machine, counts, with_status, active_task_of, add, start, complete, fail, retry, emit, write_log,
  update_pose, check_deadlines,
}
use amr_fleet_system.TaskState.Runs.{Call, run, new_machine, run-IsValid, run-IsReplayed}
use amr_fleet_system.TaskState.Replay.{replay, statuses}
use amr_fleet_system.TaskState.Validity.{IsValid}
use amr_fleet_system.TaskState.Attempts.{entries_to, run-attempts_le}
use amr_fleet_system.TaskState.Outcomes.{
  StartOutcome, start_outcome, Unchanged, raise-Unchanged, run-keeps_completed,
}
use amr_fleet_system.TaskState.LogFiles.{LogFiles, run-LogFiles}
use amr_fleet_system.TaskState.Accounts.{IsAccounted, run-IsAccounted}

abbrev at : ℕ → ℕ → Pose2D
at x y = record { x = pos x; y = pos y; yaw = pos 0; frame_id = "map" }

abbrev task : ℕ → Option ℤ → TaskSpec
task n deadline = record {
  task_id = n;
  pickup = at 1 2;
  dropoff = at 5 6;
  item_type = small;
  item_mass = pos 2000;
  priority = pos 10;
  deadline = deadline;
  robot_id = 0;
  created = pos 0;
  status = pending;
}

abbrev disk : Disk
disk = record { day = 20260922; writable = true }

abbrev shift : List Call
shift =
    Call.add_task (task 1 none) (pos 0)
    ∷ Call.add_task (task 2 (some (pos 50))) (pos 1)
    ∷ Call.add_task (task 3 (some (pos 90))) (pos 1)
    ∷ Call.add_task (task 1 none) (pos 2)
    ∷ Call.start_task 1 7 (pos 3) none
    ∷ Call.pose 7 (pos 0) (pos 0)
    ∷ Call.pose 7 (pos 3) (pos 0)
    ∷ Call.start_task 1 8 (pos 4) none
    ∷ Call.start_task 2 8 (pos 5) (some (pos 4))
    ∷ Call.fail_task disk 2 (pos 9) "robot_lost"
    ∷ Call.retry_task 2 (pos 9)
    ∷ Call.complete_task disk 1 (pos 20) "completed"
    ∷ Call.start_task 2 7 (pos 21) none
    ∷ Call.deadlines (pos 60)
    ∷ []

-- The street distance stands for the hypotenuse: it is never negative either.
abbrev magnitude : ℤ → ℕ
magnitude (pos n) = n
magnitude (negsuc n) = n + 1

abbrev street : ℤ → ℤ → ℤ
street a b = pos (magnitude a + magnitude b)

abbrev writer : Writer
writer = record { files = []; rows_written = 0 }

abbrev fresh : Machine
fresh = new_machine (some writer) true 1 (pos 5)

program : Unit {0}
unfolding run add start complete fail retry emit write write_log update_pose check_deadlines
    duration_s ◌+ℤ◌ ◌-ℤ◌ counts with_status
program = tt

shift-statuses :
    statuses (run street shift fresh).records
    ≡ (1, completed) ∷ (2, in_progress) ∷ (3, pending) ∷ []
unfolding program
shift-statuses = refl

shift-log :
    (run street shift fresh).log
    ≡ some (record {
      files =
          (
            20260922,
            header
                ∷ row 2 8 (some (pos 5)) (some (pos 9)) (pos 0) (some (pos 4)) "failed:robot_lost"
                ∷ row 1 7 (some (pos 3)) (some (pos 20)) (pos 3) (some (pos 17)) "completed"
                ∷ [],
          )
          ∷ [];
      rows_written = 2;
    })
unfolding program
shift-log = refl

run-IsValid_example : IsValid (run street shift fresh)
run-IsValid_example = run-IsValid street shift (some writer) true 1 (pos 5)

run-IsReplayed_example :
    replay [] (run street shift fresh).events ≡ some (statuses (run street shift fresh).records)
run-IsReplayed_example = run-IsReplayed street shift (some writer) true 1 (pos 5)

abbrev after : Machine
after = run street shift fresh

-- The record of the second task, which runs again.
abbrev second : TaskRecord
second = record {
  spec = record (task 2 (some (pos 50))) { robot_id = 7; status = in_progress };
  status = in_progress;
  robot_id = 7;
  created_time = pos 1;
  start_time = some (pos 21);
  end_time = none;
  distance_m = pos 0;
  result = "";
  attempts = 2;
  failures = 1;
  deadline_missed = true;
  last_pose = none;
  pinned_robot_id = 0;
  command_time = none;
}

second_stored : lookup 2 after.records ≡ some second
unfolding program
second_stored = refl

run-attempts_le_example :
    (entries_to in_progress 2 after.events ≤ 1 + 1) × (entries_to failed 2 after.events ≤ 1 + 1)
run-attempts_le_example = run-attempts_le street shift (some writer) true 1 (pos 5) 2

second_active : active_task_of 7 after ≡ some second
unfolding program active_task_of
second_active = refl

after_bound : pos 0 ≤ℤ after.max_pose_step_m
unfolding program
after_bound = omega arith

street_nonneg : (a b : ℤ) → pos 0 ≤ℤ street a b
street_nonneg a b = omega arith

start_outcome_example : StartOutcome 9 (pos 30) none after second in_progress
start_outcome_example = start_outcome 9 (pos 30) none after second second_stored

raise-Unchanged_example :
    Unchanged after (add (task 1 none) (pos 30) after)
    × Unchanged after (start 1 9 (pos 30) none after)
    × Unchanged after (complete disk 1 (pos 30) "again" after)
    × Unchanged after (fail disk 1 (pos 30) "again" after)
    × Unchanged after (retry 1 (pos 30) after)
raise-Unchanged_example = raise-Unchanged after disk (task 1 none) 1 9 (pos 30) none "again"

-- The record of the first task, which is completed.
abbrev first : TaskRecord
first = record {
  spec = record (task 1 none) { robot_id = 7; status = completed };
  status = completed;
  robot_id = 7;
  created_time = pos 0;
  start_time = some (pos 3);
  end_time = some (pos 20);
  distance_m = pos 3;
  result = "completed";
  attempts = 1;
  failures = 0;
  deadline_missed = false;
  last_pose = some (pos 3, pos 0);
  pinned_robot_id = 0;
  command_time = none;
}

first_stored : lookup 1 after.records ≡ some first
unfolding program
first_stored = refl

run-keeps_completed_example : lookup 1 (run street shift after).records ≡ some first
run-keeps_completed_example =
    run-keeps_completed street 1 first shift after run-IsValid_example first_stored refl

run-LogFiles_example : LogFiles (run street shift fresh).log
run-LogFiles_example = run-LogFiles street shift fresh tt

run-IsAccounted_example : IsAccounted 0 (run street shift fresh)
run-IsAccounted_example = run-IsAccounted street shift writer 1 (pos 5) refl
