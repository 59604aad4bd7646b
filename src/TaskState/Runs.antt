-- ===== src/TaskState/Runs.antt =====
-- Sequences of calls on `TaskStateMachine`. The caller catches what a call raises and goes on.
use amr_fleet_system.Prelude.{
  ℕ, ◌+◌, ◌≤◌, ℤ, ◌≡◌, refl, ◌∙◌, Bool, Option, some, List, [], ◌∷◌, String, arith,
}
use amr_fleet_system.Task.{Status, pending, in_progress, completed, failed, TaskSpec}
use amr_fleet_system.TaskState.Types.{TaskRecord}
use amr_fleet_system.TaskState.Log.{Disk, Writer}
use amr_fleet_system.TaskState.Methods.{
  Machine, add, start, complete, fail, retry, write_log, update_pose, check_deadlines,
}
use amr_fleet_system.TaskState.Validity.{
  IsValid, Phase, add-IsValid, start-IsValid, complete-IsValid, fail-IsValid, retry-IsValid,
  update_pose-IsValid, check_deadlines-IsValid,
}
use amr_fleet_system.TaskState.Replay.{
  IsReplayed, replay, statuses, add-IsReplayed, start-IsReplayed, complete-IsReplayed,
  fail-IsReplayed, retry-IsReplayed, update_pose-IsReplayed, check_deadlines-IsReplayed,
}

-- One call with its arguments.
pub data Call : Type 0 where
  add_task : TaskSpec → ℤ → Call
  start_task : (task robot : ℕ) (now : ℤ) (command_time : Option ℤ) → Call
  complete_task : (disk : Disk) (task : ℕ) (now : ℤ) (result : String) → Call
  fail_task : (disk : Disk) (task : ℕ) (now : ℤ) (reason : String) → Call
  retry_task : (task : ℕ) (now : ℤ) → Call
  pose : (robot : ℕ) (x y : ℤ) → Call
  deadlines : ℤ → Call

-- `__init__`
abbrev pub new_machine : Option Writer → Bool → ℕ → ℤ → Machine
new_machine log has_error_handler max_retries max_pose_step_m = record {
  records = [];
  events = [];
  log = log;
  has_error_handler = has_error_handler;
  log_errors = [];
  max_retries = max_retries;
  max_pose_step_m = max_pose_step_m;
}

module _ (hypot : ℤ → ℤ → ℤ) where
  abbrev pub perform : Call → Machine → Machine
  perform (add_task spec now) m = (add spec now m).1
  perform (start_task task robot now command_time) m = (start task robot now command_time m).1
  perform (complete_task disk task now result) m = (complete disk task now result m).1
  perform (fail_task disk task now reason) m = (fail disk task now reason m).1
  perform (retry_task task now) m = (retry task now m).1
  perform (pose robot x y) m = (update_pose hypot robot x y m).1
  perform (deadlines now) m = (check_deadlines now m).1

  unfoldable pub run : List Call → Machine → Machine
  run [] m = m
  run (c ∷ cs) m = run cs (perform c m)

  pub perform-IsValid : (c : Call) (m : Machine) → IsValid m → IsValid (perform c m)
  perform-IsValid (add_task spec now) m v = add-IsValid spec now m v
  perform-IsValid (start_task task robot now command_time) m v =
      start-IsValid task robot now command_time m v
  perform-IsValid (complete_task disk task now result) m v =
      complete-IsValid disk task now result m v
  perform-IsValid (fail_task disk task now reason) m v = fail-IsValid disk task now reason m v
  perform-IsValid (retry_task task now) m v = retry-IsValid task now m v
  perform-IsValid (pose robot x y) m v = update_pose-IsValid hypot robot x y m v
  perform-IsValid (deadlines now) m v = check_deadlines-IsValid now m v

  perform-IsReplayed :
      (c : Call) (m : Machine) → IsValid m → IsReplayed m → IsReplayed (perform c m)
  perform-IsReplayed (add_task spec now) m v h = add-IsReplayed spec now m h
  perform-IsReplayed (start_task task robot now command_time) m v h =
      start-IsReplayed m v h task robot now command_time
  perform-IsReplayed (complete_task disk task now result) m v h =
      complete-IsReplayed m v h disk task now result
  perform-IsReplayed (fail_task disk task now reason) m v h =
      fail-IsReplayed m v h disk task now reason
  perform-IsReplayed (retry_task task now) m v h = retry-IsReplayed m v h task now
  perform-IsReplayed (pose robot x y) m v h = update_pose-IsReplayed m v h hypot robot x y
  perform-IsReplayed (deadlines now) m v h = check_deadlines-IsReplayed m v h now

  run-both :
      (cs : List Call) (m : Machine)
      → IsValid m
      → IsReplayed m
      → IsValid (run cs m) × IsReplayed (run cs m)
  unfolding run
  run-both [] m v h = (v, h)
  run-both (c ∷ cs) m v h =
      run-both cs (perform c m) (perform-IsValid c m v) (perform-IsReplayed c m v h)

  perform-limit : (c : Call) (m : Machine) → (perform c m).max_retries ≡ m.max_retries
  unfolding add start complete fail retry write_log update_pose check_deadlines
  perform-limit (add_task spec now) m = ground arith
  perform-limit (start_task task robot now command_time) m = ground arith
  perform-limit (complete_task disk task now result) m = ground arith
  perform-limit (fail_task disk task now reason) m = ground arith
  perform-limit (retry_task task now) m = ground arith
  perform-limit (pose robot x y) m = ground arith
  perform-limit (deadlines now) m = refl

  pub run-limit : (cs : List Call) (m : Machine) → (run cs m).max_retries ≡ m.max_retries
  unfolding run
  run-limit [] m = refl
  run-limit (c ∷ cs) m = run-limit cs (perform c m) ∙ perform-limit c m

-- Whatever calls are made on a new machine, in whatever order and with whatever errors, its records
-- are keyed by their own task and mirrored in their specs, and each is in the phase of its status:
-- which times are set, how often it was started, and how many failures it has left behind.
pub run-IsValid :
    (hypot : ℤ → ℤ → ℤ) (cs : List Call) (log : Option Writer) (has_error_handler : Bool)
    (max_retries : ℕ) (max_pose_step_m : ℤ)
    → IsValid (run hypot cs (new_machine log has_error_handler max_retries max_pose_step_m))
run-IsValid hypot cs log has_error_handler max_retries max_pose_step_m =
    (run-both hypot cs (new_machine log has_error_handler max_retries max_pose_step_m)
      (record { unique = tt; entries = tt }) refl).0

-- Whatever calls are made on a new machine, replaying its events from the empty table is accepted
-- (each event leaves the status that its task is in, along an allowed transition), and gives exactly
-- the statuses of its records, in the same order.
pub run-IsReplayed :
    (hypot : ℤ → ℤ → ℤ) (cs : List Call) (log : Option Writer) (has_error_handler : Bool)
    (max_retries : ℕ) (max_pose_step_m : ℤ)
    → let m = run hypot cs (new_machine log has_error_handler max_retries max_pose_step_m) in
      replay [] m.events ≡ some (statuses m.records)
run-IsReplayed hypot cs log has_error_handler max_retries max_pose_step_m =
    (run-both hypot cs (new_machine log has_error_handler max_retries max_pose_step_m)
      (record { unique = tt; entries = tt }) refl).1

pub Phase-attempts :
    (limit : ℕ) (r : TaskRecord) (s : Status)
    → Phase limit r s
    → (r.attempts ≤ limit + 1) × (r.failures ≤ limit + 1)
Phase-attempts limit r pending h = omega arith
Phase-attempts limit r in_progress h = omega arith
Phase-attempts limit r completed h = omega arith
Phase-attempts limit r failed h = omega arith
