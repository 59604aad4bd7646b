-- ===== src/TaskState/Outcomes.antt =====
-- How the methods of `TaskStateMachine` end, on every branch.
use amr_fleet_system.Prelude.{
  ℕ, suc, ◌++◌, ℤ, ◌≡◌, refl, ◌≢◌, inl, inr, Option, none, some, List, [], ◌∷◌, String, arith,
  Option-cases,
}
use amr_fleet_system.Prelude.Dict.{Dict, lookup, insert, lookup-insert}
use amr_fleet_system.Task.{Status, pending, in_progress, completed, failed, TaskSpec}
use amr_fleet_system.TaskState.Types.{TaskEvent, TaskRecord}
use amr_fleet_system.TaskState.Log.{invalid_transition, os_error, Result, ok, err, Disk}
use amr_fleet_system.TaskState.Methods.{
  Machine, write_log, add, start, complete, fail, retry, active_task_of, update_pose,
  check_deadlines, new_record, moved, assigned, finished, broken_off, requeued, paced, mark_all,
}
use amr_fleet_system.TaskState.Validity.{IsValid, lookup-IsRecordValid, first_active_lem}
use amr_fleet_system.TaskState.Runs.{Call, perform, run, perform-IsValid}

-- The record of a task that runs on the robot from now on, with one attempt more and no pose.
abbrev pub started : ℕ → ℤ → Option ℤ → TaskRecord → TaskRecord
started robot now command_time r = record r {
  robot_id = robot;
  spec = record r.spec { robot_id = robot; status = in_progress };
  status = in_progress;
  start_time = some now;
  command_time = command_time;
  attempts = suc r.attempts;
  last_pose = none;
}

-- The event of a pending task that was assigned to the robot.
abbrev pub start_event : ℕ → ℤ → TaskRecord → TaskEvent
start_event robot now r = record {
  task_id = r.spec.task_id;
  robot_id = robot;
  old_status = pending;
  new_status = in_progress;
  time = now;
  reason = "assigned";
}

-- What `start` does, for a known task in each status.
abbrev pub StartOutcome : ℕ → ℤ → Option ℤ → Machine → TaskRecord → Status → Type 0
StartOutcome robot now command_time m r pending =
    let ev = start_event robot now r in
    start r.spec.task_id robot now command_time m ≡ (
      ok (some ev),
      record m {
        records = insert r.spec.task_id (started robot now command_time r) m.records;
        events = m.events ++ ev ∷ [];
      },
    )
StartOutcome robot now command_time m r in_progress =
    (r.robot_id ≡ robot → start r.spec.task_id robot now command_time m ≡ (ok none, m))
    × (r.robot_id ≢ robot
        → start r.spec.task_id robot now command_time m ≡ (err invalid_transition, m))
StartOutcome robot now command_time m r _ =
    start r.spec.task_id robot now command_time m ≡ (err invalid_transition, m)

start_by_status :
    (robot : ℕ) (now : ℤ) (command_time : Option ℤ) (m : Machine) (r : TaskRecord) (s : Status)
    → r.status ≡ s
    → lookup r.spec.task_id m.records ≡ some r
    → StartOutcome robot now command_time m r s
unfolding start
start_by_status robot now command_time m r pending e found = ground arith
start_by_status robot now command_time m r in_progress e found =
    (λ same. ground arith, λ other. ground arith)
start_by_status robot now command_time m r completed e found = ground arith
start_by_status robot now command_time m r failed e found = ground arith

-- `start` of a stored task, in each status: a pending task is stored as running on the robot
-- from now on, in its record and in its description, with one attempt more, and one event of that is appended; a
-- running one is left alone if it runs on the same robot, and refused if it runs on another; a
-- finished one is refused. A refusal changes nothing.
pub start_outcome :
    (robot : ℕ) (now : ℤ) (command_time : Option ℤ) (m : Machine) (r : TaskRecord)
    → lookup r.spec.task_id m.records ≡ some r
    → StartOutcome robot now command_time m r r.status
start_outcome robot now command_time m r found =
    start_by_status robot now command_time m r r.status refl found

-- A method that raises has changed nothing, but for a log that could not be written.
abbrev pub Unchanged : {A : Type 0} → Machine → Result A × Machine → Type 0
Unchanged m (ok _, m') = Unit
Unchanged m (err os_error, m') = Unit
Unchanged m (err e, m') = m' ≡ m

module _ (m : Machine) where
  add-Unchanged : (spec : TaskSpec) (now : ℤ) → Unchanged m (add spec now m)
  unfolding add
  add-Unchanged spec now = elim (Option-cases (lookup spec.task_id m.records)) [
    | inl e ↦ ground arith
    | inr (r, e) ↦ ground arith
  ]

  start-Unchanged :
      (task robot : ℕ) (now : ℤ) (command_time : Option ℤ)
      → Unchanged m (start task robot now command_time m)
  unfolding start
  start-Unchanged task robot now command_time = elim (Option-cases (lookup task m.records)) [
    | inl e ↦ ground arith
    | inr (r, e) ↦ ground arith
  ]

  complete-Unchanged :
      (disk : Disk) (task : ℕ) (now : ℤ) (result : String)
      → Unchanged m (complete disk task now result m)
  unfolding complete write_log
  complete-Unchanged disk task now result = elim (Option-cases (lookup task m.records)) [
    | inl e ↦ ground arith
    | inr (r, e) ↦ ground arith
  ]

  fail-Unchanged :
      (disk : Disk) (task : ℕ) (now : ℤ) (reason : String)
      → Unchanged m (fail disk task now reason m)
  unfolding fail write_log
  fail-Unchanged disk task now reason = elim (Option-cases (lookup task m.records)) [
    | inl e ↦ ground arith
    | inr (r, e) ↦ ground arith
  ]

  retry-Unchanged : (task : ℕ) (now : ℤ) → Unchanged m (retry task now m)
  unfolding retry
  retry-Unchanged task now = elim (Option-cases (lookup task m.records)) [
    | inl e ↦ ground arith
    | inr (r, e) ↦ ground arith
  ]

-- Whichever of `add`, `start`, `complete`, `fail` and `retry` raises, and whatever it was called with,
-- the machine is as it was before the call, unless the exception is the log's `OSError`.
pub raise-Unchanged :
    (m : Machine) (disk : Disk) (spec : TaskSpec) (task robot : ℕ) (now : ℤ)
    (command_time : Option ℤ) (text : String)
    → Unchanged m (add spec now m)
      × Unchanged m (start task robot now command_time m)
      × Unchanged m (complete disk task now text m)
      × Unchanged m (fail disk task now text m)
      × Unchanged m (retry task now m)
raise-Unchanged m disk spec task robot now command_time text = (
  add-Unchanged m spec now,
  start-Unchanged m task robot now command_time,
  complete-Unchanged m disk task now text,
  fail-Unchanged m disk task now text,
  retry-Unchanged m task now,
)

-- A record that no later call touches.
lookup-mark_all_finished :
    (now : ℤ) (task : ℕ) (r : TaskRecord) (d : Dict TaskRecord)
    → lookup task d ≡ some r
    → r.status ≡ completed
    → lookup task (mark_all now d) ≡ some r
lookup-mark_all_finished now task r [] e c = cc
lookup-mark_all_finished now task r ((k, x) ∷ d) e c =
    ground (arith, lookup-mark_all_finished now task r d)

module _ (hypot : ℤ → ℤ → ℤ) (task : ℕ) (r : TaskRecord) where
  perform-keeps :
      (c : Call) (m : Machine)
      → IsValid m
      → lookup task m.records ≡ some r
      → r.status ≡ completed
      → lookup task (perform hypot c m).records ≡ some r
  unfolding add start complete fail retry write_log update_pose check_deadlines
  perform-keeps (Call.add_task spec now) m v e done =
      ground (arith, lookup-insert task spec.task_id (new_record spec now) m.records)
  perform-keeps (Call.start_task t robot now ct) m v e done =
      elim (Option-cases (lookup t m.records)) [
        | inl absent ↦ ground arith
        | inr (x, found) ↦ ground (
          arith,
          (lookup-IsRecordValid t x m v found).keyed,
          lookup-insert task t (moved in_progress (assigned robot now ct x)) m.records,
        )
      ]
  perform-keeps (Call.complete_task disk t now result) m v e done =
      elim (Option-cases (lookup t m.records)) [
        | inl absent ↦ ground arith
        | inr (x, found) ↦ ground (
          arith,
          (lookup-IsRecordValid t x m v found).keyed,
          lookup-insert task t (moved completed (finished now result x)) m.records,
        )
      ]
  perform-keeps (Call.fail_task disk t now reason) m v e done =
      elim (Option-cases (lookup t m.records)) [
        | inl absent ↦ ground arith
        | inr (x, found) ↦ ground (
          arith,
          (lookup-IsRecordValid t x m v found).keyed,
          lookup-insert task t (moved failed (broken_off now reason x)) m.records,
        )
      ]
  perform-keeps (Call.retry_task t now) m v e done = elim (Option-cases (lookup t m.records)) [
    | inl absent ↦ ground arith
    | inr (x, found) ↦ ground (
      arith,
      (lookup-IsRecordValid t x m v found).keyed,
      lookup-insert task t (moved pending (requeued x)) m.records,
    )
  ]
  perform-keeps (Call.pose robot x y) m v e done = elim (Option-cases (active_task_of robot m)) [
    | inl idle ↦ ground arith
    | inr (a, found) ↦ ground (
      arith,
      first_active_lem m.max_retries robot a m.records v.entries v.unique found,
      lookup-insert task a.spec.task_id (paced hypot m.max_pose_step_m x y a) m.records,
    )
  ]
  perform-keeps (Call.deadlines now) m v e done =
      lookup-mark_all_finished now task r m.records e done

-- From a valid machine, no sequence of calls changes the record of a completed task.
pub run-keeps_completed :
    (hypot : ℤ → ℤ → ℤ) (task : ℕ) (r : TaskRecord) (cs : List Call) (m : Machine)
    → IsValid m
    → lookup task m.records ≡ some r
    → r.status ≡ completed
    → lookup task (run hypot cs m).records ≡ some r
unfolding run
run-keeps_completed hypot task r [] m v e done = e
run-keeps_completed hypot task r (c ∷ cs) m v e done =
    run-keeps_completed hypot task r cs (perform hypot c m) (perform-IsValid hypot c m v)
      (perform-keeps hypot task r c m v e done) done
