-- ===== src/Fleet/Tasks.antt =====
-- Tasks that start, end and come in.
use amr_fleet_system.Prelude.{
  ℕ, ◌+◌, ℤ, Bool, true, false, not, ◌&&◌, ◌==◌, Option, none, some, String, if◌then◌else◌,
}
use amr_fleet_system.Prelude.Dict.{lookup, insert, erase}
use amr_fleet_system.Task.{TaskSpec, pending, same_status}
use amr_fleet_system.TaskState.{
  TaskEvent, TaskRecord, add, start, fail, retry, is_terminal, active_task_of, update_pose,
}
use amr_fleet_system.Scheduler
use amr_fleet_system.Scheduler.{TaskScheduler}
use amr_fleet_system.Kpi.{status_idle, status_error, update_robot, record_failure}
use amr_fleet_system.Fleet.State.{
  Robot, Fleet, World, Do, gets, ◌>>=◌, ◌>>◌, skip, modify, on_machine, robot_at, set_robot,
  record_of, error, warn, task_failed, task_requeued, alert,
}

abbrev pub has_task : Option TaskRecord → Bool
has_task none = false
has_task (some r) = true

abbrev pub shown_status : Robot → ℕ
shown_status r =
    if r.lost then status_error else elim r.state [ none ↦ status_idle | some s ↦ s.status ]

-- `_update_kpi_robot`
unfoldable pub update_kpi_robot : ℕ → ℤ → Fleet → Fleet
update_kpi_robot robot now f = elim (lookup robot f.robots) [
  | none ↦ f
  | some r ↦ record f {
    kpi = update_robot robot (shown_status r) now (has_task (active_task_of robot f.sm)) f.kpi;
  }
]

-- `_on_task_event`, which the machine calls as it emits: the old recipients of an ended task are
-- forgotten, and the indicators hear of the robot.
abbrev pub on_task_event : TaskEvent → Do (Unit {0})
on_task_event ev = do
  modify (λ f. if is_terminal ev.new_status then record f { sent = erase ev.task_id f.sent } else f)
  r ← λ f. (record_of ev.task_id f, f)
  if not (same_status ev.new_status pending) && not (r.robot_id == 0)
      then modify (update_kpi_robot r.robot_id ev.time)
      else skip

-- `_clear_inflight`
abbrev pub freed : ℕ → Robot → Robot
freed task r = elim r.inflight [
  | none ↦ r
  | some t ↦ if t == task then record r { inflight = none } else r
]

unfoldable pub clear_inflight : ℕ → Do (Unit {0})
clear_inflight task f = elim (lookup task f.inflight) [
  | none ↦ (some tt, f)
  | some d ↦ set_robot d.robot_id (freed task) (record f { inflight = erase task f.inflight })
]

-- `self._scheduler.remove(task_id)` and `push`
abbrev pub unqueue : ℕ → Do (Unit {0})
unqueue task = modify (λ f. record f { scheduler = (Scheduler.remove task f.scheduler).1 })

abbrev pub enqueue : TaskSpec → Do (Unit {0})
enqueue spec f = elim (Scheduler.push spec f.scheduler) [
  | none ↦ (none, f)
  | some q ↦ (some tt, record f { scheduler = q })
]

abbrev pub command_time_of : ℕ → ℕ → Fleet → Option ℤ
command_time_of task robot f = elim (lookup task f.sent) [
  | none ↦ none
  | some robots ↦ lookup robot robots
]

-- The distance starts at the robot's last position, if that is valid.
abbrev pub position_of : Robot → Option (ℤ × ℤ)
position_of r = elim r.state [ none ↦ none | some s ↦ s.position ]

unfoldable pub measure_at : World → ℕ → Option (ℤ × ℤ) → Do (Unit {0})
measure_at w robot none = skip
measure_at w robot (some (x, y)) =
    modify (λ f. record f { sm = (update_pose w.hypot robot x y f.sm).1 })

-- `_start_task`, and what follows a start that is not a repeated one
unfoldable pub after_start : World → ℕ → Option TaskEvent → Do (Unit {0})
unfolding measure_at
after_start w robot none = skip
after_start w robot (some ev) = do
  on_task_event ev
  set_robot robot (λ r. record r { load = r.load + 1 })
  r ← robot_at robot
  measure_at w robot (position_of r)

unfoldable pub start_task : World → ℕ → ℕ → Do (Unit {0})
unfolding after_start
start_task w task robot = do
  time ← gets (command_time_of task robot)
  started ← on_machine (start task robot w.now time)
  after_start w robot started

-- The robot that reported a failure before the start is noted in the record.
abbrev pub with_robot : ℕ → TaskRecord → TaskRecord
with_robot robot r =
    if not (robot == 0) && r.robot_id == 0
    then record r { robot_id = robot; spec = record r.spec { robot_id = robot } }
    else r

abbrev pub note_robot : ℕ → ℕ → Do (Unit {0})
note_robot task robot f = elim (record_of task f) [
  | none ↦ (none, f)
  | some r ↦ (
    some tt,
    record f { sm = record f.sm { records = insert task (with_robot robot r) f.sm.records } },
  )
]

-- `self._sm.get(task_id)`, where it is used at once
abbrev pub known_record : ℕ → Do TaskRecord
known_record task f = (record_of task f, f)

-- `_fail_task`, and what follows a retry
unfoldable pub after_retry : ℕ → ℕ → Option TaskEvent → Do (Unit {0})
after_retry task robot none = skip
after_retry task robot (some ev) = do
  on_task_event ev
  r ← known_record task
  enqueue r.spec
  alert warn task_requeued robot task

unfoldable pub fail_task : World → ℕ → String → ℕ → Do (Unit {0})
unfolding after_retry
fail_task w task reason robot = do
  clear_inflight task
  unqueue task
  note_robot task robot
  ev ← on_machine (fail w.disk task w.now reason)
  on_task_event ev
  modify (λ f. record f { kpi = record_failure w.now f.kpi })
  r ← known_record task
  alert error task_failed r.robot_id task
  again ← on_machine (retry task w.now)
  after_retry task r.robot_id again

-- `_admit`; the queue holds the record's own description.
unfoldable pub admit : World → TaskSpec → Do (Unit {0})
admit w spec = do r ← on_machine (add spec w.now); enqueue r.spec
