-- ===== src/Fleet/Events.antt =====
-- The callbacks of robots' messages keep the agreement of robots and calls.
use amr_fleet_system.Prelude.{ℕ, ℤ, true, false, refl, Option, none, some}
use amr_fleet_system.Task.{Status, pending, in_progress, completed, failed}
use amr_fleet_system.TaskState.{TaskRecord}
use amr_fleet_system.Fleet.State.{RobotState, World, set_robot}
use amr_fleet_system.Fleet.Reports.{
  reconcile_from_state, status_alerts, recovered, on_robot_state, on_status_of, on_status_of_known,
  on_task_status,
}
use amr_fleet_system.Fleet.Keeping.{pure-Keeps, keeping}
use amr_fleet_system.Fleet.Handlers.{
  KeepsCalls, written, kpi_robot-Keeps, on_task_event-Keeps, known_record-Keeps, measure_at-Keeps,
  fail_task-Keeps, conflict-Keeps, confirm_dispatch-Keeps, late_start-Keeps, on_robot_started-Keeps,
}

reconcile-Keeps :
    (w : World) (robot current : ℕ) → KeepsCalls (reconcile_from_state w robot current)
unfolding reconcile_from_state
reconcile-Keeps w robot current =
    search (keeping, confirm_dispatch-Keeps, late_start-Keeps) depth 12

seen :
    (robot : ℕ) (st : RobotState) (now : ℤ)
    → KeepsCalls (set_robot robot (λ r. record r { state = some st; last_seen = now }))
seen robot st now = written robot _ (λ r. refl)

found_again : (robot : ℕ) → KeepsCalls (set_robot robot (λ r. record r { lost = false }))
found_again robot = written robot _ (λ r. refl)

recovered-Keeps : (robot : ℕ) → KeepsCalls (recovered robot)
recovered-Keeps robot = search (keeping, found_again)

status_alerts-Keeps :
    (robot : ℕ) (prev : Option RobotState) (st : RobotState)
    → KeepsCalls (status_alerts robot prev st)
status_alerts-Keeps robot prev st = search keeping depth 12

pub on_robot_state-Keeps :
    (w : World) (robot : ℕ) (st : RobotState) → KeepsCalls (on_robot_state w robot st)
unfolding on_robot_state
on_robot_state-Keeps w robot st =
    search
      (
        keeping, seen, recovered-Keeps, kpi_robot-Keeps, measure_at-Keeps, status_alerts-Keeps,
        reconcile-Keeps,
      )
      depth 16

on_status_of-Keeps :
    (w : World) (robot task : ℕ) (s : Status) (r : TaskRecord)
    → KeepsCalls (on_status_of w robot task s r)
unfolding on_status_of
on_status_of-Keeps w robot task pending r = pure-Keeps tt
on_status_of-Keeps w robot task in_progress r = on_robot_started-Keeps w true task robot
on_status_of-Keeps w robot task completed r =
    search (keeping, on_task_event-Keeps, known_record-Keeps, conflict-Keeps) depth 16
on_status_of-Keeps w robot task failed r =
    search (keeping, fail_task-Keeps, conflict-Keeps) depth 12

known-Keeps :
    (w : World) (robot task : ℕ) (s : Status) (o : Option TaskRecord)
    → KeepsCalls (on_status_of_known w robot task s o)
unfolding on_status_of_known
known-Keeps w robot task s none = pure-Keeps tt
known-Keeps w robot task s (some r) = on_status_of-Keeps w robot task s r

pub on_task_status-Keeps :
    (w : World) (robot task : ℕ) (s : Status) → KeepsCalls (on_task_status w robot task s)
unfolding on_task_status
on_task_status-Keeps w robot task s = search (keeping, known-Keeps)
