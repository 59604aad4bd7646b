-- ===== src/Fleet/Reports.antt =====
-- What robots report: answers to calls, states, and the status of tasks.
use amr_fleet_system.Prelude.{
  ℕ, ◌+◌, ℤ, pos, Bool, true, false, not, ◌&&◌, ◌||◌, ◌==◌, Option, none, some, if◌then◌else◌,
}
use amr_fleet_system.Prelude.Dict.{lookup, contains}
use amr_fleet_system.Task.{Status, pending, in_progress, completed, failed, same_status}
use amr_fleet_system.TaskState.{TaskRecord, complete, duration_s, active_task_of}
use amr_fleet_system.Kpi.{status_error, status_estop, record_completion}
use amr_fleet_system.Fleet.State.{
  RobotState, Dispatch, Fleet, World, Do, pure, gets, ◌>>=◌, ◌>>◌, skip, modify, on_machine,
  robot_at, set_robot, record_of, Level, ok_level, error, warn, estop_alert, robot_error,
  robot_recovered, task_conflict, alert,
}
use amr_fleet_system.Fleet.Tasks.{
  has_task, update_kpi_robot, on_task_event, clear_inflight, unqueue, start_task, fail_task,
  measure_at, known_record,
}
use amr_fleet_system.Fleet.Rounds.{abort_dispatch, allocate_round, sent_to}

-- `_conflict`
abbrev pub conflict : Level → ℕ → ℕ → Do (Unit {0})
conflict level robot task = do
  modify (λ f. record f { conflicts = f.conflicts + 1 })
  alert level task_conflict robot task

abbrev pub status_in : ℕ → Fleet → Option Status
status_in task f = elim (record_of task f) [ none ↦ none | some r ↦ some r.status ]

abbrev pub is_pending : Option Status → Bool
is_pending none = false
is_pending (some s) = same_status s pending

-- A task that is still pending leaves the queue and starts on the robot.
unfoldable pub start_pending : World → ℕ → ℕ → Do (Unit {0})
start_pending w task robot = do
  status ← gets (status_in task)
  if is_pending status then (do unqueue task; start_task w task robot) else skip

-- `_confirm_dispatch`, for the call that is found
unfoldable pub confirm_found : World → ℕ → ℕ → Option Dispatch → Do (Unit {0})
unfolding start_pending
confirm_found w task robot none = skip
confirm_found w task robot (some d) =
    if d.robot_id == robot then (do clear_inflight task; start_pending w task robot) else skip

unfoldable pub confirm_dispatch : World → ℕ → ℕ → Do (Unit {0})
unfolding confirm_found
confirm_dispatch w task robot = do
  found ← gets (λ f. lookup task f.inflight)
  confirm_found w task robot found

-- `_late_start`
abbrev pub late_start : World → ℕ → ℕ → Do (Unit {0})
late_start w task robot = do unqueue task; start_task w task robot

-- `_on_robot_started`: for a task that is pending, by the call that is found, and for the record that is found
unfoldable pub started_pending : World → Bool → ℕ → ℕ → TaskRecord → Option Dispatch → Do (Unit {0})
unfolding confirm_dispatch
started_pending w allow_pinned task robot r (some d) =
    if d.robot_id == robot then confirm_dispatch w task robot else conflict error robot task
started_pending w allow_pinned task robot r none = do
  known ←
      gets (λ f. contains robot (sent_to task f.sent) || allow_pinned && robot == r.pinned_robot_id)
  busy ← gets (λ f. has_task (active_task_of robot f.sm))
  if known && not busy then late_start w task robot else conflict error robot task

unfoldable pub started_known : World → Bool → ℕ → ℕ → Option TaskRecord → Do (Unit {0})
unfolding started_pending
started_known w allow_pinned task robot none = skip
started_known w allow_pinned task robot (some r) =
    if same_status r.status pending
    then (do
      found ← gets (λ f. lookup task f.inflight)
      started_pending w allow_pinned task robot r found)
    else if r.robot_id == robot
    then skip
    else conflict error robot task

unfoldable pub on_robot_started : World → Bool → ℕ → ℕ → Do (Unit {0})
unfolding started_known
on_robot_started w allow_pinned task robot = do
  found ← gets (record_of task)
  started_known w allow_pinned task robot found

-- The answer to a call: it failed, or the robot refused or accepted.
pub data Answer : Type 0 where
  call_failed refused accepted : Answer

-- `_on_late_response`
abbrev pub on_late_response : World → ℕ → ℕ → Answer → Do (Unit {0})
on_late_response w task robot accepted = on_robot_started w false task robot
on_late_response w task robot _ = skip

abbrev pub on_answer : World → ℕ → ℕ → Answer → Do (Unit {0})
on_answer w task robot accepted = start_pending w task robot
on_answer w task robot _ = abort_dispatch (allocate_round w) w task robot

abbrev pub is_call : ℕ → Option Dispatch → Bool
is_call future none = false
is_call future (some d) = elim d.future [ none ↦ false | some n ↦ n == future ]

-- `_on_assign_response`
unfoldable pub on_assign_response : World → ℕ → ℕ → ℕ → Answer → Do (Unit {0})
unfolding on_robot_started start_pending
on_assign_response w task robot future answer = do
  found ← gets (λ f. lookup task f.inflight)
  if is_call future found
      then (do clear_inflight task; on_answer w task robot answer)
      else on_late_response w task robot answer

-- `_reconcile_from_state`
unfoldable pub reconcile_from_state : World → ℕ → ℕ → Do (Unit {0})
unfolding confirm_dispatch
reconcile_from_state w robot current = if current == 0 then skip else do
  r ← robot_at robot
  calling ← pure (elim r.inflight [ none ↦ false | some t ↦ t == current ])
  if calling then confirm_dispatch w current robot else do
    late ← gets (λ f.
        is_pending (status_in current f)
        && not (contains current f.inflight)
        && contains robot (sent_to current f.sent)
        && not (has_task (active_task_of robot f.sm)))
    if late then late_start w current robot else skip

-- The alerts at a change of the status.
abbrev pub has_status : ℕ → Option RobotState → Bool
has_status s none = false
has_status s (some r) = r.status == s

abbrev pub status_alerts : ℕ → Option RobotState → RobotState → Do (Unit {0})
status_alerts robot prev st = do
  if st.status == status_estop && not (has_status status_estop prev)
      then alert error estop_alert robot st.current_task_id
      else if has_status status_estop prev && not (st.status == status_estop)
      then alert ok_level estop_alert robot st.current_task_id
      else skip
  if st.status == status_error && not (has_status status_error prev)
      then alert warn robot_error robot st.current_task_id
      else skip

abbrev pub recovered : ℕ → Do (Unit {0})
recovered robot = do
  set_robot robot (λ r. record r { lost = false })
  alert ok_level robot_recovered robot 0

-- `_on_robot_state`
unfoldable pub on_robot_state : World → ℕ → RobotState → Do (Unit {0})
unfolding reconcile_from_state
on_robot_state w robot st = do
  r ← robot_at robot
  set_robot robot (λ r. record r { state = some st; last_seen = w.now })
  if r.lost then recovered robot else skip
  modify (update_kpi_robot robot w.now)
  measure_at w robot st.position
  status_alerts robot r.state st
  reconcile_from_state w robot st.current_task_id

abbrev pub or_zero_duration : TaskRecord → ℤ
or_zero_duration r = elim (duration_s r) [ none ↦ pos 0 | some d ↦ d ]

abbrev pub owns : Status → ℕ → TaskRecord → Bool
owns s robot r = same_status r.status s && r.robot_id == robot

abbrev pub called : ℕ → Option Dispatch → Bool
called robot none = false
called robot (some d) = d.robot_id == robot

-- `_on_task_status`, for a known task; a status of pending is not looked at.
unfoldable pub on_status_of : World → ℕ → ℕ → Status → TaskRecord → Do (Unit {0})
unfolding on_robot_started
on_status_of w robot task pending r = skip
on_status_of w robot task in_progress r = on_robot_started w true task robot
on_status_of w robot task completed r =
    if owns in_progress robot r
    then (do
      ev ← on_machine (complete w.disk task w.now "completed")
      on_task_event ev
      ended ← known_record task
      modify (λ f. record f { kpi = record_completion w.now (or_zero_duration ended) f.kpi }))
    else if owns completed robot r
    then skip
    else conflict warn robot task
on_status_of w robot task failed r = do
  d ← gets (λ f. lookup task f.inflight)
  if owns in_progress robot r || same_status r.status pending && called robot d
      then fail_task w task "robot_reported" robot
      else if owns failed robot r
      then skip
      else conflict warn robot task

unfoldable pub on_status_of_known : World → ℕ → ℕ → Status → Option TaskRecord → Do (Unit {0})
unfolding on_status_of
on_status_of_known w robot task status none = skip
on_status_of_known w robot task status (some r) = on_status_of w robot task status r

unfoldable pub on_task_status : World → ℕ → ℕ → Status → Do (Unit {0})
unfolding on_status_of_known
on_task_status w robot task status = do
  found ← gets (record_of task)
  on_status_of_known w robot task status found
