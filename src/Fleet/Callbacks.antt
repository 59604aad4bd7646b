-- ===== src/Fleet/Callbacks.antt =====
-- The callbacks of timers, requests and events.
use amr_fleet_system.Prelude.{
  ℕ, ◌+◌, ℤ, pos, ◌+ℤ◌, ◌-ℤ◌, ltb_ℤ, leb_ℤ, Bool, true, false, not, ◌&&◌, ◌||◌, ◌==◌, Option, none,
  some, List, [], ◌∷◌, length, if◌then◌else◌,
}
use amr_fleet_system.Prelude.Dict.{lookup, contains, insert, keys}
use amr_fleet_system.Task.{TaskSpec, in_progress}
use amr_fleet_system.TaskState.{TaskRecord, with_status, check_deadlines, active_task_of, counts}
use amr_fleet_system.Kpi.{Snapshot, snapshot, record_deadlock}
use amr_fleet_system.Latency
use amr_fleet_system.Latency.{pop_ready}
use amr_fleet_system.Fleet.State.{
  Robot, Dispatch, Fleet, World, Do, pure, gets, ◌>>=◌, ◌>>◌, skip, modify, each, robot_at,
  set_robot, guarded, error, warn, robot_lost, assign_timeout, deadline_missed_alert, invalid_task,
  alert,
}
use amr_fleet_system.Fleet.Tasks.{update_kpi_robot, admit, fail_task}
use amr_fleet_system.Fleet.Rounds.{is_none, send, abort_dispatch, allocate_round}

-- `_add_robot`
abbrev pub new_robot : ℤ → Robot
new_robot long_ago = record {
  state = none;
  last_seen = long_ago;
  lost = false;
  load = 0;
  inflight = none;
  backoff_until = long_ago;
}

unfoldable pub add_robot : ℤ → ℕ → Fleet → Fleet
add_robot long_ago robot f =
    if contains robot f.robots
    then f
    else record f { robots = insert robot (new_robot long_ago) f.robots }

-- `_check_admissible`: a new task, and a robot that is known if one is given
abbrev pub is_admissible : TaskSpec → Fleet → Bool
is_admissible spec f =
    not (contains spec.task_id f.sm.records)
    && (spec.robot_id == 0 || contains spec.robot_id f.robots)

-- `_reject_task`; the task is the one that the request names, or 0.
abbrev pub reject_task : ℕ → Do (Unit {0})
reject_task task = do
  modify (λ f. record f { invalid_tasks = f.invalid_tasks + 1 })
  alert warn invalid_task 0 task

-- `_request_batch_allocation`
unfoldable pub request_batch_allocation : World → Do (Unit {0})
request_batch_allocation w = do
  f ← gets (λ f. f)
  if leb_ℤ f.params.allocation_batch_window (pos 0)
      then allocate_round w
      else if length f.batch_trigger.heap == 0
      then modify (λ f. record f {
        batch_trigger =
            (Latency.push 0 w.now f.params.allocation_batch_window none f.batch_trigger).1;
      })
      else skip

-- `_on_task_request`, with the request as the schema reads it: a valid description, or the id that it names
pub data Request : Type 0 where
  invalid : (task : ℕ) → Request
  valid : TaskSpec → Request

unfoldable pub on_task_request : World → Request → Do (Unit {0})
unfolding request_batch_allocation
on_task_request w (invalid task) = reject_task task
on_task_request w (valid spec) = do
  fits ← gets (is_admissible spec)
  if not fits then reject_task spec.task_id else do admit w spec; request_batch_allocation w

-- `_handle_assign_task`: the answer names the robot, if one is called.
pub record AssignReply : Type 0 where
  pub success : Bool
  pub robot : ℕ

abbrev pub refused_reply : AssignReply
refused_reply = record { success = false; robot = 0 }

abbrev pub reply_for : TaskSpec → Fleet → AssignReply
reply_for spec f = record {
  success = true;
  robot = elim (lookup spec.task_id f.inflight) [
    | some d ↦ if d.robot_id == 0 then spec.robot_id else d.robot_id
    | none ↦ spec.robot_id
  ];
}

unfoldable pub handle_assign_task : World → Request → Do AssignReply
handle_assign_task w (invalid task) = do reject_task task; pure refused_reply
handle_assign_task w (valid spec) = do
  fits ← gets (is_admissible spec)
  if not fits
      then (do reject_task spec.task_id; pure refused_reply)
      else do admit w (record spec { created = w.now }); allocate_round w; gets (reply_for spec)

-- `TimerQueue._on_timer` of the delayed calls, and of the batch window
unfoldable pub on_outbox_timer : World → Do (Unit {0})
on_outbox_timer w = do
  tasks ← λ f.
      (let (ready, queue) = pop_ready w.now f.outbox in (some ready, record f { outbox = queue }))
  each (λ task. modify (guarded (send (allocate_round w) w task))) tasks

unfoldable pub on_batch_timer : World → Do (Unit {0})
on_batch_timer w = do
  items ← λ f.
      (let (ready, queue) = pop_ready w.now f.batch_trigger in
        (some ready, record f { batch_trigger = queue }))
  each (λ item. modify (guarded (allocate_round w))) items

-- `self._inflight.get(task_id) is d`
abbrev pub same_call : Dispatch → Option Dispatch → Bool
same_call d none = false
same_call d (some e) = d.identity == e.identity

-- Whether a robot has been heard since the call was given up, and does not have the task.
abbrev pub denies : ℤ → ℕ → Dispatch → Robot → Bool
denies reconcile task d r = elim r.state [
  | none ↦ false
  | some s ↦ leb_ℤ (d.timeout_at +ℤ reconcile) r.last_seen && not (s.current_task_id == task)
]

abbrev pub is_answered : World → Option ℕ → Bool
is_answered w none = false
is_answered w (some future) = w.answered future

abbrev pub mark_unconfirmed : ℕ → Dispatch → Fleet → Fleet
mark_unconfirmed task d f = record f {
  inflight = insert task (record d { unconfirmed = true }) f.inflight;
}

-- A call that was sent and has no answer: it is kept until the robot is known not to have the task.
unfoldable pub check_unanswered : World → ℕ → Dispatch → Do (Unit {0})
check_unanswered w task d =
    if not d.unconfirmed
    then (do modify (mark_unconfirmed task d); alert warn assign_timeout d.robot_id task)
    else do
      r ← robot_at d.robot_id
      reconcile ← gets (λ f. f.params.assign_reconcile)
      if denies reconcile task d r
          then abort_dispatch (allocate_round w) w task d.robot_id
          else skip

-- `_check_dispatch_timeouts`, for one call of those at the start, by the call that is found now
unfoldable pub check_found : World → ℕ → Dispatch → Option Dispatch → Do (Unit {0})
unfolding check_unanswered
check_found w task old none = skip
check_found w task old (some d) =
    if not (same_call old (some d)) || not (ltb_ℤ d.timeout_at w.now)
    then skip
    else if is_none d.future
    then abort_dispatch (allocate_round w) w task d.robot_id
    else if is_answered w d.future
    then skip
    else check_unanswered w task d

unfoldable pub check_timeout : World → ℕ × Dispatch → Do (Unit {0})
unfolding check_found
check_timeout w (task, old) f = check_found w task old (lookup task f.inflight) f

unfoldable pub check_dispatch_timeouts : World → Do (Unit {0})
unfolding check_timeout
check_dispatch_timeouts w = do calls ← gets (λ f. f.inflight); each (check_timeout w) calls

-- `_on_allocation_timer`
unfoldable pub on_allocation_timer : World → Do (Unit {0})
unfolding check_dispatch_timeouts
on_allocation_timer w = do
  check_dispatch_timeouts w
  open_windows ← gets (λ f. length f.batch_trigger.heap)
  if open_windows == 0 then allocate_round w else skip

-- What `_check_liveness` does for one robot
abbrev pub is_silent : World → Fleet → Robot → Bool
is_silent w f r =
    not (is_none r.state) && not r.lost && ltb_ℤ f.params.robot_state_timeout (w.now -ℤ r.last_seen)

abbrev pub task_of : Option TaskRecord → Option ℕ → ℕ
task_of (some r) call = r.spec.task_id
task_of none none = 0
task_of none (some task) = task

unfoldable pub call_lost : World → ℕ → Option ℕ → Do (Unit {0})
call_lost w robot none = skip
call_lost w robot (some task) = abort_dispatch (allocate_round w) w task robot

unfoldable pub task_lost : World → ℕ → Option TaskRecord → Do (Unit {0})
task_lost w robot none = skip
task_lost w robot (some rec) = fail_task w rec.spec.task_id "robot_lost" robot

unfoldable pub lose_robot : World → ℕ → Do (Unit {0})
unfolding call_lost task_lost
lose_robot w robot = do
  set_robot robot (λ r. record r { lost = true })
  active ← gets (λ f. active_task_of robot f.sm)
  r ← robot_at robot
  alert error robot_lost robot (task_of active r.inflight)
  modify (update_kpi_robot robot w.now)
  call_lost w robot r.inflight
  task_lost w robot active

unfoldable pub check_robot : World → ℕ → Do (Unit {0})
unfolding lose_robot
check_robot w robot = do
  r ← robot_at robot
  silent ← gets (λ f. is_silent w f r)
  if silent then lose_robot w robot else skip

abbrev pub is_overdue : World → Fleet → TaskRecord → Bool
is_overdue w f r = elim r.start_time [
  | none ↦ false
  | some start ↦ ltb_ℤ f.params.task_timeout (w.now -ℤ start)
]

unfoldable pub check_task : World → TaskRecord → Do (Unit {0})
check_task w r = do
  late ← gets (λ f. is_overdue w f r)
  if late then fail_task w r.spec.task_id "timeout" r.robot_id else skip

unfoldable pub check_deadline_alerts : World → Do (Unit {0})
check_deadline_alerts w = do
  missed ← λ f. (let (rs, m) = check_deadlines w.now f.sm in (some rs, record f { sm = m }))
  each (λ r. alert warn deadline_missed_alert r.robot_id r.spec.task_id) missed

-- `_check_liveness`
unfoldable pub check_liveness : World → Do (Unit {0})
unfolding check_robot
check_liveness w = do robots ← gets (λ f. keys f.robots); each (check_robot w) robots

-- The tasks in progress that take too long, unless there is no limit
unfoldable pub check_overdue : World → Do (Unit {0})
unfolding check_task
check_overdue w = do
  running ←
      gets (λ f. if ltb_ℤ (pos 0) f.params.task_timeout then with_status in_progress f.sm else [])
  each (check_task w) running

-- `_on_status_timer`; what it publishes is its value.
unfoldable pub on_status_timer : World → Do Snapshot
unfolding check_liveness check_deadline_alerts check_overdue
on_status_timer w = do
  check_liveness w
  check_deadline_alerts w
  check_overdue w
  λ f.
      (let (snap, kpi) = snapshot w.now (some (counts f.sm)) f.kpi in
        (some snap, record f { kpi = kpi }))

-- `_on_traffic_event`, with whether each event is a deadlock
unfoldable pub on_traffic_event : List Bool → Fleet → Fleet
on_traffic_event [] f = f
on_traffic_event (is_deadlock ∷ events) f =
    on_traffic_event events
      (if is_deadlock then record f { kpi = record_deadlock (pos 1) f.kpi } else f)
