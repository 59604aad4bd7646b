-- ===== src/TaskState/Methods.antt =====
-- `TaskStateMachine`: queries and transitions. A method takes the machine and gives it back with the
-- result, also when it raises, since what was written before the exception stays.
use amr_fleet_system.Prelude.{
  ℕ, ◌+◌, ℤ, pos, ◌+ℤ◌, ◌-ℤ◌, ltb_ℤ, leb, ltb, Bool, true, false, not, ◌&&◌, ◌||◌, ◌==◌, Option,
  none, some, List, [], ◌∷◌, ◌++◌, filter, String, str_eq, text_append, if◌then◌else◌,
}
use amr_fleet_system.Prelude.Dict.{Dict, lookup, contains, insert, values}
use amr_fleet_system.Task.{
  Status, pending, in_progress, completed, failed, same_status, TaskSpec, is_deadline_missed,
}
use amr_fleet_system.TaskState.Types.{TaskEvent, TaskRecord, is_terminal, allowed}
use amr_fleet_system.TaskState.Log.{
  Error, duplicate_task, unknown_task, invalid_transition, os_error, Result, ok, err, Writer, Disk,
  write,
}

pub record Machine : Type 0 where
  pub records : Dict TaskRecord
  pub events : List TaskEvent
  -- `_log`, and whether `_on_log_error` is set, with the records that it was called for
  pub log : Option Writer
  pub has_error_handler : Bool
  pub log_errors : List TaskRecord
  pub max_retries : ℕ
  pub max_pose_step_m : ℤ

abbrev pub Action : Type 0 → Type 0
Action A = Machine → Result A × Machine

module _ {A : Type 0} where
  abbrev pub pure : A → Action A
  pure a m = (ok a, m)

  abbrev pub raise : Error → Action A
  raise e m = (err e, m)

  abbrev pub gets : (Machine → A) → Action A
  gets f m = (ok (f m), m)

infixl 5 ◌>>=◌ ◌>>◌
abbrev pub ◌>>=◌ : {A B : Type 0} → Action A → (A → Action B) → Action B
◌>>=◌ act f m = let (r, m') = act m in elim r [ ok a ↦ f a m' | err e ↦ raise e m' ]

abbrev pub ◌>>◌ : {A B : Type 0} → Action A → Action B → Action B
act >> k = act >>= λ _. k

abbrev pub modify : (Machine → Machine) → Action (Unit {0})
modify f m = (ok tt, f m)

-- queries

unfoldable pub with_status : Status → Machine → List TaskRecord
with_status s m = filter (λ r. same_status r.status s) (values m.records)

abbrev pub first_active : ℕ → List TaskRecord → Option TaskRecord
first_active robot [] = none
first_active robot (r ∷ rs) =
    if same_status r.status in_progress && r.robot_id == robot
    then some r
    else first_active robot rs

unfoldable pub active_task_of : ℕ → Machine → Option TaskRecord
active_task_of robot m = first_active robot (values m.records)

pub record Counts : Type 0 where
  pub pending_tasks : ℕ
  pub in_progress_tasks : ℕ
  pub completed_tasks : ℕ
  pub failed_tasks : ℕ

abbrev pub tally : Status → Counts → Counts
tally pending c = record c { pending_tasks = c.pending_tasks + 1 }
tally in_progress c = record c { in_progress_tasks = c.in_progress_tasks + 1 }
tally completed c = record c { completed_tasks = c.completed_tasks + 1 }
tally failed c = record c { failed_tasks = c.failed_tasks + 1 }

abbrev pub counts_from : Counts → List TaskRecord → Counts
counts_from c [] = c
counts_from c (r ∷ rs) = counts_from (tally r.status c) rs

unfoldable pub counts : Machine → Counts
counts m =
    counts_from
      (record { pending_tasks = 0; in_progress_tasks = 0; completed_tasks = 0; failed_tasks = 0 })
      (values m.records)

unfoldable pub can_retry : ℕ → Machine → Bool
can_retry task m = elim (lookup task m.records) [
  | none ↦ false
  | some r ↦ same_status r.status failed && ltb 0 r.failures && leb r.failures m.max_retries
]

-- transitions

abbrev pub require : ℕ → Action TaskRecord
require task m = elim (lookup task m.records) [ none ↦ raise unknown_task m | some r ↦ pure r m ]

abbrev pub check : TaskRecord → Status → Action (Unit {0})
check r new = if allowed r.status new then pure tt else raise invalid_transition

-- `self._records[...]`: the mutations of the record are written back under its key.
abbrev pub store : TaskRecord → Machine → Machine
store r m = record m { records = insert r.spec.task_id r m.records }

abbrev pub event_of : TaskRecord → Status → Status → ℤ → String → TaskEvent
event_of r old new now reason = record {
  task_id = r.spec.task_id;
  robot_id = r.robot_id;
  old_status = old;
  new_status = new;
  time = now;
  reason = reason;
}

abbrev pub append_event : TaskEvent → Machine → Machine
append_event ev m = record m { events = m.events ++ ev ∷ [] }

-- `_emit`; the callback only publishes.
unfoldable pub emit : TaskRecord → Status → Status → ℤ → String → Action TaskEvent
emit r old new now reason m = let ev = event_of r old new now reason in (ok ev, append_event ev m)

-- The two status fields that `_transition` writes.
abbrev pub moved : Status → TaskRecord → TaskRecord
moved new r = record r { status = new; spec = record r.spec { status = new } }

-- `_transition`, on the record with what the caller has set
unfoldable pub transition : TaskRecord → Status → ℤ → String → Action TaskEvent
unfolding emit
transition r new now reason = do
  modify (store (moved new r))
  emit (moved new r) r.status new now reason

-- `_write_log`
unfoldable pub write_log : Disk → TaskRecord → Action (Unit {0})
unfolding write
write_log disk r m = elim m.log [
  | none ↦ (ok tt, m)
  | some w ↦
      let (result, w') = write disk r w in
      let m' = record m { log = some w' } in
      elim result [
        | ok _ ↦ (ok tt, m')
        | err os_error ↦
            if m.has_error_handler
            then (ok tt, record m' { log_errors = m.log_errors ++ r ∷ [] })
            else (err os_error, m')
        | err e ↦ (err e, m')
      ]
]

-- The record of a task that has just come in.
abbrev pub new_record : TaskSpec → ℤ → TaskRecord
new_record spec now = record {
  spec = record spec { status = pending };
  status = pending;
  robot_id = spec.robot_id;
  created_time = now;
  start_time = none;
  end_time = none;
  distance_m = pos 0;
  result = "";
  attempts = 0;
  failures = 0;
  deadline_missed = false;
  last_pose = none;
  pinned_robot_id = spec.robot_id;
  command_time = none;
}

unfoldable pub add : TaskSpec → ℤ → Action TaskRecord
unfolding emit
add spec now = do
  known ← gets (λ m. contains spec.task_id m.records)
  if known then raise duplicate_task else do
    let r = new_record spec now
    modify (store r)
    emit r pending pending now "created"
    pure r

-- What `start` sets before the transition, and below what `complete`, `fail` and `retry` set.
abbrev pub assigned : ℕ → ℤ → Option ℤ → TaskRecord → TaskRecord
assigned robot now command_time r = record r {
  robot_id = robot;
  spec = record r.spec { robot_id = robot };
  start_time = some now;
  command_time = command_time;
  attempts = r.attempts + 1;
  last_pose = none;
}

unfoldable pub start : ℕ → ℕ → ℤ → Option ℤ → Action (Option TaskEvent)
unfolding transition
start task robot now command_time = do
  r ← require task
  if same_status r.status in_progress && r.robot_id == robot then pure none else do
    check r in_progress
    ev ← transition (assigned robot now command_time r) in_progress now "assigned"
    pure (some ev)

abbrev pub finished : ℤ → String → TaskRecord → TaskRecord
finished now result r = record r { end_time = some now; result = result }

unfoldable pub complete : Disk → ℕ → ℤ → String → Action TaskEvent
unfolding transition
complete disk task now result = do
  r ← require task
  check r completed
  ev ← transition (finished now result r) completed now result
  write_log disk (moved completed (finished now result r))
  pure ev

-- The result cell of a failed task.
abbrev pub failure_text : String → String
failure_text reason =
    if not (str_eq reason "") && not (str_eq reason "failed")
    then text_append "failed:" reason
    else "failed"

abbrev pub broken_off : ℤ → String → TaskRecord → TaskRecord
broken_off now reason r = record r {
  end_time = some now;
  failures = r.failures + 1;
  result = failure_text reason;
}

unfoldable pub fail : Disk → ℕ → ℤ → String → Action TaskEvent
unfolding transition
fail disk task now reason = do
  r ← require task
  check r failed
  ev ← transition (broken_off now reason r) failed now reason
  write_log disk (moved failed (broken_off now reason r))
  pure ev

abbrev pub requeued : TaskRecord → TaskRecord
requeued r = record r {
  robot_id = r.pinned_robot_id;
  spec = record r.spec { robot_id = r.pinned_robot_id };
  start_time = none;
  end_time = none;
  command_time = none;
  distance_m = pos 0;
  result = "";
  last_pose = none;
}

unfoldable pub retry : ℕ → ℤ → Action (Option TaskEvent)
unfolding can_retry transition
retry task now = do
  possible ← gets (can_retry task)
  if not possible
      then pure none
      else do r ← require task; ev ← transition (requeued r) pending now "retry"; pure (some ev)

-- distance and deadlines

-- The step that is added: 0 without an earlier pose, and 0 for a jump.
abbrev pub pose_step : (ℤ → ℤ → ℤ) → ℤ → Option (ℤ × ℤ) → ℤ → ℤ → ℤ
pose_step hypot limit none x y = pos 0
pose_step hypot limit (some (px, py)) x y =
    let step = hypot (x -ℤ px) (y -ℤ py) in if ltb_ℤ limit step then pos 0 else step

-- What `update_pose` writes to the record.
abbrev pub paced : (ℤ → ℤ → ℤ) → ℤ → ℤ → ℤ → TaskRecord → TaskRecord
paced hypot limit x y r = record r {
  distance_m = r.distance_m +ℤ pose_step hypot limit r.last_pose x y;
  last_pose = some (x, y);
}

-- `hypot` is the math library's.
unfoldable pub update_pose : (hypot : ℤ → ℤ → ℤ) → ℕ → ℤ → ℤ → Machine → ℤ × Machine
unfolding active_task_of
update_pose hypot robot x y m = elim (active_task_of robot m) [
  | none ↦ (pos 0, m)
  | some r ↦ (
    pose_step hypot m.max_pose_step_m r.last_pose x y,
    store (paced hypot m.max_pose_step_m x y r) m,
  )
]

abbrev pub newly_missed : ℤ → TaskRecord → Bool
newly_missed now r =
    not (is_terminal r.status || r.deadline_missed) && is_deadline_missed r.spec now

abbrev pub mark_missed : ℤ → TaskRecord → TaskRecord
mark_missed now r = if newly_missed now r then record r { deadline_missed = true } else r

abbrev pub mark_all : ℤ → Dict TaskRecord → Dict TaskRecord
mark_all now [] = []
mark_all now ((k, r) ∷ d) = (k, mark_missed now r) ∷ mark_all now d

abbrev pub missed_of : ℤ → List TaskRecord → List TaskRecord
missed_of now [] = []
missed_of now (r ∷ rs) =
    if newly_missed now r
    then record r { deadline_missed = true } ∷ missed_of now rs
    else missed_of now rs

unfoldable pub check_deadlines : ℤ → Machine → List TaskRecord × Machine
check_deadlines now m =
    (missed_of now (values m.records), record m { records = mark_all now m.records })
