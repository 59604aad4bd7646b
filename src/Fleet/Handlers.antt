-- ===== src/Fleet/Handlers.antt =====
-- The callbacks keep the agreement of robots and calls.
use amr_fleet_system.Prelude.{
  ℕ, ◌+◌, ℤ, Bool, true, false, ◌≡◌, refl, inl, inr, Option, none, some, String, Option-cases,
  if◌then◌else◌,
}
use amr_fleet_system.Prelude.Dict.{lookup, erase}
use amr_fleet_system.Task.{TaskSpec}
use amr_fleet_system.Scheduler
use amr_fleet_system.TaskState.{is_terminal, TaskEvent, TaskRecord}
use amr_fleet_system.Fleet.State.{
  Robot, Dispatch, Fleet, World, Do, set_robot, modify, record_of, Level,
}
use amr_fleet_system.Fleet.Tasks.{
  update_kpi_robot, on_task_event, clear_inflight, enqueue, unqueue, measure_at, after_start,
  start_task, known_record, after_retry, note_robot, fail_task, admit,
}
use amr_fleet_system.Fleet.Rounds.{abort_dispatch, allocate_round, send}
use amr_fleet_system.Fleet.Reports.{
  Answer, accepted, refused, call_failed, conflict, start_pending, confirm_found, confirm_dispatch,
  late_start, started_pending, started_known, on_robot_started, on_answer, on_late_response,
  on_assign_response,
}
use amr_fleet_system.Fleet.Calls.{Agree, Agree-Closed}
use amr_fleet_system.Fleet.Keeping.{
  Holds, Keeps, pure-Keeps, modify-Keeps, keeping, set_robot-Keeps, clear_inflight-Keeps,
  abort_dispatch-Keeps, send-Keeps,
}
use amr_fleet_system.Fleet.Agreement.{allocate_round-Keeps}

abbrev pub KeepsCalls : {A : Type 0} → Do A → Type 0
KeepsCalls act = Keeps Agree act

pub read-Keeps : {A : Type 0} (g : Fleet → Option A) → KeepsCalls (λ f. (g f, f))
read-Keeps g = record { kept = λ f h. h }

cleared : (task : ℕ) → KeepsCalls (clear_inflight task)
cleared task = clear_inflight-Keeps Agree-Closed task

pub written :
    (k : ℕ) (g : Robot → Robot)
    → ((r : Robot) → (g r).inflight ≡ r.inflight)
    → KeepsCalls (set_robot k g)
written k g same = set_robot-Keeps Agree-Closed k g same

pub aborted :
    (w : World) (task robot : ℕ) → KeepsCalls (abort_dispatch (allocate_round w) w task robot)
aborted w task robot =
    abort_dispatch-Keeps Agree-Closed (allocate_round w) w task robot (allocate_round-Keeps w)

pub sent : (w : World) (task : ℕ) → KeepsCalls (send (allocate_round w) w task)
sent w task = send-Keeps Agree-Closed (allocate_round w) w task (allocate_round-Keeps w)

kpi_robot-Holds :
    (robot : ℕ) (now : ℤ) (f : Fleet) → Holds Agree f → Holds Agree (update_kpi_robot robot now f)
unfolding update_kpi_robot
kpi_robot-Holds robot now f h = elim (Option-cases (lookup robot f.robots)) [
  | inl e ↦ rw (e, update_kpi_robot) h
  | inr (r, e) ↦ rw (e, update_kpi_robot) h
]

pub kpi_robot-Keeps : (robot : ℕ) (now : ℤ) → KeepsCalls (modify (update_kpi_robot robot now))
kpi_robot-Keeps robot now = modify-Keeps (update_kpi_robot robot now) (kpi_robot-Holds robot now)

if-Holds :
    (b : Bool) (f g : Fleet) → Holds Agree f → Holds Agree g → Holds Agree (if b then f else g)
if-Holds true f g p q = p
if-Holds false f g p q = q

forgotten :
    (ev : TaskEvent)
    → KeepsCalls (
        modify (λ f.
          if is_terminal ev.new_status then record f { sent = erase ev.task_id f.sent } else f))
forgotten ev = modify-Keeps _ (λ f h. if-Holds (is_terminal ev.new_status) _ _ h h)

pub on_task_event-Keeps : (ev : TaskEvent) → KeepsCalls (on_task_event ev)
on_task_event-Keeps ev = search (keeping, forgotten, read-Keeps, kpi_robot-Keeps)

enqueue-Keeps : (spec : TaskSpec) → KeepsCalls (enqueue spec)
enqueue-Keeps spec = record {
  kept = λ f h. elim (Option-cases (Scheduler.push spec f.scheduler)) [
    | inl e ↦ rw (e, enqueue) h
    | inr (q, e) ↦ rw (e, enqueue) h
  ];
}

note_robot-Keeps : (task robot : ℕ) → KeepsCalls (note_robot task robot)
note_robot-Keeps task robot = record {
  kept = λ f h. elim (Option-cases (record_of task f)) [
    | inl e ↦ rw (e, note_robot) h
    | inr (r, e) ↦ rw (e, note_robot) h
  ];
}

unqueue-Keeps : (task : ℕ) → KeepsCalls (unqueue task)
unqueue-Keeps task = record { kept = λ f h. h }

pub known_record-Keeps : (task : ℕ) → KeepsCalls (known_record task)
known_record-Keeps task = read-Keeps (record_of task)

pub measure_at-Keeps :
    (w : World) (robot : ℕ) (o : Option (ℤ × ℤ)) → KeepsCalls (measure_at w robot o)
unfolding measure_at
measure_at-Keeps w robot none = pure-Keeps tt
measure_at-Keeps w robot (some (x, y)) = record { kept = λ f h. h }

loaded : (robot : ℕ) → KeepsCalls (set_robot robot (λ r. record r { load = r.load + 1 }))
loaded robot = written robot _ (λ r. refl)

after_start-Keeps :
    (w : World) (robot : ℕ) (o : Option TaskEvent) → KeepsCalls (after_start w robot o)
unfolding after_start
after_start-Keeps w robot none = pure-Keeps tt
after_start-Keeps w robot (some ev) =
    search (keeping, on_task_event-Keeps, loaded, measure_at-Keeps)

start_task-Keeps : (w : World) (task robot : ℕ) → KeepsCalls (start_task w task robot)
unfolding start_task
start_task-Keeps w task robot = search (keeping, after_start-Keeps)

after_retry-Keeps : (task robot : ℕ) (o : Option TaskEvent) → KeepsCalls (after_retry task robot o)
unfolding after_retry
after_retry-Keeps task robot none = pure-Keeps tt
after_retry-Keeps task robot (some ev) =
    search (keeping, on_task_event-Keeps, known_record-Keeps, enqueue-Keeps)

pub fail_task-Keeps :
    (w : World) (task : ℕ) (reason : String) (robot : ℕ)
    → KeepsCalls (fail_task w task reason robot)
unfolding fail_task
fail_task-Keeps w task reason robot =
    search
      (
        keeping, cleared, unqueue-Keeps, note_robot-Keeps, on_task_event-Keeps, known_record-Keeps,
        after_retry-Keeps,
      )
      depth 16

pub admit-Keeps : (w : World) (spec : TaskSpec) → KeepsCalls (admit w spec)
unfolding admit
admit-Keeps w spec = search (keeping, enqueue-Keeps)

-- Reports

pub conflict-Keeps : (level : Level) (robot task : ℕ) → KeepsCalls (conflict level robot task)
conflict-Keeps level robot task = record { kept = λ f h. h }

start_pending-Keeps : (w : World) (task robot : ℕ) → KeepsCalls (start_pending w task robot)
unfolding start_pending
start_pending-Keeps w task robot = search (keeping, unqueue-Keeps, start_task-Keeps)

confirm_found-Keeps :
    (w : World) (task robot : ℕ) (o : Option Dispatch) → KeepsCalls (confirm_found w task robot o)
unfolding confirm_found
confirm_found-Keeps w task robot none = pure-Keeps tt
confirm_found-Keeps w task robot (some d) = search (keeping, cleared, start_pending-Keeps)

pub confirm_dispatch-Keeps :
    (w : World) (task robot : ℕ) → KeepsCalls (confirm_dispatch w task robot)
unfolding confirm_dispatch
confirm_dispatch-Keeps w task robot = search (keeping, confirm_found-Keeps)

pub late_start-Keeps : (w : World) (task robot : ℕ) → KeepsCalls (late_start w task robot)
late_start-Keeps w task robot = search (keeping, unqueue-Keeps, start_task-Keeps)

started_pending-Keeps :
    (w : World) (allow_pinned : Bool) (task robot : ℕ) (r : TaskRecord) (o : Option Dispatch)
    → KeepsCalls (started_pending w allow_pinned task robot r o)
unfolding started_pending
started_pending-Keeps w allow_pinned task robot r (some d) =
    search (keeping, confirm_dispatch-Keeps, conflict-Keeps)
started_pending-Keeps w allow_pinned task robot r none =
    search (keeping, late_start-Keeps, conflict-Keeps)

started_known-Keeps :
    (w : World) (allow_pinned : Bool) (task robot : ℕ) (o : Option TaskRecord)
    → KeepsCalls (started_known w allow_pinned task robot o)
unfolding started_known
started_known-Keeps w allow_pinned task robot none = pure-Keeps tt
started_known-Keeps w allow_pinned task robot (some r) =
    search (keeping, started_pending-Keeps, conflict-Keeps)

pub on_robot_started-Keeps :
    (w : World) (allow_pinned : Bool) (task robot : ℕ)
    → KeepsCalls (on_robot_started w allow_pinned task robot)
unfolding on_robot_started
on_robot_started-Keeps w allow_pinned task robot = search (keeping, started_known-Keeps)

on_answer-Keeps : (w : World) (task robot : ℕ) (a : Answer) → KeepsCalls (on_answer w task robot a)
on_answer-Keeps w task robot accepted = start_pending-Keeps w task robot
on_answer-Keeps w task robot call_failed = aborted w task robot
on_answer-Keeps w task robot refused = aborted w task robot

on_late_response-Keeps :
    (w : World) (task robot : ℕ) (a : Answer) → KeepsCalls (on_late_response w task robot a)
on_late_response-Keeps w task robot accepted = on_robot_started-Keeps w false task robot
on_late_response-Keeps w task robot call_failed = pure-Keeps tt
on_late_response-Keeps w task robot refused = pure-Keeps tt

pub on_assign_response-Keeps :
    (w : World) (task robot future : ℕ) (a : Answer)
    → KeepsCalls (on_assign_response w task robot future a)
unfolding on_assign_response
on_assign_response-Keeps w task robot future a =
    search (keeping, cleared, on_answer-Keeps, on_late_response-Keeps)
