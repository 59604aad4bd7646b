-- ===== src/TaskState/Replay.antt =====
-- The event log as an abstract machine: a table of statuses, to which each event is one step. The
-- methods of `TaskStateMachine` refine it.
use amr_fleet_system.Prelude.{
  ℕ, ℤ, ◌≡◌, refl, inl, inr, true, ◌&&◌, Option, none, some, List, [], ◌∷◌, ◌++◌, String, arith,
  if◌then◌else◌, Option-cases,
}
use amr_fleet_system.Prelude.Dict.{Dict, lookup, insert}
use amr_fleet_system.Task.{Status, pending, in_progress, completed, failed, same_status, TaskSpec}
use amr_fleet_system.TaskState.Types.{TaskEvent, TaskRecord, allowed}
use amr_fleet_system.TaskState.Log.{Disk}
use amr_fleet_system.TaskState.Methods.{
  Machine, store, write_log, add, start, complete, fail, retry, active_task_of, update_pose,
  check_deadlines, new_record, moved, assigned, finished, broken_off, requeued, paced, mark_all,
  append_event, event_of,
}
use amr_fleet_system.TaskState.Validity.{IsValid, lookup-IsRecordValid, first_active_lem}

-- A new task enters as pending; a known one moves along an allowed transition, from the status that
-- it is in.
abbrev pub replay_event : TaskEvent → Dict Status → Option (Dict Status)
replay_event ev d = elim (lookup ev.task_id d) [
  | none ↦
      if same_status ev.old_status pending && same_status ev.new_status pending
      then some (insert ev.task_id pending d)
      else none
  | some s ↦
      if same_status ev.old_status s && allowed s ev.new_status
      then some (insert ev.task_id ev.new_status d)
      else none
]

abbrev pub replay : Dict Status → List TaskEvent → Option (Dict Status)
replay d [] = some d
replay d (ev ∷ evs) = elim (replay_event ev d) [ none ↦ none | some d' ↦ replay d' evs ]

abbrev pub statuses : Dict TaskRecord → Dict Status
statuses [] = []
statuses ((k, r) ∷ d) = (k, r.status) ∷ statuses d

-- The events account for the table of statuses.
abbrev pub IsReplayed : Machine → Type 0
IsReplayed m = replay [] m.events ≡ some (statuses m.records)

replay-snoc :
    (ev : TaskEvent) (evs : List TaskEvent) (d e f : Dict Status)
    → replay d evs ≡ some e
    → replay_event ev e ≡ some f
    → replay d (evs ++ ev ∷ []) ≡ some f
replay-snoc ev [] d e f h k = ground arith
replay-snoc ev (x ∷ evs) d e f h k = elim (Option-cases (replay_event x d)) [
  | inl none_left ↦ ground arith
  | inr (d', step) ↦ ground (arith, replay-snoc ev evs d' e f)
]

lookup-statuses :
    (k : ℕ) (d : Dict TaskRecord)
    → lookup k (statuses d) ≡ elim (lookup k d) [ none ↦ none | some r ↦ some r.status ]
lookup-statuses k [] = refl
lookup-statuses k ((j, r) ∷ d) = ground (arith, lookup-statuses k d)

statuses-insert :
    (k : ℕ) (r : TaskRecord) (d : Dict TaskRecord)
    → statuses (insert k r d) ≡ insert k r.status (statuses d)
statuses-insert k r [] = refl
statuses-insert k r ((j, x) ∷ d) = ground (arith, statuses-insert k r d)

-- Storing a record of the same status changes no status.
statuses-insert_same :
    (k : ℕ) (r x : TaskRecord) (d : Dict TaskRecord)
    → lookup k d ≡ some x
    → r.status ≡ x.status
    → statuses (insert k r d) ≡ statuses d
statuses-insert_same k r x [] e h = cc
statuses-insert_same k r x ((j, y) ∷ d) e h = ground (arith, statuses-insert_same k r x d)

statuses-mark_all : (now : ℤ) (d : Dict TaskRecord) → statuses (mark_all now d) ≡ statuses d
statuses-mark_all now [] = refl
statuses-mark_all now ((k, r) ∷ d) = ground (arith, statuses-mark_all now d)

same_status_refl : (s : Status) → same_status s s ≡ true
same_status_refl pending = refl
same_status_refl _ = refl

-- One transition of a stored task, with its event.
moved-IsReplayed :
    (r x : TaskRecord) (new : Status) (now : ℤ) (reason : String) (m : Machine)
    → IsReplayed m
    → lookup r.spec.task_id m.records ≡ some x
    → allowed x.status new ≡ true
    → IsReplayed
        (append_event (event_of (moved new r) x.status new now reason) (store (moved new r) m))
moved-IsReplayed r x new now reason m h found fine =
    replay-snoc (event_of (moved new r) x.status new now reason) m.events [] (statuses m.records) _
      h
      (ground (
        arith,
        lookup-statuses r.spec.task_id m.records,
        same_status_refl x.status,
        statuses-insert r.spec.task_id (moved new r) m.records,
      ))

pub add-IsReplayed :
    (spec : TaskSpec) (now : ℤ) (m : Machine) → IsReplayed m → IsReplayed (add spec now m).1
unfolding add
add-IsReplayed spec now m h = elim (Option-cases (lookup spec.task_id m.records)) [
  | inl e ↦ ground (
    arith,
    replay-snoc (event_of (new_record spec now) pending pending now "created") m.events []
        (statuses m.records) (insert spec.task_id pending (statuses m.records)),
    lookup-statuses spec.task_id m.records,
    statuses-insert spec.task_id (new_record spec now) m.records,
  )
  | inr (r, e) ↦ ground arith
]

module _ (m : Machine) (v : IsValid m) (h : IsReplayed m) where
  pub start-IsReplayed :
      (task robot : ℕ) (now : ℤ) (command_time : Option ℤ)
      → IsReplayed (start task robot now command_time m).1
  unfolding start
  start-IsReplayed task robot now command_time = elim (Option-cases (lookup task m.records)) [
    | inl e ↦ ground arith
    | inr (r, e) ↦ ground (
      arith,
      (lookup-IsRecordValid task r m v e).keyed,
      moved-IsReplayed (assigned robot now command_time r) r in_progress now "assigned" m h,
    )
  ]

  pub complete-IsReplayed :
      (disk : Disk) (task : ℕ) (now : ℤ) (result : String)
      → IsReplayed (complete disk task now result m).1
  unfolding complete write_log
  complete-IsReplayed disk task now result = elim (Option-cases (lookup task m.records)) [
    | inl e ↦ ground arith
    | inr (r, e) ↦ ground (
      arith,
      (lookup-IsRecordValid task r m v e).keyed,
      moved-IsReplayed (finished now result r) r completed now result m h,
    )
  ]

  pub fail-IsReplayed :
      (disk : Disk) (task : ℕ) (now : ℤ) (reason : String)
      → IsReplayed (fail disk task now reason m).1
  unfolding fail write_log
  fail-IsReplayed disk task now reason = elim (Option-cases (lookup task m.records)) [
    | inl e ↦ ground arith
    | inr (r, e) ↦ ground (
      arith,
      (lookup-IsRecordValid task r m v e).keyed,
      moved-IsReplayed (broken_off now reason r) r failed now reason m h,
    )
  ]

  pub retry-IsReplayed : (task : ℕ) (now : ℤ) → IsReplayed (retry task now m).1
  unfolding retry
  retry-IsReplayed task now = elim (Option-cases (lookup task m.records)) [
    | inl e ↦ ground arith
    | inr (r, e) ↦ ground (
      arith,
      (lookup-IsRecordValid task r m v e).keyed,
      moved-IsReplayed (requeued r) r pending now "retry" m h,
    )
  ]

  pub update_pose-IsReplayed :
      (hypot : ℤ → ℤ → ℤ) (robot : ℕ) (x y : ℤ) → IsReplayed (update_pose hypot robot x y m).1
  unfolding update_pose
  update_pose-IsReplayed hypot robot x y = elim (Option-cases (active_task_of robot m)) [
    | inl e ↦ ground arith
    | inr (r, e) ↦ ground (
      arith,
      first_active_lem m.max_retries robot r m.records v.entries v.unique e,
      statuses-insert_same r.spec.task_id (paced hypot m.max_pose_step_m x y r) r m.records,
    )
  ]

  pub check_deadlines-IsReplayed : (now : ℤ) → IsReplayed (check_deadlines now m).1
  unfolding check_deadlines
  check_deadlines-IsReplayed now = rw statuses-mark_all h
