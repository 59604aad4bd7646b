-- ===== src/TaskState/Attempts.antt =====
-- How often a task is started and fails over a sequence of calls, counted in the event log.
use amr_fleet_system.Prelude.{
  ℕ, ◌+◌, ◌≤◌, ℤ, ◌≡◌, refl, inl, inr, Bool, ◌&&◌, ◌==◌, Option, none, some, List, [], ◌∷◌, ◌++◌,
  arith, if◌then◌else◌, Option-cases,
}
use amr_fleet_system.Prelude.Dict.{Dict, lookup, lookup-insert}
use amr_fleet_system.Task.{Status, pending, in_progress, completed, failed}
use amr_fleet_system.Task.{same_status}
use amr_fleet_system.TaskState.Types.{TaskEvent, TaskRecord}
use amr_fleet_system.TaskState.Log.{Writer}
use amr_fleet_system.TaskState.Methods.{
  Machine, write_log, add, start, complete, fail, retry, active_task_of, update_pose,
  check_deadlines, event_of, moved, assigned, requeued, new_record, finished, broken_off, mark_all,
  paced,
}
use amr_fleet_system.TaskState.Validity.{IsValid, lookup-IsRecordValid, first_active_lem}
use amr_fleet_system.TaskState.Runs.{
  Call, perform, run, new_machine, perform-IsValid, run-IsValid, run-limit, Phase-attempts,
}

-- The events that bring the task into the status.
abbrev pub entries_to : Status → ℕ → List TaskEvent → ℕ
entries_to s task [] = 0
entries_to s task (ev ∷ evs) =
    if task == ev.task_id && same_status ev.new_status s
    then entries_to s task evs + 1
    else entries_to s task evs

entries_to-snoc :
    (s : Status) (task : ℕ) (evs : List TaskEvent) (ev : TaskEvent)
    → entries_to s task (evs ++ ev ∷ []) ≡ (
        if task == ev.task_id && same_status ev.new_status s
        then entries_to s task evs + 1
        else entries_to s task evs)
entries_to-snoc s task [] ev = refl
entries_to-snoc s task (x ∷ evs) ev = ground (arith, entries_to-snoc s task evs ev)

abbrev attempts_of : Option TaskRecord → ℕ
attempts_of none = 0
attempts_of (some r) = r.attempts

abbrev failures_of : Option TaskRecord → ℕ
failures_of none = 0
failures_of (some r) = r.failures

-- The counters of a task's record are its starts and failures in the log.
abbrev IsCounted : ℕ → Machine → Type 0
IsCounted task m =
    (entries_to in_progress task m.events ≡ attempts_of (lookup task m.records))
    × (entries_to failed task m.events ≡ failures_of (lookup task m.records))

attempts-mark_all :
    (now : ℤ) (task : ℕ) (d : Dict TaskRecord)
    → (attempts_of (lookup task (mark_all now d)) ≡ attempts_of (lookup task d))
      × (failures_of (lookup task (mark_all now d)) ≡ failures_of (lookup task d))
attempts-mark_all now task [] = (refl, refl)
attempts-mark_all now task ((k, r) ∷ d) = ground (arith, attempts-mark_all now task d)

module _ (hypot : ℤ → ℤ → ℤ) (task : ℕ) where
  perform-IsCounted :
      (c : Call) (m : Machine) → IsValid m → IsCounted task m → IsCounted task (perform hypot c m)
  unfolding add start complete fail retry write_log update_pose check_deadlines
  perform-IsCounted (Call.add_task spec now) m v h =
      let r' = new_record spec now in
      ground (
        arith,
        lookup-insert task spec.task_id r' m.records,
        entries_to-snoc in_progress task m.events (event_of r' pending pending now "created"),
        entries_to-snoc failed task m.events (event_of r' pending pending now "created"),
      )
  perform-IsCounted (Call.start_task t robot now ct) m v h =
      elim (Option-cases (lookup t m.records)) [
        | inl absent ↦ ground arith
        | inr (x, found) ↦
            let r' = moved in_progress (assigned robot now ct x) in
            let ev = event_of r' x.status in_progress now "assigned" in
            ground (
              arith,
              (lookup-IsRecordValid t x m v found).keyed,
              lookup-insert task t r' m.records,
              entries_to-snoc in_progress task m.events ev,
              entries_to-snoc failed task m.events ev,
            )
      ]
  perform-IsCounted (Call.complete_task disk t now result) m v h =
      elim (Option-cases (lookup t m.records)) [
        | inl absent ↦ ground arith
        | inr (x, found) ↦
            let r' = moved completed (finished now result x) in
            let ev = event_of r' x.status completed now result in
            ground (
              arith,
              (lookup-IsRecordValid t x m v found).keyed,
              lookup-insert task t r' m.records,
              entries_to-snoc in_progress task m.events ev,
              entries_to-snoc failed task m.events ev,
            )
      ]
  perform-IsCounted (Call.fail_task disk t now reason) m v h =
      elim (Option-cases (lookup t m.records)) [
        | inl absent ↦ ground arith
        | inr (x, found) ↦
            let r' = moved failed (broken_off now reason x) in
            let ev = event_of r' x.status failed now reason in
            ground (
              arith,
              (lookup-IsRecordValid t x m v found).keyed,
              lookup-insert task t r' m.records,
              entries_to-snoc in_progress task m.events ev,
              entries_to-snoc failed task m.events ev,
            )
      ]
  perform-IsCounted (Call.retry_task t now) m v h = elim (Option-cases (lookup t m.records)) [
    | inl absent ↦ ground arith
    | inr (x, found) ↦
        let r' = moved pending (requeued x) in
        let ev = event_of r' x.status pending now "retry" in
        ground (
          arith,
          (lookup-IsRecordValid t x m v found).keyed,
          lookup-insert task t r' m.records,
          entries_to-snoc in_progress task m.events ev,
          entries_to-snoc failed task m.events ev,
        )
  ]
  perform-IsCounted (Call.pose robot x y) m v h = elim (Option-cases (active_task_of robot m)) [
    | inl absent ↦ ground arith
    | inr (r, found) ↦ ground (
      arith,
      first_active_lem m.max_retries robot r m.records v.entries v.unique found,
      lookup-insert task r.spec.task_id (paced hypot m.max_pose_step_m x y r) m.records,
    )
  ]
  perform-IsCounted (Call.deadlines now) m v h =
      ground (arith, attempts-mark_all now task m.records)

  run-IsCounted :
      (cs : List Call) (m : Machine)
      → IsValid m
      → IsCounted task m
      → IsCounted task (run hypot cs m)
  unfolding run
  run-IsCounted [] m v h = h
  run-IsCounted (c ∷ cs) m v h =
      run-IsCounted cs (perform hypot c m) (perform-IsValid hypot c m v) (perform-IsCounted c m v h)

counted_le :
    (limit : ℕ) (task : ℕ) (m : Machine)
    → IsValid m
    → IsCounted task m
    → m.max_retries ≡ limit
    → (entries_to in_progress task m.events ≤ limit + 1)
      × (entries_to failed task m.events ≤ limit + 1)
counted_le limit task m v h same = elim (Option-cases (lookup task m.records)) [
  | inl e ↦ ground (arith, e, h.0, h.1)
  | inr (r, e) ↦
      let phase = (lookup-IsRecordValid task r m v e).phase in
      ground (arith, e, h.0, h.1, same, Phase-attempts m.max_retries r r.status phase)
]

-- Whatever calls are made on a new machine, in whatever order and with whatever errors, its log holds for no
-- task more than `max_retries + 1` starts, and for none more than `max_retries + 1` failures.
pub run-attempts_le :
    (hypot : ℤ → ℤ → ℤ) (cs : List Call) (log : Option Writer) (has_error_handler : Bool)
    (max_retries : ℕ) (max_pose_step_m : ℤ) (task : ℕ)
    → let m = run hypot cs (new_machine log has_error_handler max_retries max_pose_step_m) in
      (entries_to in_progress task m.events ≤ max_retries + 1)
      × (entries_to failed task m.events ≤ max_retries + 1)
run-attempts_le hypot cs log has_error_handler max_retries max_pose_step_m task =
    let m₀ = new_machine log has_error_handler max_retries max_pose_step_m in
    counted_le max_retries task (run hypot cs m₀)
      (run-IsValid hypot cs log has_error_handler max_retries max_pose_step_m)
      (run-IsCounted hypot task cs m₀ (record { unique = tt; entries = tt }) (refl, refl))
      (run-limit hypot cs m₀)
