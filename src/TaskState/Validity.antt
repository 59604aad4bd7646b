-- ===== src/TaskState/Validity.antt =====
-- The invariant of `TaskStateMachine` and that every method keeps it, also when it raises.
use amr_fleet_system.Prelude.{
  ℕ, ◌+◌, ◌≤◌, [], ◌∷◌, ℤ, ◌≡◌, refl, inl, inr, true, Option, none, some, String, arith, Bool-cases,
  Option-cases,
}
use amr_fleet_system.Prelude.Dict.{
  Dict, lookup, IsUnique, Entries, Entries-lookup, Entries-insert, insert-IsUnique, values,
}
use amr_fleet_system.Task.{Status, pending, in_progress, completed, failed, TaskSpec}
use amr_fleet_system.TaskState.Types.{TaskRecord}
use amr_fleet_system.TaskState.Log.{Disk}
use amr_fleet_system.TaskState.Methods.{
  Machine, store, write_log, add, start, complete, fail, retry, active_task_of, update_pose,
  check_deadlines, new_record, moved, assigned, finished, broken_off, requeued, paced, first_active,
  mark_all, mark_missed, newly_missed,
}

abbrev pub IsSet? : Option ℤ → Type 0
IsSet? none = ⊥
IsSet? (some _) = Unit

-- What holds of a record in each status. A task is pending or running only while its failures leave a
-- retry, and each start but the running one or the successful one has ended in a failure.
abbrev pub Phase : ℕ → TaskRecord → Status → Type 0
Phase limit r pending =
    (r.failures ≤ limit) × (r.attempts ≤ r.failures) × (r.start_time ≡ none) × (r.end_time ≡ none)
Phase limit r in_progress =
    (r.failures ≤ limit)
    × (1 ≤ r.attempts)
    × (r.attempts ≤ r.failures + 1)
    × IsSet? r.start_time
    × (r.end_time ≡ none)
Phase limit r completed =
    (r.failures ≤ limit)
    × (1 ≤ r.attempts)
    × (r.attempts ≤ r.failures + 1)
    × IsSet? r.start_time
    × IsSet? r.end_time
Phase limit r failed =
    (1 ≤ r.failures) × (r.failures ≤ limit + 1) × (r.attempts ≤ r.failures) × IsSet? r.end_time

pub record IsRecordValid (limit key : ℕ) (r : TaskRecord) : Type 0 where
  pub keyed : r.spec.task_id ≡ key
  pub mirrored : r.spec.status ≡ r.status
  pub same_robot : r.spec.robot_id ≡ r.robot_id
  pub phase : Phase limit r r.status

pub record IsValid (m : Machine) : Type 0 where
  pub unique : IsUnique m.records
  pub entries : Entries (IsRecordValid m.max_retries) m.records

pub lookup-IsRecordValid :
    (task : ℕ) (r : TaskRecord) (m : Machine)
    → IsValid m
    → lookup task m.records ≡ some r
    → IsRecordValid m.max_retries task r
lookup-IsRecordValid task r m v e =
    Entries-lookup (IsRecordValid m.max_retries) task r m.records v.entries e

store-IsValid :
    (r : TaskRecord) (m : Machine)
    → IsValid m
    → IsRecordValid m.max_retries r.spec.task_id r
    → IsValid (store r m)
store-IsValid r m v h = record {
  unique = insert-IsUnique r.spec.task_id r m.records v.unique;
  entries = Entries-insert (IsRecordValid m.max_retries) r.spec.task_id r m.records v.entries h;
}

-- A record moves to a new status.
moved-IsValid :
    (r : TaskRecord) (new : Status) (m : Machine)
    → IsValid m
    → r.spec.robot_id ≡ r.robot_id
    → Phase m.max_retries (moved new r) new
    → IsValid (store (moved new r) m)
moved-IsValid r new m v robots phase =
    store-IsValid (moved new r) m v
      (record { keyed = refl; mirrored = refl; same_robot = robots; phase = phase })

write_log-IsValid :
    (disk : Disk) (r : TaskRecord) (m : Machine) → IsValid m → IsValid (write_log disk r m).1
unfolding write_log
write_log-IsValid disk r m v = ground arith

pub add-IsValid : (spec : TaskSpec) (now : ℤ) (m : Machine) → IsValid m → IsValid (add spec now m).1
unfolding add
add-IsValid spec now m v = ground (arith, store-IsValid (new_record spec now) m v)

pub start-IsValid :
    (task robot : ℕ) (now : ℤ) (command_time : Option ℤ) (m : Machine)
    → IsValid m
    → IsValid (start task robot now command_time m).1
unfolding start
start-IsValid task robot now command_time m v = elim (Option-cases (lookup task m.records)) [
  | inl e ↦ ground arith
  | inr (r, e) ↦ ground (
    arith,
    lookup-IsRecordValid task r m v,
    moved-IsValid (assigned robot now command_time r) in_progress m v,
  )
]

pub complete-IsValid :
    (disk : Disk) (task : ℕ) (now : ℤ) (result : String) (m : Machine)
    → IsValid m
    → IsValid (complete disk task now result m).1
unfolding complete write_log
complete-IsValid disk task now result m v = elim (Option-cases (lookup task m.records)) [
  | inl e ↦ ground arith
  | inr (r, e) ↦
      ground (
        arith,
        lookup-IsRecordValid task r m v,
        moved-IsValid (finished now result r) completed m v,
      )
]

pub fail-IsValid :
    (disk : Disk) (task : ℕ) (now : ℤ) (reason : String) (m : Machine)
    → IsValid m
    → IsValid (fail disk task now reason m).1
unfolding fail write_log
fail-IsValid disk task now reason m v = elim (Option-cases (lookup task m.records)) [
  | inl e ↦ ground arith
  | inr (r, e) ↦
      ground
        (arith, lookup-IsRecordValid task r m v, moved-IsValid (broken_off now reason r) failed m v)
]

pub retry-IsValid : (task : ℕ) (now : ℤ) (m : Machine) → IsValid m → IsValid (retry task now m).1
unfolding retry
retry-IsValid task now m v = elim (Option-cases (lookup task m.records)) [
  | inl e ↦ ground arith
  | inr (r, e) ↦
      ground (arith, lookup-IsRecordValid task r m v, moved-IsValid (requeued r) pending m v)
]

-- The record that `active_task_of` finds.
pub first_active_lem :
    (limit robot : ℕ) (r : TaskRecord) (d : Dict TaskRecord)
    → Entries (IsRecordValid limit) d
    → IsUnique d
    → first_active robot (values d) ≡ some r
    → (lookup r.spec.task_id d ≡ some r) × (r.status ≡ in_progress) × (r.robot_id ≡ robot)
first_active_lem limit robot r [] h u e = cc
first_active_lem limit robot r ((k, x) ∷ d) h u e =
    ground (arith, h.0.keyed, first_active_lem limit robot r d h.1 u.1)

pub update_pose-IsValid :
    (hypot : ℤ → ℤ → ℤ) (robot : ℕ) (x y : ℤ) (m : Machine)
    → IsValid m
    → IsValid (update_pose hypot robot x y m).1
unfolding update_pose
update_pose-IsValid hypot robot x y m v = elim (Option-cases (active_task_of robot m)) [
  | inl e ↦ ground arith
  | inr (r, e) ↦
      let (found, active, _) =
        first_active_lem m.max_retries robot r m.records v.entries v.unique e in
      ground (
        arith,
        lookup-IsRecordValid r.spec.task_id r m v found,
        store-IsValid (paced hypot m.max_pose_step_m x y r) m v,
      )
]

mark_all-lookup :
    (now : ℤ) (k : ℕ) (d : Dict TaskRecord) → lookup k d ≡ none → lookup k (mark_all now d) ≡ none
mark_all-lookup now k [] e = refl
mark_all-lookup now k ((j, r) ∷ d) e = ground (arith, mark_all-lookup now k d)

mark_all-IsUnique : (now : ℤ) (d : Dict TaskRecord) → IsUnique d → IsUnique (mark_all now d)
mark_all-IsUnique now [] u = tt
mark_all-IsUnique now ((k, r) ∷ d) u = (mark_all-lookup now k d u.0, mark_all-IsUnique now d u.1)

mark_missed-IsRecordValid :
    (limit key : ℕ) (now : ℤ) (r : TaskRecord)
    → IsRecordValid limit key r
    → IsRecordValid limit key (mark_missed now r)
mark_missed-IsRecordValid limit key now r h = elim (Bool-cases (newly_missed now r)) [
  | inl e ↦ rw e (record {
    keyed = h.keyed;
    mirrored = h.mirrored;
    same_robot = h.same_robot;
    phase = Phase-missed limit r r.status h.phase;
  })
  | inr e ↦ rw e h
]
  where
    Phase-missed :
        (limit : ℕ) (r : TaskRecord) (s : Status)
        → Phase limit r s
        → Phase limit (record r { deadline_missed = true }) s
    Phase-missed limit r pending h = h
    Phase-missed limit r in_progress h = h
    Phase-missed limit r completed h = h
    Phase-missed limit r failed h = h

mark_all-Entries :
    (limit : ℕ) (now : ℤ) (d : Dict TaskRecord)
    → Entries (IsRecordValid limit) d
    → Entries (IsRecordValid limit) (mark_all now d)
mark_all-Entries limit now [] h = tt
mark_all-Entries limit now ((k, r) ∷ d) h =
    (mark_missed-IsRecordValid limit k now r h.0, mark_all-Entries limit now d h.1)

pub check_deadlines-IsValid :
    (now : ℤ) (m : Machine) → IsValid m → IsValid (check_deadlines now m).1
unfolding check_deadlines
check_deadlines-IsValid now m v = record {
  unique = mark_all-IsUnique now m.records v.unique;
  entries = mark_all-Entries m.max_retries now m.records v.entries;
}
