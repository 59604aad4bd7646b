-- ===== src/TaskState/Queries.antt =====
-- What `counts`, `check_deadlines` and `update_pose` report, and what they leave behind.
use amr_fleet_system.Prelude.{
  ℕ, ◌+◌, ℤ, pos, ◌+ℤ◌, ◌-ℤ◌, ◌≤ℤ◌, ◌≡◌, refl, ◌≢◌, true, false, Option, none, some, List, [], ◌∷◌,
  arith, length, filter, inl, inr, Option-cases,
}
use amr_fleet_system.Prelude.Dict.{
  Dict, lookup, values, Entries, lookup-insert_self, lookup-insert_ne,
}
use amr_fleet_system.Task.{
  Status, pending, in_progress, completed, failed, same_status, is_deadline_missed,
}
use amr_fleet_system.TaskState.Types.{TaskRecord, is_terminal}
use amr_fleet_system.TaskState.Methods.{
  Machine, Counts, tally, counts_from, counts, with_status, active_task_of, update_pose, paced,
  pose_step, check_deadlines, missed_of, mark_all,
}
use amr_fleet_system.TaskState.Validity.{IsValid}

counts_from_lem :
    (c : Counts) (rs : List TaskRecord)
    → let n = λ (s : Status). length (filter (λ (r : TaskRecord). same_status r.status s) rs) in
      let d = counts_from c rs in
      (d.pending_tasks ≡ c.pending_tasks + n pending)
      × (d.in_progress_tasks ≡ c.in_progress_tasks + n in_progress)
      × (d.completed_tasks ≡ c.completed_tasks + n completed)
      × (d.failed_tasks ≡ c.failed_tasks + n failed)
counts_from_lem c [] = omega arith
counts_from_lem c (r ∷ rs) = ground (
  arith,
  counts_from_lem (tally pending c) rs,
  counts_from_lem (tally in_progress c) rs,
  counts_from_lem (tally completed c) rs,
  counts_from_lem (tally failed c) rs,
)

length-values : (d : Dict TaskRecord) → length (values d) ≡ length d
length-values [] = refl
length-values (e ∷ d) = omega (arith, length-values d)

counts_from-total :
    (c : Counts) (rs : List TaskRecord)
    → let d = counts_from c rs in
      d.pending_tasks + d.in_progress_tasks + d.completed_tasks + d.failed_tasks
      ≡ c.pending_tasks + c.in_progress_tasks + c.completed_tasks + c.failed_tasks + length rs
counts_from-total c [] = omega arith
counts_from-total c (r ∷ rs) = ground (
  arith,
  counts_from-total (tally pending c) rs,
  counts_from-total (tally in_progress c) rs,
  counts_from-total (tally completed c) rs,
  counts_from-total (tally failed c) rs,
)

-- `counts` agrees with `with_status` in each of the four statuses, and counts every record once.
counts-with_status :
    (m : Machine)
    → ((counts m).pending_tasks ≡ length (with_status pending m))
      × ((counts m).in_progress_tasks ≡ length (with_status in_progress m))
      × ((counts m).completed_tasks ≡ length (with_status completed m))
      × ((counts m).failed_tasks ≡ length (with_status failed m))
      × ((counts m).pending_tasks
            + (counts m).in_progress_tasks
            + (counts m).completed_tasks
            + (counts m).failed_tasks
          ≡ length m.records)
unfolding counts with_status
counts-with_status m = omega (
  arith,
  counts_from_lem _ (values m.records),
  counts_from-total _ (values m.records),
  length-values m.records,
)

missed_of_marked :
    (now later : ℤ) (d : Dict TaskRecord)
    → now ≤ℤ later
    → missed_of now (values (mark_all later d)) ≡ []
missed_of_marked now later [] h = refl
missed_of_marked now later ((k, r) ∷ d) h = elim (Option-cases r.spec.deadline) [
  | inl e ↦ ground (arith, missed_of_marked now later d h)
  | inr (t, e) ↦ ground (arith, missed_of_marked now later d h)
]

marked_complete :
    (now : ℤ) (d : Dict TaskRecord)
    → Entries
        (λ _ r.
          is_terminal r.status ≡ false
          → is_deadline_missed r.spec now ≡ true
          → r.deadline_missed ≡ true)
        (mark_all now d)
marked_complete now [] = tt
marked_complete now ((k, r) ∷ d) = (λ unfinished late. ground arith, marked_complete now d)

-- A missed deadline is reported once: after a check at one time, a check at that time or an earlier
-- one reports nothing; and after the check every unfinished task whose deadline has passed is marked.
check_deadlines_once :
    (now later : ℤ) (m : Machine)
    → now ≤ℤ later
    → let m' = (check_deadlines later m).1 in
      ((check_deadlines now m').0 ≡ [])
      × Entries
          (λ _ r.
            is_terminal r.status ≡ false
            → is_deadline_missed r.spec later ≡ true
            → r.deadline_missed ≡ true)
          m'.records
unfolding check_deadlines
check_deadlines_once now later m h =
    (missed_of_marked now later m.records h, marked_complete later m.records)

pose_step_bounds :
    (hypot : ℤ → ℤ → ℤ) (limit : ℤ) (last : Option (ℤ × ℤ)) (x y : ℤ)
    → ((a b : ℤ) → pos 0 ≤ℤ hypot a b)
    → pos 0 ≤ℤ limit
    → (pos 0 ≤ℤ pose_step hypot limit last x y) × (pose_step hypot limit last x y ≤ℤ limit)
pose_step_bounds hypot limit none x y nonneg bound = omega arith
pose_step_bounds hypot limit (some (px, py)) x y nonneg bound =
    ground (arith, nonneg (x -ℤ px) (y -ℤ py))

-- For a valid machine, a nonnegative bound and a hypotenuse that is never negative: a pose of a robot
-- with an active task adds to that task's distance the step that is returned, which lies between 0
-- and the bound, and remembers the pose; the records of all other tasks stay as they are.
update_pose-distance :
    (hypot : ℤ → ℤ → ℤ) (robot : ℕ) (x y : ℤ) (m : Machine) (r : TaskRecord)
    → ((a b : ℤ) → pos 0 ≤ℤ hypot a b)
    → pos 0 ≤ℤ m.max_pose_step_m
    → IsValid m
    → active_task_of robot m ≡ some r
    → let (step, m') = update_pose hypot robot x y m in
      (pos 0 ≤ℤ step)
      × (step ≤ℤ m.max_pose_step_m)
      × (lookup r.spec.task_id m'.records
          ≡ some (record r { distance_m = r.distance_m +ℤ step; last_pose = some (x, y) }))
      × ((task : ℕ) → task ≢ r.spec.task_id → lookup task m'.records ≡ lookup task m.records)
unfolding update_pose
update_pose-distance hypot robot x y m r nonneg bound v e =
    let r' = paced hypot m.max_pose_step_m x y r in
    let b = pose_step_bounds hypot m.max_pose_step_m r.last_pose x y nonneg bound in
    (
      ground arith,
      ground arith,
      ground (arith, lookup-insert_self r.spec.task_id r' m.records),
      λ task other. ground (arith, lookup-insert_ne task r.spec.task_id r' m.records),
    )
