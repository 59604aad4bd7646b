-- ===== src/Scheduler.antt =====
-- src/amr_fleet/amr_fleet/scheduler.py: `TaskScheduler`, the queue of waiting tasks. Times, priorities
-- and weights are exact integers, each in one fixed unit; `//` rounds down as Python's does.
pub mod Order
pub mod Queue
pub mod Tests
use amr_fleet_system.Prelude.{
  ℕ, ℤ, pos, ◌+ℤ◌, ◌-ℤ◌, ◌*ℤ◌, floor_div, neg_ℤ, min_ℤ, max_ℤ, ltb_ℤ, ltb, Bool, true, false, not,
  ◌&&◌, ◌||◌, Option, none, some, List, [], ◌∷◌, filter, if◌then◌else◌,
}
use amr_fleet_system.Prelude.Dict.{Dict, lookup, contains, insert, erase, values}
use amr_fleet_system.Prelude.Sorting.{sorted_by}
use amr_fleet_system.Task.{TaskSpec, is_deadline_missed}

pub record SchedulerConfig : Type 0 where
  pub band_width : ℕ
  pub deadline_weight : ℤ
  pub fifo_weight : ℤ
  pub age_boost_rate : ℤ
  pub age_boost_max : ℤ

-- `__post_init__`: whether the config is accepted.
unfoldable pub accepts : SchedulerConfig → Bool
accepts c =
    not (ltb c.band_width 1)
    && not (ltb_ℤ c.age_boost_rate (pos 0) || ltb_ℤ c.age_boost_max (pos 0))
    && not (ltb_ℤ c.deadline_weight (pos 0) || ltb_ℤ c.fifo_weight (pos 0))

pub record TaskScheduler : Type 0 where
  pub config : SchedulerConfig
  pub tasks : Dict TaskSpec

-- `push`; `none` is the `ValueError` of a known task.
unfoldable pub push : TaskSpec → TaskScheduler → Option TaskScheduler
push t q =
    if contains t.task_id q.tasks
    then none
    else some (record q { tasks = insert t.task_id t q.tasks })

unfoldable pub remove : ℕ → TaskScheduler → Option TaskSpec × TaskScheduler
remove task q = (lookup task q.tasks, record q { tasks = erase task q.tasks })

unfoldable pub clear : TaskScheduler → TaskScheduler
clear q = record q { tasks = [] }

module _ (c : SchedulerConfig) (now : ℤ) where
  unfoldable pub effective_priority : TaskSpec → ℤ
  effective_priority t =
      let age = max_ℤ (pos 0) (now -ℤ t.created) in
      let boost = min_ℤ c.age_boost_max (c.age_boost_rate *ℤ age) in t.priority +ℤ boost

  unfoldable pub band : TaskSpec → ℤ
  band t = floor_div (effective_priority t) c.band_width

  -- The entries of the key that rank within a band: the flag and the score.
  abbrev pub deadline_part : TaskSpec → ℤ × ℤ
  deadline_part t =
      let score = c.fifo_weight *ℤ (t.created -ℤ now) in
      if ltb_ℤ (pos 0) c.deadline_weight
      then elim t.deadline [
        | none ↦ (pos 1, score)
        | some d ↦ (pos 0, score +ℤ c.deadline_weight *ℤ (d -ℤ now))
      ]
      else (pos 0, score)

  unfoldable pub sort_key : TaskSpec → List ℤ
  sort_key t =
      let (no_deadline, score) = deadline_part t in
      neg_ℤ (band t) ∷ no_deadline ∷ score ∷ t.created ∷ pos t.task_id ∷ []

-- `order[0] if order else None`
abbrev pub first : List TaskSpec → Option TaskSpec
first [] = none
first (t ∷ ts) = some t

-- `del self._tasks[top.task_id]`, if there is a top
abbrev pub take_out : Option TaskSpec → TaskScheduler → Option TaskSpec × TaskScheduler
take_out none q = (none, q)
take_out (some t) q = (some t, record q { tasks = erase t.task_id q.tasks })

module _ (now : ℤ) where
  unfoldable pub ordered : TaskScheduler → List TaskSpec
  ordered q = sorted_by (sort_key q.config now) (values q.tasks)

  unfoldable pub peek : TaskScheduler → Option TaskSpec
  peek q = first (ordered q)

  unfoldable pub pop : TaskScheduler → Option TaskSpec × TaskScheduler
  pop q = take_out (peek q) q

  abbrev deadline_key : TaskSpec → List ℤ
  deadline_key t = elim t.deadline [ none ↦ [] | some d ↦ d ∷ pos t.task_id ∷ [] ]

  unfoldable pub overdue : TaskScheduler → List TaskSpec
  overdue q = sorted_by deadline_key (filter (λ t. is_deadline_missed t now) (values q.tasks))
