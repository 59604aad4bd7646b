-- ===== src/Allocation/Evaluation.antt =====
-- `evaluate_assignment`: the distances of a round and its makespan. A task or a robot that is not given
-- is the source's `KeyError`, here `none`.
use amr_fleet_system.Prelude.{
  ℕ, zero, suc, ℤ, pos, ◌+ℤ◌, max_ℤ, Option, none, some, List, [], ◌∷◌, length,
}
use amr_fleet_system.Prelude.Dict.{Dict, lookup, insert, values}
use amr_fleet_system.Task.{TaskSpec}
use amr_fleet_system.Allocation.Robots.{
  RobotInfo, approach_distance, delivery_distance, travel_time,
}
use amr_fleet_system.Allocation.Rounds.{by_id}

infixl 5 ◌>>=◌
abbrev pub ◌>>=◌ : {A B : Type 0} → Option A → (A → Option B) → Option B
none >>= f = none
some a >>= f = f a

-- `{t.task_id: t for t in tasks}`
abbrev pub tasks_by_id : List TaskSpec → Dict TaskSpec → Dict TaskSpec
tasks_by_id [] d = d
tasks_by_id (t ∷ ts) d = tasks_by_id ts (insert t.task_id t d)

abbrev pub get_or : {A : Type 0} → Option A → A → A
get_or none d = d
get_or (some a) d = a

-- `max` of a list that is not empty
abbrev pub maximum : ℤ → List ℤ → ℤ
maximum x [] = x
maximum x (y ∷ ys) = maximum (max_ℤ x y) ys

abbrev pub largest : List ℤ → ℤ
largest [] = pos 0
largest (x ∷ xs) = maximum x xs

pub record Sums : Type 0 where
  pub total : ℤ
  pub approach : ℤ
  pub per_robot : Dict ℤ

pub record Metrics : Type 0 where
  pub n_tasks : ℕ
  pub n_robots : ℕ
  pub n_assigned : ℕ
  pub total_travel_distance_m : ℤ
  pub approach_distance_m : ℤ
  pub mean_approach_distance_m : ℤ
  pub makespan_s : ℤ

module _ (hypot divide : ℤ → ℤ → ℤ) (speed : ℤ) where
  -- The body of the loop, for a task and the robot that it goes to.
  abbrev pub add_trip : TaskSpec → RobotInfo → Sums → Option Sums
  add_trip t r s = do
    let a = approach_distance hypot r t
    let d = delivery_distance hypot t
    time ← travel_time divide (a +ℤ d) speed
    some (record {
      total = s.total +ℤ (a +ℤ d);
      approach = s.approach +ℤ a;
      per_robot =
          insert r.robot_id (get_or (lookup r.robot_id s.per_robot) (pos 0) +ℤ time) s.per_robot;
    })

  unfoldable pub add_trips : Dict TaskSpec → Dict RobotInfo → Dict ℕ → Sums → Option Sums
  add_trips tasks robots [] s = some s
  add_trips tasks robots ((task, robot) ∷ rest) s =
      let go = λ (s' : Sums). add_trips tasks robots rest s' in
      do t ← lookup task tasks; r ← lookup robot robots; s' ← add_trip t r s; go s'

  -- `approach / n if n else 0.0`
  abbrev pub mean : ℕ → ℤ → ℤ
  mean zero a = pos 0
  mean (suc n) a = divide a (pos (suc n))

  -- `divide` by the number of assignments takes it as an integer.
  unfoldable pub evaluate_assignment : Dict ℕ → List TaskSpec → List RobotInfo → Option Metrics
  unfolding add_trips
  evaluate_assignment assignments tasks robots = do
    s ←
        add_trips (tasks_by_id tasks []) (by_id robots []) assignments
          (record { total = pos 0; approach = pos 0; per_robot = [] })
    some (record {
      n_tasks = length tasks;
      n_robots = length robots;
      n_assigned = length assignments;
      total_travel_distance_m = s.total;
      approach_distance_m = s.approach;
      mean_approach_distance_m = mean (length assignments) s.approach;
      makespan_s = largest (values s.per_robot);
    })
