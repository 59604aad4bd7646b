-- ===== src/Allocation/Strategies.antt =====
-- The greedy strategies: `NearestStrategy` and `LoadBalanceStrategy`.
use amr_fleet_system.Prelude.{
  ℕ, ℤ, pos, Bool, true, false, ◌&&◌, ◌==◌, List, [], ◌∷◌, if◌then◌else◌, leb_ℤ,
}
use amr_fleet_system.Prelude.Dict.{Dict, insert}
use amr_fleet_system.Prelude.Sorting.{min_by}
use amr_fleet_system.Task.{TaskSpec}
use amr_fleet_system.Allocation.Robots.{RobotInfo, approach_distance}

abbrev pub same_ℤ : ℤ → ℤ → Bool
same_ℤ a b = leb_ℤ a b && leb_ℤ b a

abbrev pub same_bool : Bool → Bool → Bool
same_bool true b = b
same_bool false true = false
same_bool false false = true

-- `==` of the dataclass
abbrev pub same_robot : RobotInfo → RobotInfo → Bool
same_robot a b =
    a.robot_id == b.robot_id
    && same_ℤ a.x b.x
    && same_ℤ a.y b.y
    && a.load == b.load
    && same_bool a.available b.available

-- `pool.remove(r)`
unfoldable pub remove_robot : RobotInfo → List RobotInfo → List RobotInfo
remove_robot r [] = []
remove_robot r (x ∷ xs) = if same_robot x r then xs else x ∷ remove_robot r xs

-- The loop of both strategies: each task in turn takes the robot of the least key from the pool, until
-- the pool is empty.
unfoldable pub greedy :
    (TaskSpec → RobotInfo → List ℤ) → List TaskSpec → List RobotInfo → Dict ℕ → Dict ℕ
greedy key [] pool out = out
greedy key (t ∷ ts) [] out = out
greedy key (t ∷ ts) (r ∷ rs) out =
    let best = min_by (key t) r rs in
    greedy key ts (remove_robot best (r ∷ rs)) (insert t.task_id best.robot_id out)

module _ (hypot : ℤ → ℤ → ℤ) where
  abbrev pub nearest_key : TaskSpec → RobotInfo → List ℤ
  nearest_key t r = approach_distance hypot r t ∷ pos r.robot_id ∷ []

  abbrev pub load_key : TaskSpec → RobotInfo → List ℤ
  load_key t r = pos r.load ∷ approach_distance hypot r t ∷ pos r.robot_id ∷ []

  unfoldable pub nearest : List TaskSpec → List RobotInfo → Dict ℕ
  nearest tasks robots = greedy nearest_key tasks robots []

  unfoldable pub load_balance : List TaskSpec → List RobotInfo → Dict ℕ
  load_balance tasks robots = greedy load_key tasks robots []
