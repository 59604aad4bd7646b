-- ===== src/Allocation/Batch.antt =====
-- `select_batch`: the tasks that this round can assign at all.
use amr_fleet_system.Prelude.{
  ℕ, ltb, leb, not, ◌&&◌, ◌||◌, ◌==◌, List, [], ◌∷◌, ◌++◌, length, member, if◌then◌else◌,
}
use amr_fleet_system.Task.{TaskSpec}
use amr_fleet_system.Allocation.Robots.{RobotInfo, free_ids}

-- The loop, with `taken` the pinned robots so far and the batch that is collected.
unfoldable pub fill_batch : List ℕ → ℕ → List ℕ → List TaskSpec → List TaskSpec → List TaskSpec
fill_batch free limit taken batch [] = batch
fill_batch free limit taken batch (t ∷ ts) =
    let pinned = not (t.robot_id == 0) in
    let fits = member t.robot_id free && not (member t.robot_id taken) in
    let rest =
      fill_batch free limit (if pinned && fits then t.robot_id ∷ taken else taken)
        (if not pinned || fits then batch ++ t ∷ [] else batch) ts in
    if leb limit (length batch) then batch else rest

-- `k <= 0` stands for as many as there are free robots; a negative `k` is 0 here.
unfoldable pub select_batch : List TaskSpec → List RobotInfo → ℕ → List TaskSpec
select_batch tasks robots k =
    let free = free_ids robots in
    let limit = if ltb 0 k then k else length free in
    if length free == 0 || limit == 0 then [] else fill_batch free limit [] [] tasks
