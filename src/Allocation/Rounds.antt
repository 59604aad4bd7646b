-- ===== src/Allocation/Rounds.antt =====
-- `allocate`: the pinned tasks, then what the strategy proposes for the others.
use amr_fleet_system.Prelude.{
  ℕ, pos, not, ◌&&◌, ◌==◌, none, some, List, [], ◌∷◌, ◌++◌, member, if◌then◌else◌,
}
use amr_fleet_system.Prelude.Dict.{Dict, lookup, contains, insert}
use amr_fleet_system.Prelude.Sorting.{sorted_by}
use amr_fleet_system.Task.{TaskSpec}
use amr_fleet_system.Allocation.Robots.{RobotInfo, free_ids, discard}

pub record Round : Type 0 where
  pub assignments : Dict ℕ
  pub free : List ℕ
  pub unpinned : List TaskSpec

abbrev pub Strategy : Type 0
Strategy = List TaskSpec → List RobotInfo → Dict ℕ

-- The body of the first loop.
abbrev pub pin : TaskSpec → Round → Round
pin t r =
    if t.robot_id == 0
    then record r { unpinned = r.unpinned ++ t ∷ [] }
    else if member t.robot_id r.free
    then record r {
      assignments = insert t.task_id t.robot_id r.assignments;
      free = discard t.robot_id r.free;
    }
    else r

unfoldable pub pin_all : List TaskSpec → Round → Round
pin_all [] r = r
pin_all (t ∷ ts) r = pin_all ts (pin t r)

-- The body of the second loop.
abbrev pub accept : ℕ → ℕ → Round → Round
accept task robot r =
    if member robot r.free && not (contains task r.assignments)
    then record r { assignments = insert task robot r.assignments; free = discard robot r.free }
    else r

unfoldable pub accept_all : Dict ℕ → Round → Round
accept_all [] r = r
accept_all ((task, robot) ∷ ps) r = accept_all ps (accept task robot r)

-- `by_id`: of two robots with one id the later one
abbrev pub by_id : List RobotInfo → Dict RobotInfo → Dict RobotInfo
by_id [] d = d
by_id (r ∷ rs) d = by_id rs (insert r.robot_id r d)

abbrev pub found : Dict RobotInfo → List ℕ → List RobotInfo
found d [] = []
found d (k ∷ ks) = elim (lookup k d) [ none ↦ found d ks | some r ↦ r ∷ found d ks ]

-- `[by_id[rid] for rid in sorted(free)]`
unfoldable pub pool_of : List RobotInfo → List ℕ → List RobotInfo
pool_of robots free = found (by_id robots []) (sorted_by (λ k. pos k ∷ []) free)

unfoldable pub proposals : Strategy → List TaskSpec → List RobotInfo → Dict ℕ
proposals strategy [] pool = []
proposals strategy (t ∷ ts) [] = []
proposals strategy (t ∷ ts) (r ∷ rs) = strategy (t ∷ ts) (r ∷ rs)

unfoldable pub opening : List RobotInfo → Round
opening robots = record { assignments = []; free = free_ids robots; unpinned = [] }

unfoldable pub allocate : Strategy → List TaskSpec → List RobotInfo → Round
allocate strategy tasks robots =
    let pinned = pin_all tasks (opening robots) in
    accept_all (proposals strategy pinned.unpinned (pool_of robots pinned.free)) pinned
