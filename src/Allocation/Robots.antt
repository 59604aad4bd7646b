-- ===== src/Allocation/Robots.antt =====
-- `RobotInfo`, and the distances that the strategies compare.
use amr_fleet_system.Prelude.{
  ℕ, ℤ, pos, ◌-ℤ◌, leb_ℤ, Bool, ◌==◌, Option, none, some, List, [], ◌∷◌, member, if◌then◌else◌,
}
use amr_fleet_system.Task.{TaskSpec}

pub record RobotInfo : Type 0 where
  pub robot_id : ℕ
  pub x : ℤ
  pub y : ℤ
  pub load : ℕ
  pub available : Bool

-- `{r.robot_id for r in robots if r.available}`: each id once, in the order of its first robot
abbrev pub add_id : ℕ → List ℕ → List ℕ
add_id k ids = if member k ids then ids else k ∷ ids

abbrev pub free_ids : List RobotInfo → List ℕ
free_ids [] = []
free_ids (r ∷ rs) = if r.available then add_id r.robot_id (free_ids rs) else free_ids rs

-- `ids.discard(k)`
abbrev pub discard : ℕ → List ℕ → List ℕ
discard k [] = []
discard k (j ∷ ids) = if k == j then discard k ids else j ∷ discard k ids

module _ (hypot : ℤ → ℤ → ℤ) where
  abbrev pub euclid : ℤ → ℤ → ℤ → ℤ → ℤ
  euclid ax ay bx by = hypot (bx -ℤ ax) (by -ℤ ay)

  abbrev pub approach_distance : RobotInfo → TaskSpec → ℤ
  approach_distance r t = euclid r.x r.y t.pickup.x t.pickup.y

  abbrev pub delivery_distance : TaskSpec → ℤ
  delivery_distance t = euclid t.pickup.x t.pickup.y t.dropoff.x t.dropoff.y

-- `travel_time`; `none` is the `ValueError` of a speed that is not positive.
unfoldable pub travel_time : (divide : ℤ → ℤ → ℤ) → ℤ → ℤ → Option ℤ
travel_time divide distance speed =
    if leb_ℤ speed (pos 0) then none else some (divide distance speed)
