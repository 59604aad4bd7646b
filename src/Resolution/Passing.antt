-- ===== src/Resolution/Passing.antt =====
-- Who has passed the contested place, and where the keepout mask goes.
use amr_fleet_system.Prelude.{
  ℕ, ℤ, pos, ◌+ℤ◌, ◌-ℤ◌, ltb_ℤ, leb_ℤ, min_ℤ, max_ℤ, Bool, true, false, not, ◌&&◌, ◌||◌, ◌==◌,
  Option, none, some, List, [], ◌∷◌, any, filter, member, if◌then◌else◌,
}
use amr_fleet_system.Prelude.Dict.{Dict, lookup}
use amr_fleet_system.Deadlock.Confirmer.{sorted_set}
use amr_fleet_system.Resolution.Types.{
  Point, Way, ConflictKind, head_on, crossing, following, ResolutionConfig, RobotView, intent_path,
  KeepoutMask, ZoneVisit, ZoneMap, Trajectory, Geometry, Incident, victim, Cycle,
}

abbrev pub other_robots : ℕ → List ℕ → List ℕ
other_robots v robots = filter (λ r. not (r == v)) robots

abbrev pub distance : Geometry → Point → Point → ℤ
distance g p q = g.hypot (p.0 -ℤ q.0) (p.1 -ℤ q.1)

-- `view.zones & inc.contested_zones` is not empty.
abbrev pub meets_zones : List ℕ → List ℕ → Bool
meets_zones zones contested = any (λ z. member z contested) zones

abbrev pub zone_in : List ℕ → Option ℕ → Bool
zone_in contested none = false
zone_in contested (some z) = member z contested

abbrev pub enters_zones : Option ZoneMap → Way → List ℕ → Bool
enters_zones none ahead contested = false
enters_zones (some zm) ahead contested = any (zone_in contested) (zm.zones_at ahead)

-- The contested points but the robot's that is left out.
abbrev pub points_but : Option ℕ → Dict Point → List Point
points_but exclude [] = []
points_but none ((r, p) ∷ rest) = p ∷ points_but none rest
points_but (some e) ((r, p) ∷ rest) =
    if r == e then points_but (some e) rest else p ∷ points_but (some e) rest

abbrev pub path_ahead : Cycle → ResolutionConfig → Way → Way
path_ahead c cfg path =
    c.geometry.sub_path path (pos 0) (min_ℤ (c.geometry.total_length path) cfg.pass_check_m)

-- A test that may raise: `none` is an exception. `both` is the source's `and`.
abbrev pub both : Option Bool → Option Bool → Option Bool
both none more = none
both (some false) more = some false
both (some true) more = more

-- The end of `_passed`. An empty way has no length, and the source raises.
abbrev pub clear_ahead : Cycle → ResolutionConfig → List Point → Incident → Way → Option Bool
clear_ahead c cfg pts inc [] = none
clear_ahead c cfg pts inc (p ∷ rest) =
    let ahead = path_ahead c cfg (p ∷ rest) in
    some (
      not (any (λ q. ltb_ℤ (c.geometry.distance_to_path q ahead) cfg.contested_radius_m) pts)
      && not (enters_zones c.world.zone_map ahead inc.contested_zones))

abbrev pub clear_of : Cycle → ResolutionConfig → Option ℕ → Incident → RobotView → Way → Option Bool
clear_of c cfg exclude inc view path =
    let pts = points_but exclude inc.contested_points in
    if any (λ p. ltb_ℤ (distance c.geometry p view.xy) cfg.contested_radius_m) pts
    then some false
    else if meets_zones view.zones inc.contested_zones
    then some false
    else clear_ahead c cfg pts inc path

-- `_passed`
abbrev pub passed_on :
    Cycle → ResolutionConfig → Option ℕ → Incident → RobotView → Option Way → Option Bool
passed_on c cfg exclude inc view none = some true
passed_on c cfg exclude inc view (some path) =
    if not view.active then some true else clear_of c cfg exclude inc view path

unfoldable pub passed : Cycle → ResolutionConfig → Option ℕ → Incident → RobotView → Option Bool
passed c cfg exclude inc view = passed_on c cfg exclude inc view view.path

abbrev pub other_passed : Cycle → ResolutionConfig → Incident → Option RobotView → Option Bool
other_passed c cfg inc none = some true
other_passed c cfg inc (some v) = if not v.mobile then some true else passed c cfg none inc v

-- `_others_passed`; `all` stops at the first that has not passed.
unfoldable pub others_passed : Cycle → ResolutionConfig → Incident → List ℕ → Option Bool
unfolding passed
others_passed c cfg inc [] = some true
others_passed c cfg inc (r ∷ rest) =
    both (other_passed c cfg inc (lookup r c.world.robots)) (others_passed c cfg inc rest)

-- `_from_position`
abbrev pub from_position : Geometry → Option Way → Point → Option Way
from_position g none xy = none
from_position g (some []) xy = none
from_position g (some (p ∷ [])) xy = none
from_position g (some (p ∷ q ∷ more)) xy =
    let path = p ∷ q ∷ more in
    let (s0, d0) = g.project path xy in
    let rest = g.sub_path path s0 (g.total_length path) in
    if ltb_ℤ (pos 50) d0 then some (xy ∷ rest) else some rest

abbrev pub is_following : ConflictKind → Bool
is_following following = true
is_following head_on = false
is_following crossing = false

-- A conflict with a robot that cannot move counts whatever its kind is.
abbrev pub conflicts : Bool → Option ConflictKind → Bool
conflicts immobile none = false
conflicts immobile (some k) = immobile || not (is_following k)

abbrev pub moving_on : RobotView → Bool
moving_on o = o.active && (elim o.path [ none ↦ false | some p ↦ true ])

-- One turn of the loop of `_release_ok`: whether the robot stands against the release.
abbrev pub against : Cycle → ResolutionConfig → Trajectory → ℕ → Option RobotView → Bool
against c cfg tv r none = false
against c cfg tv r (some o) =
    let immobile = not o.mobile || o.stale in
    let horizon = cfg.release_horizon_s in
    if immobile
    then conflicts true
        (c.geometry.find_conflict tv (c.geometry.predict_trajectory r o.xy o.yaw none horizon))
    else if not (moving_on o)
    then false
    else conflicts false
        (c.geometry.find_conflict tv (c.geometry.predict_trajectory r o.xy o.yaw o.path horizon))

abbrev pub release_path : Cycle → Incident → RobotView → Option Way
release_path c inc v = elim (lookup (victim inc) inc.original_paths) [
  | none ↦ from_position c.geometry (intent_path v) v.xy
  | some none ↦ from_position c.geometry (intent_path v) v.xy
  | some (some original) ↦ from_position c.geometry (some original) v.xy
]

abbrev pub release_along : Cycle → ResolutionConfig → List ℕ → RobotView → Option Way → Bool
release_along c cfg others v none = true
release_along c cfg others v (some path) =
    let tv =
      c.geometry.predict_trajectory v.robot_id v.xy v.yaw (some path) cfg.release_horizon_s in
    not (any (λ r. against c cfg tv r (lookup r c.world.robots)) others)

abbrev pub release_of : Cycle → ResolutionConfig → Incident → List ℕ → Option RobotView → Bool
release_of c cfg inc others none = true
release_of c cfg inc others (some v) =
    if not cfg.release_check || not v.active
    then true
    else release_along c cfg others v (release_path c inc v)

-- `_release_ok`
unfoldable pub release_ok : Cycle → ResolutionConfig → Incident → List ℕ → Bool
release_ok c cfg inc others = release_of c cfg inc others (lookup (victim inc) c.world.robots)

abbrev pub moved_from : Cycle → ResolutionConfig → Option RobotView → Option Point → Bool
moved_from c cfg none p = false
moved_from c cfg (some v) none = false
moved_from c cfg (some v) (some p) = leb_ℤ cfg.move_eps_m (distance c.geometry v.xy p)

unfoldable pub any_moved : Cycle → ResolutionConfig → Incident → List ℕ → Bool
any_moved c cfg inc others =
    any (λ r. moved_from c cfg (lookup r c.world.robots) (lookup r inc.step_positions)) others

-- How far the mask has to reach: past the others near the path, ...
abbrev pub past_blockers : Cycle → ResolutionConfig → Way → List Point → ℤ → ℤ
past_blockers c cfg path [] s = s
past_blockers c cfg path (b ∷ rest) s =
    let (sb, db) = c.geometry.project path b in
    past_blockers c cfg path rest (if leb_ℤ db cfg.contested_radius_m then max_ℤ s sb else s)

-- ... and past the first visit of each contested zone.
abbrev pub past_zones : List ℕ → List ZoneVisit → List ℕ → ℤ → ℤ
past_zones contested [] seen s = s
past_zones contested (v ∷ rest) seen s =
    if member v.zone_id contested && not (member v.zone_id seen)
    then past_zones contested rest (v.zone_id ∷ seen) (max_ℤ s v.s_out)
    else past_zones contested rest seen s

abbrev pub past_contested : Option ZoneMap → List ℕ → Way → ℤ → ℤ
past_contested none contested path s = s
past_contested (some zm) contested path s = past_zones contested (zm.zone_visits path) [] s

abbrev pub goal_in_zones : Option ZoneMap → Point → List ℕ → Bool
goal_in_zones none goal zones = false
goal_in_zones (some zm) goal zones = zone_in zones (zm.zone_at goal)

abbrev pub zones_drawn : Option ZoneMap → List ℕ → List ℕ
zones_drawn none zones = []
zones_drawn (some zm) zones = sorted_set zones

abbrev pub last_point : Point → Way → Point
last_point p [] = p
last_point p (q ∷ rest) = last_point q rest

abbrev pub mask_along :
    Cycle
    → ResolutionConfig
    → RobotView
    → List Point
    → List ℕ
    → List ℕ
    → Option Way
    → Option KeepoutMask
mask_along c cfg v blockers contested block_zones none = none
mask_along c cfg v blockers contested block_zones (some path) =
    let w = c.world in
    let body = cfg.robot_radius +ℤ cfg.keepout_margin_m in
    let goal = last_point v.xy path in
    let zones = zones_drawn w.zone_map block_zones in
    let total = c.geometry.total_length path in
    let s0 = min_ℤ total body in
    let s_need = past_contested w.zone_map contested path (past_blockers c cfg path blockers s0) in
    let s_max = total -ℤ (cfg.keepout_half_width_m +ℤ body) in
    if any (λ b. ltb_ℤ (distance c.geometry b goal) (cfg.robot_radius +ℤ body)) blockers
    then none
    else if goal_in_zones w.zone_map goal zones
    then none
    else if ltb_ℤ s_max s_need
    then none
    else some (
        c.geometry.draw_mask w.mask_spec path s0 (min_ℤ (s_need +ℤ cfg.keepout_extend_m) s_max)
          blockers zones v.xy)

-- `build_keepout_mask`
unfoldable pub build_keepout_mask :
    Cycle → ResolutionConfig → RobotView → List Point → List ℕ → List ℕ → Option KeepoutMask
build_keepout_mask c cfg v blockers contested block_zones =
    mask_along c cfg v blockers contested block_zones
      (from_position c.geometry (intent_path v) v.xy)
