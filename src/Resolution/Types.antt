-- ===== src/Resolution/Types.antt =====
-- What the resolution of deadlocks works on: the view of a cycle, the incidents, the events and the commands.
-- A zone, a pocket and a robot are known by their numbers; a text of a message is left out.
use amr_fleet_system.Prelude.{
  ℕ, zero, suc, ◌-◌, ℤ, pos, neg_ℤ, Bool, Option, none, some, List, [], ◌∷◌, length, leb,
  if◌then◌else◌,
}
use amr_fleet_system.Prelude.Dict.{Dict}

abbrev pub Point : Type 0
Point = ℤ × ℤ

abbrev pub Way : Type 0
Way = List Point

-- `YIELD` and `ALT_PATH`; a new incident has neither.
pub data Strategy : Type 0 where
  unset : Strategy
  yield : Strategy
  alt_path : Strategy

pub data EventKind : Type 0 where
  deadlock resolved unresolved escalated : EventKind

-- `DL_HEAD_ON`, `DL_CIRCULAR`, `DL_BLOCKED`, `DL_MUTUAL`, `DL_LIVELOCK`
pub data DeadlockKind : Type 0 where
  head_on_kind circular_kind blocked_kind mutual_kind livelock_kind : DeadlockKind

pub data ConflictKind : Type 0 where
  head_on crossing following : ConflictKind

-- The texts that go along with a transition.
pub data Reason : Type 0 where
  persist : Reason
  yield_timeout : Reason
  others_parked : Reason
  no_pocket : Reason
  no_alt_path : Reason
  alt_timeout : Reason
  deadlock_max : Reason
  no_mobile_victim : Reason
  too_many_attempts : (robot : ℕ) → Reason
  no_route : Reason → Reason
  exhausted : Reason → Reason

-- An entry of `Incident.attempts`.
pub data Attempt : Type 0 where
  yield_into_zone : (victim : ℕ) → Attempt
  yield_attempt : (victim : ℕ) → Attempt
  alt_attempt : (victim : ℕ) → Reason → Attempt
  alt_no_route : (victim : ℕ) → Reason → Attempt

pub record ResolutionConfig : Type 0 where
  pub robot_radius : ℤ
  pub pocket_into_zone : Bool
  pub pocket_path_horizon_m : ℤ
  pub escalate_after_s : ℤ
  pub yield_timeout_s : ℤ
  pub replan_grace_s : ℤ
  pub alt_path_timeout_s : ℤ
  pub deadlock_max_s : ℤ
  pub max_attempts_per_robot : ℕ
  pub keepout_half_width_m : ℤ
  pub keepout_extend_m : ℤ
  pub keepout_margin_m : ℤ
  pub contested_radius_m : ℤ
  pub pass_check_m : ℤ
  pub move_eps_m : ℤ
  pub cooldown_s : ℤ
  pub progress_reset_m : ℤ
  pub release_check : Bool
  pub release_horizon_s : ℤ

pub record RobotView : Type 0 where
  pub robot_id : ℕ
  pub xy : Point
  pub yaw : ℤ
  pub path : Option Way
  pub active : Bool
  pub priority : ℤ
  pub deadline : Option ℤ
  pub zones : List ℕ
  pub intent : Option Way
  pub mobile : Bool
  pub stale : Bool

-- The infinite time of a robot without a deadline is above every other.
abbrev pub rank_at : ℤ → Option ℤ → ℕ → List ℤ
rank_at priority none id = neg_ℤ priority ∷ pos 1 ∷ pos 0 ∷ pos id ∷ []
rank_at priority (some t) id = neg_ℤ priority ∷ pos 0 ∷ t ∷ pos id ∷ []

abbrev pub rank : RobotView → List ℤ
rank v = rank_at v.priority v.deadline v.robot_id

abbrev pub intent_path : RobotView → Option Way
intent_path v = elim v.intent [ none ↦ v.path | some p ↦ some p ]

pub record Pocket : Type 0 where
  pub pocket_id : ℕ
  pub xy : Point
  pub yaw : ℤ

pub record GridSpec : Type 0 where
  pub resolution : ℤ
  pub origin : Point
  pub width : ℕ
  pub height : ℕ

pub record KeepoutMask : Type 0 where
  pub spec : GridSpec
  pub data_rows : List (List ℕ)

pub record TraversabilityGrid : Type 0 where
  pub spec : GridSpec
  pub passable : List (List Bool)

pub record ZoneVisit : Type 0 where
  pub zone_id : ℕ
  pub s_out : ℤ

pub record ZoneMap : Type 0 where
  pub zones_at : Way → List (Option ℕ)
  pub zone_at : Point → Option ℕ
  pub zone_visits : Way → List ZoneVisit

pub record Trajectory : Type 0 where
  pub robot : ℕ
  pub samples : List (ℤ × Point)

-- The numerical functions on paths, grids and trajectories, which compute with numpy and scipy; the steps
-- of sampling are theirs, and `resample_half` takes half of the resolution.
pub record Geometry : Type 0 where
  pub hypot : ℤ → ℤ → ℤ
  pub round3 : Point → Point
  pub total_length : Way → ℤ
  pub project : Way → Point → ℤ × ℤ
  pub sub_path : Way → ℤ → ℤ → Way
  pub distance_to_path : Point → Way → ℤ
  pub resample_half : Way → ℤ → Way
  pub blocks : KeepoutMask → Point → Bool
  pub draw_mask : Option GridSpec → Way → ℤ → ℤ → List Point → List ℕ → Point → KeepoutMask
  pub route_exists : TraversabilityGrid → Point → Point → Option KeepoutMask → Bool
  pub find_yield_pocket :
      TraversabilityGrid
      → Point
      → List Point
      → List Way
      → List Pocket
      → List Point
      → List ℕ
      → Bool
      → Option Pocket
  pub predict_trajectory : ℕ → Point → ℤ → Option Way → ℤ → Trajectory
  pub find_conflict : Trajectory → Trajectory → Option ConflictKind

pub record WorldView : Type 0 where
  pub robots : Dict RobotView
  pub zone_map : Option ZoneMap
  pub tgrid : Option TraversabilityGrid
  pub pockets : List Pocket
  pub mask_spec : Option GridSpec
  pub held_zones : Dict (List ℕ)

pub record Incident : Type 0 where
  pub incident_id : ℕ
  pub robots : List ℕ
  pub kind : DeadlockKind
  pub detected_at : ℤ
  pub victims : List ℕ
  pub contested_points : Dict Point
  pub contested_zones : List ℕ
  pub victim_index : ℕ
  pub strategy : Strategy
  pub step_started : ℤ
  pub step_positions : Dict Point
  pub pocket : Option Pocket
  pub mask : Option KeepoutMask
  pub attempts : List Attempt
  pub original_paths : Dict (Option Way)
  pub immobile : List ℕ
  pub victim_path_sig : Option (ℕ × Point × Point)
  pub victim_replanned : Bool

abbrev pub entry_at : ℕ → List ℕ → ℕ
entry_at n [] = 0
entry_at zero (x ∷ xs) = x
entry_at (suc n) (x ∷ xs) = entry_at n xs

-- `min(victim_index, len(victims) - 1)`; an incident has a victim.
abbrev pub victim : Incident → ℕ
victim inc =
    let last = length inc.victims - 1 in
    entry_at (if leb inc.victim_index last then inc.victim_index else last) inc.victims

pub record ResolutionEvent : Type 0 where
  pub kind : EventKind
  pub incident_id : ℕ
  pub time : ℤ
  pub robots : List ℕ
  pub deadlock_kind : DeadlockKind
  pub attempts : List Attempt
  pub zones : List ℕ
  pub at : Dict Point
  pub immobile : List ℕ
  pub victim : ℕ
  pub reason : Option Reason
  pub strategy : Option Strategy
  pub resolve_time_s : Option ℤ
  pub pocket : Option ℕ

pub record IncidentCommand : Type 0 where
  pub incident_id : ℕ
  pub hold : Bool
  pub yield_pose : Option (Point × ℤ)
  pub keepout : Option KeepoutMask
  pub masked_zones : List ℕ

-- An entry of `history`
pub record Closed : Type 0 where
  pub incident : ℕ
  pub robots : List ℕ
  pub kind : DeadlockKind
  pub outcome : EventKind
  pub strategy : Strategy
  pub victim : ℕ
  pub resolve_s : ℤ
  pub attempts : List Attempt
  pub reason : Option Reason

-- The end of a cooldown; `forever` is `math.inf`.
pub data Until : Type 0 where
  at_time : ℤ → Until
  forever : Until

pub record IncidentManager : Type 0 where
  pub cfg : ResolutionConfig
  pub active : Dict Incident
  pub next_id : ℕ
  pub robot_attempts : Dict ℕ
  pub anchor : Dict ℤ
  pub cooldown : List (List ℕ × Until)
  pub stuck : List (List ℕ × List ℕ)
  pub history : List Closed

-- What stays the same in a call.
pub record Cycle : Type 0 where
  pub geometry : Geometry
  pub now : ℤ
  pub world : WorldView

-- The manager, the incident that the call is about, as both share it in the source, and the events.
pub record Outcome : Type 0 where
  pub manager : IncidentManager
  pub incident : Incident
  pub events : List ResolutionEvent
