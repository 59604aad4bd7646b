-- ===== src/Schema.antt =====
-- src/amr_fleet/amr_fleet/task_schema.py: `parse_deadline`, and `check_spec` and `from_dict` of `TaskSchema`.
-- The JSON validator, the regular expressions and the reader of dates are parameters. Numbers are exact
-- integers of one unit; `none` stands for a number that is not finite, and for a refused task.
pub mod Rules
pub mod Deadlines
pub mod Tests
use amr_fleet_system.Prelude.{
  ℕ, ℤ, pos, negsuc, ◌+ℤ◌, ◌-ℤ◌, ltb_ℤ, ltb, suc, Bool, true, false, not, ◌&&◌, ◌||◌, ◌==◌, Option,
  none, some, String, str_eq, if◌then◌else◌,
}
use amr_fleet_system.Task.{Status, pending, ItemType, Pose2D, TaskSpec}

abbrev pub abs_ℤ : ℤ → ℤ
abs_ℤ (pos n) = pos n
abs_ℤ (negsuc n) = pos (suc n)

-- The value of `deadline`: missing, a truth value, a number, an integer too large for a float, or a text,
-- by its length and the time that `datetime` reads in it.
pub data DeadlineValue : Type 0 where
  missing truth_value too_large : DeadlineValue
  seconds : Option ℤ → DeadlineValue
  text : (length : ℕ) (epoch : Option ℤ) → DeadlineValue

abbrev pub or_same : Option ℤ → ℤ → ℤ
or_same none now = now
or_same (some wall) now = wall

unfoldable pub parse_deadline : DeadlineValue → ℤ → Option ℤ → ℤ → Option (Option ℤ)
parse_deadline missing now wall_now horizon = some none
parse_deadline truth_value now wall_now horizon = none
parse_deadline too_large now wall_now horizon = none
parse_deadline (seconds none) now wall_now horizon = none
parse_deadline (seconds (some s)) now wall_now horizon =
    if ltb_ℤ s (pos 0) || ltb_ℤ horizon s then none else some (some (now +ℤ s))
parse_deadline (text length none) now wall_now horizon = none
parse_deadline (text length (some epoch)) now wall_now horizon =
    let remaining = epoch -ℤ or_same wall_now now in
    if ltb 64 length || ltb_ℤ horizon (abs_ℤ remaining)
    then none
    else some (some (now +ℤ remaining))

-- A task before the check, with what floats may hold.
pub record RawPose : Type 0 where
  pub x : Option ℤ
  pub y : Option ℤ
  pub yaw : Option ℤ
  pub frame_id : String

pub record RawSpec : Type 0 where
  pub task_id : ℕ
  pub pickup : RawPose
  pub dropoff : RawPose
  pub item_type : Option ItemType
  pub item_mass : Option ℤ
  pub priority : ℤ
  pub deadline : Option (Option ℤ)
  pub robot_id : ℕ
  pub created : ℤ
  pub status : Status

-- The JSON object, as the validator leaves it.
pub record PoseDoc : Type 0 where
  pub x : ℤ
  pub y : ℤ
  pub yaw : Option ℤ
  pub frame_id : String

pub record TaskDoc : Type 0 where
  pub task_id : ℕ
  pub pickup : PoseDoc
  pub dropoff : PoseDoc
  pub item_type : ItemType
  pub priority : Option ℤ
  pub deadline : DeadlineValue
  pub robot_id : ℕ

-- `TaskSchema`, with `TASK_ID_RE`, `ROBOT_ID_RE` and `MAX_COORD_M`
pub record TaskSchema : Type 0 where
  pub is_valid : TaskDoc → Bool
  pub is_task_id : ℕ → Bool
  pub is_robot_id : ℕ → Bool
  pub item_masses : ItemType → ℤ
  pub max_coord : ℤ
  pub horizon_s : ℤ

abbrev pub finite_pose : Option ℤ → Option ℤ → Option ℤ → String → Option Pose2D
finite_pose (some x) (some y) (some yaw) frame =
    some (record { x = x; y = y; yaw = yaw; frame_id = frame })
finite_pose none y yaw frame = none
finite_pose (some x) none yaw frame = none
finite_pose (some x) (some y) none frame = none

abbrev pub in_range : ℤ → Option Pose2D → Option Pose2D
in_range max none = none
in_range max (some p) = if ltb_ℤ max (abs_ℤ p.x) || ltb_ℤ max (abs_ℤ p.y) then none else some p

unfoldable pub check_pose : ℤ → RawPose → Option Pose2D
check_pose max p = in_range max (finite_pose p.x p.y p.yaw p.frame_id)

abbrev pub check_mass : Option ℤ → Option ℤ
check_mass none = none
check_mass (some m) = if ltb_ℤ (pos 0) m then some m else none

abbrev pub check_deadline : ℤ → ℤ → Option (Option ℤ) → Option (Option ℤ)
check_deadline horizon now none = some none
check_deadline horizon now (some none) = none
check_deadline horizon now (some (some d)) =
    if ltb_ℤ horizon (abs_ℤ (d -ℤ now)) then none else some (some d)

-- The task of parts that have passed.
abbrev pub joined :
    RawSpec
    → Option ItemType
    → Option Pose2D
    → Option Pose2D
    → Option ℤ
    → Option (Option ℤ)
    → Option TaskSpec
joined raw (some item) (some from) (some to) (some mass) (some deadline) = some (record {
  task_id = raw.task_id;
  pickup = from;
  dropoff = to;
  item_type = item;
  item_mass = mass;
  priority = raw.priority;
  deadline = deadline;
  robot_id = raw.robot_id;
  created = raw.created;
  status = raw.status;
})
joined raw none from to mass deadline = none
joined raw (some item) none to mass deadline = none
joined raw (some item) (some from) none mass deadline = none
joined raw (some item) (some from) (some to) none deadline = none
joined raw (some item) (some from) (some to) (some mass) none = none

-- `check_spec`; what passes has finite numbers and a known type.
unfoldable pub check_spec : TaskSchema → RawSpec → ℤ → Option TaskSpec
check_spec schema raw now =
    if not (schema.is_task_id raw.task_id) || not (schema.is_robot_id raw.robot_id)
    then none
    else joined raw raw.item_type (check_pose schema.max_coord raw.pickup)
        (check_pose schema.max_coord raw.dropoff) (check_mass raw.item_mass)
        (check_deadline schema.horizon_s now raw.deadline)

-- `_pose_from_dict`
abbrev pub or_nought : Option ℤ → ℤ
or_nought none = pos 0
or_nought (some n) = n

unfoldable pub pose_from_dict : PoseDoc → RawPose
pose_from_dict d = record {
  x = some d.x;
  y = some d.y;
  yaw = some (or_nought d.yaw);
  frame_id = if str_eq d.frame_id "" then "map" else d.frame_id;
}

-- The deadline is read while the task is made, so an error there comes first.
abbrev pub some_deadline : Option ℤ → Option (Option ℤ)
some_deadline none = none
some_deadline (some d) = some (some d)

abbrev pub raw_of : TaskSchema → TaskDoc → ℤ → ℕ → Option ℤ → RawSpec
raw_of schema doc now new_id deadline = record {
  task_id = if doc.task_id == 0 then new_id else doc.task_id;
  pickup = pose_from_dict doc.pickup;
  dropoff = pose_from_dict doc.dropoff;
  item_type = some doc.item_type;
  item_mass = some (schema.item_masses doc.item_type);
  priority = or_nought doc.priority;
  deadline = some_deadline deadline;
  robot_id = doc.robot_id;
  created = now;
  status = pending;
}

unfoldable pub from_dict : TaskSchema → TaskDoc → ℤ → Option ℤ → ℕ → Option TaskSpec
from_dict schema doc now wall_now new_id =
    if not (schema.is_valid doc)
    then none
    else elim (parse_deadline doc.deadline now wall_now schema.horizon_s) [
      | none ↦ none
      | some deadline ↦ check_spec schema (raw_of schema doc now new_id deadline) now
    ]
