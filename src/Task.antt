-- ===== src/Task.antt =====
-- src/amr_fleet/amr_fleet/task_schema.py: the task description that all the fleet modules share.
-- Identifiers are numbers in the order of their texts, and 0 is the empty text.
use amr_fleet_system.Prelude.{ℕ, ℤ, ◌-ℤ◌, ltb_ℤ, Bool, true, false, Option, none, some, String}

-- `STATUS_PENDING`, `STATUS_IN_PROGRESS`, `STATUS_COMPLETED`, `STATUS_FAILED`
pub data Status : Type 0 where
  pending in_progress completed failed : Status

abbrev pub same_status : Status → Status → Bool
same_status pending pending = true
same_status in_progress in_progress = true
same_status completed completed = true
same_status failed failed = true
same_status _ _ = false

-- `ITEM_TYPES`
pub data ItemType : Type 0 where
  small medium large : ItemType

pub record Pose2D : Type 0 where
  pub x : ℤ
  pub y : ℤ
  pub yaw : ℤ
  pub frame_id : String

pub record TaskSpec : Type 0 where
  pub task_id : ℕ
  pub pickup : Pose2D
  pub dropoff : Pose2D
  pub item_type : ItemType
  pub item_mass : ℤ
  pub priority : ℤ
  pub deadline : Option ℤ
  pub robot_id : ℕ
  pub created : ℤ
  pub status : Status

-- `time_to_deadline`; `none` is the source's `inf`.
unfoldable pub time_to_deadline : TaskSpec → ℤ → Option ℤ
time_to_deadline t now = elim t.deadline [ none ↦ none | some d ↦ some (d -ℤ now) ]

-- `is_deadline_missed` (scheduler.py)
abbrev pub is_deadline_missed : TaskSpec → ℤ → Bool
is_deadline_missed t now = elim t.deadline [ none ↦ false | some d ↦ ltb_ℤ d now ]
