-- ===== src/TaskState/Types.antt =====
-- The records and events of task_state.py, and its table of transitions.
use amr_fleet_system.Prelude.{ℕ, ℤ, ◌-ℤ◌, Bool, true, false, Option, none, some, String}
use amr_fleet_system.Task.{Status, pending, in_progress, completed, failed, TaskSpec}

pub record TaskEvent : Type 0 where
  pub task_id : ℕ
  pub robot_id : ℕ
  pub old_status : Status
  pub new_status : Status
  pub time : ℤ
  pub reason : String

pub record TaskRecord : Type 0 where
  pub spec : TaskSpec
  pub status : Status
  pub robot_id : ℕ
  pub created_time : ℤ
  pub start_time : Option ℤ
  pub end_time : Option ℤ
  pub distance_m : ℤ
  pub result : String
  pub attempts : ℕ
  pub failures : ℕ
  pub deadline_missed : Bool
  pub last_pose : Option (ℤ × ℤ)
  pub pinned_robot_id : ℕ
  pub command_time : Option ℤ

-- `duration_s`
unfoldable pub duration_s : TaskRecord → Option ℤ
duration_s r = elim r.start_time [
  | none ↦ none
  | some s ↦ elim r.end_time [ none ↦ none | some e ↦ some (e -ℤ s) ]
]

-- `TERMINAL`
abbrev pub is_terminal : Status → Bool
is_terminal completed = true
is_terminal failed = true
is_terminal _ = false

-- `TRANSITIONS`: `new in TRANSITIONS[old]`
abbrev pub allowed : Status → Status → Bool
allowed pending in_progress = true
allowed pending failed = true
allowed in_progress completed = true
allowed in_progress failed = true
allowed failed pending = true
allowed _ _ = false
