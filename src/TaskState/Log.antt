-- ===== src/TaskState/Log.antt =====
-- `TaskLogWriter`. A file is its lines, in a dict by the day that names it; numbers and times stand
-- as values, not as text. The wall clock's day and whether the disk takes a write come from outside.
use amr_fleet_system.Prelude.{
  ℕ, ◌+◌, ℤ, Bool, Option, none, some, List, [], ◌∷◌, ◌++◌, String, if◌then◌else◌,
}
use amr_fleet_system.Prelude.Dict.{Dict, lookup, insert}
use amr_fleet_system.TaskState.Types.{TaskRecord, duration_s}

-- `InvalidTransition`, the two `ValueError`s, `KeyError`, `OSError`
pub data Error : Type 0 where
  duplicate_task unknown_task invalid_transition not_finished os_error : Error

pub data Result (A : Type 0) : Type 0 where
  ok : A → Result A
  err : Error → Result A

pub data Line : Type 0 where
  header : Line
  row :
      (task_id robot_id : ℕ) (start_time end_time : Option ℤ) (distance_m : ℤ)
      (duration_s : Option ℤ) (result : String)
      → Line

pub record Writer : Type 0 where
  pub files : Dict (List Line)
  pub rows_written : ℕ

-- What the machine's surroundings answer: today's date, and whether the write succeeds.
pub record Disk : Type 0 where
  pub day : ℕ
  pub writable : Bool

-- `row_for`
abbrev pub row_for : TaskRecord → Line
row_for r =
    row r.spec.task_id r.robot_id r.start_time r.end_time r.distance_m (duration_s r) r.result

-- `path.exists()` and a size above 0, or else the header is due.
abbrev pub with_header : Option (List Line) → List Line
with_header none = header ∷ []
with_header (some []) = header ∷ []
with_header (some (l ∷ ls)) = l ∷ ls

-- `write`: the day of the file, or the error.
unfoldable pub write : Disk → TaskRecord → Writer → Result ℕ × Writer
write disk r w = elim r.end_time [
  | none ↦ (err not_finished, w)
  | some _ ↦
      if disk.writable
      then (
        ok disk.day,
        record w {
          files = insert disk.day (with_header (lookup disk.day w.files) ++ row_for r ∷ []) w.files;
          rows_written = w.rows_written + 1;
        },
      )
      else (err os_error, w)
]
