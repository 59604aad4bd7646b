-- ===== src/Kpi.antt =====
-- src/amr_fleet/amr_fleet/kpi.py: `KpiTracker`, and `map_status` of robot_status.py with the status
-- codes that both share. Times are exact integers; a rate is a fraction that is not worked out.
pub mod Window
pub mod Busy
pub mod Tests
use amr_fleet_system.Prelude.{
  ℕ, zero, suc, ◌+◌, ◌*◌, ℤ, pos, pos_part, ◌+ℤ◌, ◌-ℤ◌, ltb_ℤ, leb_ℤ, min_ℤ, max_ℤ, Bool, true,
  false, ◌&&◌, ◌==◌, Option, none, some, List, [], ◌∷◌, ◌++◌, length, member, String, str_eq,
  if◌then◌else◌,
}
use amr_fleet_system.Prelude.Dict.{Dict, lookup, insert, values}
use amr_fleet_system.TaskState.{Counts}

abbrev pub status_idle : ℕ
status_idle = 0

abbrev pub status_moving : ℕ
status_moving = 1

abbrev pub status_docking : ℕ
status_docking = 2

abbrev pub status_loading : ℕ
status_loading = 3

abbrev pub status_charging : ℕ
status_charging = 4

abbrev pub status_error : ℕ
status_error = 5

abbrev pub status_estop : ℕ
status_estop = 6

-- `BUSY_STATUSES`
abbrev pub default_busy : List ℕ
default_busy = status_moving ∷ status_docking ∷ status_loading ∷ []

pub data Mode : Type 0 where
  assigned : Mode
  moving : Mode

-- A robot: the first observation, the last update, whether it is busy since then, its busy time.
pub record Observed : Type 0 where
  pub first : ℤ
  pub last : ℤ
  pub busy_now : Bool
  pub busy : ℤ

pub record KpiTracker : Type 0 where
  pub window_s : ℤ
  pub min_window_s : ℤ
  pub busy_statuses : List ℕ
  pub utilization_mode : Mode
  pub start_time : Option ℤ
  pub completions : List ℤ
  pub completed : ℕ
  pub failed : ℕ
  pub duration_sum : ℤ
  pub deadlock_count : ℕ
  pub robots : Dict Observed

abbrev pub fresh : ℤ → ℤ → List ℕ → Mode → KpiTracker
fresh window min_window statuses mode = record {
  window_s = window;
  min_window_s = min_window;
  busy_statuses = statuses;
  utilization_mode = mode;
  start_time = none;
  completions = [];
  completed = 0;
  failed = 0;
  duration_sum = pos 0;
  deadlock_count = 0;
  robots = [];
}

-- `__init__`; `none` is the `ValueError` of a window that is not positive.
unfoldable pub new_tracker : ℤ → ℤ → List ℕ → Mode → Option KpiTracker
new_tracker window min_window statuses mode =
    if leb_ℤ window (pos 0) then none else some (fresh window min_window statuses mode)

-- events

-- `start`: only the first call counts.
abbrev pub started : ℤ → Option ℤ → Option ℤ
started now none = some now
started now (some t) = some t

unfoldable pub start : ℤ → KpiTracker → KpiTracker
start now k = record k { start_time = started now k.start_time }

-- `_trim`
unfoldable pub drop_until : ℤ → List ℤ → List ℤ
drop_until cutoff [] = []
drop_until cutoff (t ∷ ts) =
    let rest = drop_until cutoff ts in if leb_ℤ t cutoff then rest else t ∷ ts

unfoldable pub trim : ℤ → KpiTracker → KpiTracker
trim now k = record k { completions = drop_until (now -ℤ k.window_s) k.completions }

unfoldable pub record_completion : ℤ → ℤ → KpiTracker → KpiTracker
unfolding start trim
record_completion now duration k = trim now (record (start now k) {
  completed = k.completed + 1;
  duration_sum = k.duration_sum +ℤ max_ℤ (pos 0) duration;
  completions = k.completions ++ now ∷ [];
})

unfoldable pub record_failure : ℤ → KpiTracker → KpiTracker
unfolding start
record_failure now k = record (start now k) { failed = k.failed + 1 }

unfoldable pub record_deadlock : ℤ → KpiTracker → KpiTracker
record_deadlock n k = record k { deadlock_count = k.deadlock_count + pos_part (max_ℤ (pos 0) n) }

abbrev pub is_busy : KpiTracker → ℕ → Bool → Bool
is_busy k status has_task = elim k.utilization_mode [
  | assigned ↦ has_task
  | moving ↦ member status k.busy_statuses
]

-- The busy time with the span since the last update, if the robot was busy in it.
abbrev pub busy_until : ℤ → Observed → ℤ
busy_until now o = if ltb_ℤ o.last now && o.busy_now then o.busy +ℤ (now -ℤ o.last) else o.busy

abbrev pub observe : ℤ → Bool → Option Observed → Observed
observe now b none = record { first = now; last = now; busy_now = b; busy = pos 0 }
observe now b (some o) = record o { last = max_ℤ o.last now; busy_now = b; busy = busy_until now o }

unfoldable pub update_robot : ℕ → ℕ → ℤ → Bool → KpiTracker → KpiTracker
unfolding start
update_robot robot status now has_task k = record (start now k) {
  robots = insert robot (observe now (is_busy k status has_task) (lookup robot k.robots)) k.robots;
}

-- indicators

pub record Rate : Type 0 where
  pub amount : ℤ
  pub per : ℤ

abbrev pub no_rate : Rate
no_rate = record { amount = pos 0; per = pos 1 }

-- `throughput`: completions per window, an hour being 3600 of the unit of time.
unfoldable pub throughput : ℤ → KpiTracker → Rate × KpiTracker
unfolding trim
throughput now k =
    let k' = trim now k in
    let rate : Rate = elim k.start_time [
      | none ↦ no_rate
      | some t ↦ record {
        amount = pos (length k'.completions * 3600);
        per = min_ℤ k.window_s (max_ℤ (now -ℤ t) k.min_window_s);
      }
    ] in
    (rate, k')

unfoldable pub avg_task_duration : KpiTracker → Rate
avg_task_duration k = elim k.completed [
  | zero ↦ no_rate
  | suc n ↦ record { amount = k.duration_sum; per = pos (suc n) }
]

abbrev pub busy_total : ℤ → List Observed → ℤ
busy_total now [] = pos 0
busy_total now (o ∷ os) = busy_until now o +ℤ busy_total now os

abbrev pub observed_total : ℤ → List Observed → ℤ
observed_total now [] = pos 0
observed_total now (o ∷ os) = max_ℤ (pos 0) (now -ℤ o.first) +ℤ observed_total now os

unfoldable pub robot_utilization : ℤ → KpiTracker → Rate
robot_utilization now k =
    let total = observed_total now (values k.robots) in
    if ltb_ℤ (pos 0) total
    then record { amount = busy_total now (values k.robots); per = total }
    else no_rate

unfoldable pub robot_busy_time : ℕ → ℤ → KpiTracker → ℤ
robot_busy_time robot now k = elim (lookup robot k.robots) [
  | none ↦ pos 0
  | some o ↦ busy_until now o
]

-- `FleetStatus`, with the counts of the task state machine where they are given
pub record Snapshot : Type 0 where
  pub tasks_pending : ℕ
  pub tasks_in_progress : ℕ
  pub tasks_completed : ℕ
  pub tasks_failed : ℕ
  pub per_hour : Rate
  pub avg_duration : Rate
  pub utilization : Rate
  pub deadlocks : ℕ

abbrev pub counts_or : KpiTracker → Option Counts → Counts
counts_or k (some c) = c
counts_or k none = record {
  pending_tasks = 0;
  in_progress_tasks = 0;
  completed_tasks = k.completed;
  failed_tasks = k.failed;
}

unfoldable pub snapshot : ℤ → Option Counts → KpiTracker → Snapshot × KpiTracker
unfolding throughput avg_task_duration robot_utilization
snapshot now counts k =
    let c = counts_or k counts in
    let (rate, k') = throughput now k in
    (
      record {
        tasks_pending = c.pending_tasks;
        tasks_in_progress = c.in_progress_tasks;
        tasks_completed = c.completed_tasks;
        tasks_failed = c.failed_tasks;
        per_hour = rate;
        avg_duration = avg_task_duration k';
        utilization = robot_utilization now k';
        deadlocks = k'.deadlock_count;
      },
      k',
    )

-- The calls that the fleet manager makes, and a run of them.
pub data Event : Type 0 where
  completion : (now duration : ℤ) → Event
  failure : (now : ℤ) → Event
  deadlocks : (n : ℤ) → Event
  robot_state : (robot status : ℕ) (now : ℤ) (has_task : Bool) → Event
  query : (now : ℤ) → Event

abbrev pub apply : Event → KpiTracker → KpiTracker
apply (completion now duration) k = record_completion now duration k
apply (failure now) k = record_failure now k
apply (deadlocks n) k = record_deadlock n k
apply (robot_state robot status now has_task) k = update_robot robot status now has_task k
apply (query now) k = (throughput now k).1

abbrev pub run : List Event → KpiTracker → KpiTracker
run [] k = k
run (e ∷ es) k = run es (apply e k)

-- robot_status.py

abbrev pub phase_to_status : List (String × ℕ)
phase_to_status =
    ("moving", status_moving)
    ∷ ("navigating", status_moving)
    ∷ ("returning", status_moving)
    ∷ ("perceiving", status_moving)
    ∷ ("recovering", status_moving)
    ∷ ("docking", status_docking)
    ∷ ("undocking", status_docking)
    ∷ ("loading", status_loading)
    ∷ ("unloading", status_loading)
    ∷ ("charging", status_charging)
    ∷ ("error", status_error)
    ∷ ("lost", status_error)
    ∷ ("idle", status_idle)
    ∷ ("waiting", status_idle)
    ∷ ("", status_idle)
    ∷ []

abbrev pub status_of : String → List (String × ℕ) → ℕ
status_of phase [] = status_idle
status_of phase ((name, status) ∷ rest) = if str_eq phase name then status else status_of phase rest

-- `map_status`; `clean` strips a string and makes it lower case.
unfoldable pub map_status : (clean : String → String) → Bool → Option String → Bool → ℕ
map_status clean estop phase lost =
    if estop then status_estop else if lost then status_error else elim phase [
      | none ↦ status_of (clean "") phase_to_status
      | some p ↦ status_of (clean p) phase_to_status
    ]
