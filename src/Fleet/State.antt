-- ===== src/Fleet/State.antt =====
-- The node's state, its surroundings, and actions on it. Handles of ROS and texts of the log and the
-- alerts are left out; a future and a dispatch are known by their numbers.
use amr_fleet_system.Prelude.{ℕ, ◌+◌, ℤ, Bool, ◌≡◌, refl, Option, none, some, List, [], ◌∷◌, ◌++◌}
use amr_fleet_system.Prelude.Dict.{Dict, lookup, insert}
use amr_fleet_system.TaskState.{Machine, Action, Disk, Result, ok, err, TaskRecord}
use amr_fleet_system.Scheduler.{TaskScheduler}
use amr_fleet_system.Kpi.{KpiTracker}
use amr_fleet_system.Latency.{LatencyModel, DelayQueue}
use amr_fleet_system.Allocation.{Strategy}

-- `RobotState`; no position stands for one that is not finite, and 0 for no task.
pub record RobotState : Type 0 where
  pub position : Option (ℤ × ℤ)
  pub status : ℕ
  pub current_task_id : ℕ

-- `_Robot`
pub record Robot : Type 0 where
  pub state : Option RobotState
  pub last_seen : ℤ
  pub lost : Bool
  pub load : ℕ
  pub inflight : Option ℕ
  pub backoff_until : ℤ

-- `_Dispatch`; `identity` tells one object from another.
pub record Dispatch : Type 0 where
  pub identity : ℕ
  pub robot_id : ℕ
  pub command_time : ℤ
  pub timeout_at : ℤ
  pub delay_s : Option ℤ
  pub future : Option ℕ
  pub unconfirmed : Bool

pub data Level : Type 0 where
  ok_level warn error : Level

pub data AlertName : Type 0 where
  estop_alert robot_error robot_lost robot_recovered task_failed task_requeued task_conflict :
      AlertName
  assign_timeout deadline_missed_alert invalid_task internal_error : AlertName

pub record Alert : Type 0 where
  pub level : Level
  pub name : AlertName
  pub robot : ℕ
  pub task : ℕ

-- The parameters that the callbacks read.
pub record Params : Type 0 where
  pub allocation_batch_size : ℕ
  pub allocation_batch_window : ℤ
  pub robot_state_timeout : ℤ
  pub assign_timeout_s : ℤ
  pub assign_reconcile : ℤ
  pub reject_backoff : ℤ
  pub task_timeout : ℤ

pub record Fleet : Type 0 where
  pub params : Params
  pub sm : Machine
  pub scheduler : TaskScheduler
  pub kpi : KpiTracker
  pub latency : LatencyModel
  pub robots : Dict Robot
  pub inflight : Dict Dispatch
  pub sent : Dict (Dict ℤ)
  pub outbox : DelayQueue ℕ
  pub batch_trigger : DelayQueue ℕ
  pub allocating : Bool
  pub realloc_requested : Bool
  pub next_id : ℕ
  pub alerts : List Alert
  pub internal_errors : ℕ
  pub invalid_tasks : ℕ
  pub conflicts : ℕ

-- Where a round reads the clock anew: as it begins, as a call is made, as it is put into the delay queue, and
-- as it is given up.
pub data Moment : Type 0 where
  round_begins call_made call_queued call_aborted : Moment

-- What a callback meets: the clock as it begins, and its later readings by the number of calls so far; the
-- bound on the rounds of a loop; the draws for the n-th message; the robots
-- whose service is there; the answers that have come; the strategy, the disk and the math library.
pub record World : Type 0 where
  pub now : ℤ
  pub clock : Moment → ℕ → ℤ
  pub max_rounds : ℕ
  pub uniform : ℤ → ℤ → ℤ → ℤ
  pub draws : ℕ → ℤ × ℤ
  pub ready : ℕ → Bool
  pub answered : ℕ → Bool
  pub strategy : Strategy
  pub disk : Disk
  pub hypot : ℤ → ℤ → ℤ

-- `none` is an exception.
abbrev pub Do : Type 0 → Type 0
Do A = Fleet → Option A × Fleet

module _ {A : Type 0} where
  abbrev pub pure : A → Do A
  pure a f = (some a, f)

  abbrev pub raise : Do A
  raise f = (none, f)

  abbrev pub gets : (Fleet → A) → Do A
  gets g f = (some (g f), f)

infixl 5 ◌>>=◌ ◌>>◌
abbrev pub ◌>>=◌ : {A B : Type 0} → Do A → (A → Do B) → Do B
◌>>=◌ act k f = let (r, f') = act f in elim r [ none ↦ (none, f') | some a ↦ k a f' ]

abbrev pub ◌>>◌ : {A B : Type 0} → Do A → Do B → Do B
act >> k = act >>= λ _. k

-- What holds if a step raises, and after the next step if it does not, holds after the two.
pub bind_rule {ℓ} :
    {A B : Type 0} (P : Fleet → Type ℓ) (act : Do A) (k : A → Do B) (f : Fleet)
    → ((act f).0 ≡ none → P (act f).1)
    → ((a : A) → (act f).0 ≡ some a → P (k a (act f).1).1)
    → P ((act >>= k) f).1
bind_rule {A} {B} P act k f = go (act f).0 (act f).1
  where
    go :
        (r : Option A) (g : Fleet)
        → (r ≡ none → P g)
        → ((a : A) → r ≡ some a → P (k a g).1)
        → P (elim r as (λ x. Option B × Fleet) [ none ↦ (none, g) | some a ↦ k a g ]).1
    go none g raised returned = raised refl
    go (some a) g raised returned = returned a refl

abbrev pub skip : Do (Unit {0})
skip = pure tt

abbrev pub modify : (Fleet → Fleet) → Do (Unit {0})
modify g f = (some tt, g f)

-- A method of the task state machine.
abbrev pub result_of : {A : Type 0} → Result A → Option A
result_of (ok a) = some a
result_of (err e) = none

abbrev pub on_machine : {A : Type 0} → Action A → Do A
on_machine act f = let (r, m) = act f.sm in (result_of r, record f { sm = m })

-- `for x in xs`
unfoldable pub each : {A : Type 0} → (A → Do (Unit {0})) → List A → Do (Unit {0})
each body [] = skip
each body (x ∷ xs) = let rest = each body xs in body x >> rest

-- `self._robots[robot_id]`, and a write to it
abbrev pub robot_at : ℕ → Do Robot
robot_at robot f = (lookup robot f.robots, f)

abbrev pub set_robot : ℕ → (Robot → Robot) → Do (Unit {0})
set_robot robot g f = elim (lookup robot f.robots) [
  | none ↦ (none, f)
  | some r ↦ (some tt, record f { robots = insert robot (g r) f.robots })
]

-- `self._sm.get(task_id)`
abbrev pub record_of : ℕ → Fleet → Option TaskRecord
record_of task f = lookup task f.sm.records

-- `_alert`
abbrev pub alert : Level → AlertName → ℕ → ℕ → Do (Unit {0})
alert level name robot task = modify (λ f. record f {
  alerts = f.alerts ++ record { level = level; name = name; robot = robot; task = task } ∷ [];
})

-- `_guarded`, with `_internal_error`
abbrev pub guarded : Do (Unit {0}) → Fleet → Fleet
guarded act f =
    let (r, f') = act f in
    elim r [
      | some _ ↦ f'
      | none ↦ record f' {
        internal_errors = f'.internal_errors + 1;
        alerts =
            f'.alerts ++ record { level = error; name = internal_error; robot = 0; task = 0 } ∷ [];
      }
    ]
