-- ===== src/Deadlock.antt =====
-- src/amr_fleet/amr_fleet/deadlock.py: `WaitForGraph` and `StallDetector`, in Confirmer
-- `CycleConfirmer` and in Cycles `find_cycle`. Lengths and times are exact integers.
pub mod Confirmer
pub mod Confirming
pub mod Cycles
pub mod Walks
pub mod SimpleCycle
pub mod Waiting
pub mod Stalls
pub mod Watching
pub mod Tests
use amr_fleet_system.Prelude.{
  ℕ, ◌+◌, ℤ, pos, ◌+ℤ◌, ◌-ℤ◌, ltb_ℤ, leb_ℤ, min_ℤ, Bool, true, false, not, ◌&&◌, ◌||◌, ◌==◌, Option,
  none, some, List, [], ◌∷◌, length, if◌then◌else◌,
}
use amr_fleet_system.Prelude.Dict.{Dict, lookup, contains, insert, erase, keys}
use amr_fleet_system.Prelude.Sorting.{sorted_by}

-- `EDGE_REASONS`; another reason, which is refused, is none of these.
pub data Reason : Type 0 where
  token : Reason
  crossing : Reason
  block : Reason

-- `WaitForGraph`
abbrev pub Graph : Type 0
Graph = Dict (Dict Reason)

abbrev pub successors_in : ℕ → Graph → Dict Reason
successors_in node g = elim (lookup node g) [ none ↦ [] | some ds ↦ ds ]

unfoldable pub add_node : ℕ → Graph → Graph
add_node node g = if contains node g then g else insert node [] g

-- `setdefault(dst, reason)`
abbrev pub keep_first : ℕ → Reason → Dict Reason → Dict Reason
keep_first dst why ds = if contains dst ds then ds else insert dst why ds

unfoldable pub add_edge : ℕ → ℕ → Reason → Graph → Graph
unfolding add_node
add_edge src dst why g =
    let g' = add_node dst g in
    if src == dst then g' else insert src (keep_first dst why (successors_in src g')) g'

abbrev pub sorted_ids : List ℕ → List ℕ
sorted_ids ids = sorted_by (λ k. pos k ∷ []) ids

unfoldable pub nodes : Graph → List ℕ
nodes g = sorted_ids (keys g)

unfoldable pub successors : ℕ → Graph → List ℕ
successors node g = sorted_ids (keys (successors_in node g))

unfoldable pub reason : ℕ → ℕ → Graph → Option Reason
reason src dst g = lookup dst (successors_in src g)

-- `_Progress`
pub record Progress : Type 0 where
  pub goal : ℤ × ℤ
  pub anchor : ℤ
  pub anchor_time : ℤ
  pub best : ℤ
  pub stalled : Bool

pub record StallDetector : Type 0 where
  pub stall_time_s : ℤ
  pub progress_m : ℤ
  pub detour_reset_m : ℤ
  pub goal_tol_m : ℤ
  pub progress : Dict Progress

unfoldable pub reset : ℕ → StallDetector → StallDetector
reset robot s = record s { progress = erase robot s.progress }

-- The record of a robot that is watched from now on.
abbrev pub begin : ℤ → ℤ → ℤ × ℤ → Progress
begin now remaining goal = record {
  goal = goal;
  anchor = remaining;
  anchor_time = now;
  best = remaining;
  stalled = false;
}

-- A long detour starts anew, and progress moves the anchor.
abbrev pub anchored : StallDetector → ℤ → ℤ → Progress → Progress
anchored s now remaining p =
    if ltb_ℤ (p.best +ℤ s.detour_reset_m) remaining
    then record p { anchor = remaining; anchor_time = now; best = remaining }
    else if ltb_ℤ remaining (p.anchor -ℤ s.progress_m)
    then record p { anchor = remaining; anchor_time = now }
    else p

abbrev pub judged : StallDetector → ℤ → ℤ → Progress → Progress
judged s now remaining p = record p {
  best = min_ℤ p.best remaining;
  stalled = leb_ℤ s.stall_time_s (now -ℤ p.anchor_time);
}

-- The new record of a robot that has a way and a goal; `hypot` is the math library's.
unfoldable pub observed :
    (hypot : ℤ → ℤ → ℤ) → StallDetector → ℤ → ℤ → ℤ × ℤ → Option Progress → Progress
observed hypot s now remaining goal none = begin now remaining goal
observed hypot s now remaining goal (some p) =
    if ltb_ℤ s.goal_tol_m (hypot (goal.0 -ℤ p.goal.0) (goal.1 -ℤ p.goal.1))
    then begin now remaining goal
    else judged s now remaining (anchored s now remaining p)

unfoldable pub update :
    (hypot : ℤ → ℤ → ℤ)
    → ℕ
    → ℤ
    → Option ℤ
    → Option (ℤ × ℤ)
    → Bool
    → StallDetector
    → Bool × StallDetector
update hypot robot now none goal watch s = (false, record s { progress = erase robot s.progress })
update hypot robot now (some remaining) none watch s =
    (false, record s { progress = erase robot s.progress })
update hypot robot now (some remaining) (some goal) false s =
    (false, record s { progress = erase robot s.progress })
update hypot robot now (some remaining) (some goal) true s =
    let p = observed hypot s now remaining goal (lookup robot s.progress) in
    (p.stalled, record s { progress = insert robot p s.progress })

unfoldable pub stalled_for : ℕ → ℤ → StallDetector → ℤ
stalled_for robot now s = elim (lookup robot s.progress) [
  | none ↦ pos 0
  | some p ↦ now -ℤ p.anchor_time
]

unfoldable pub anchor_time_of : ℕ → StallDetector → Option ℤ
anchor_time_of robot s = elim (lookup robot s.progress) [
  | none ↦ none
  | some p ↦ some p.anchor_time
]
