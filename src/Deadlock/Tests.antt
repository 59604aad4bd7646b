-- ===== src/Deadlock/Tests.antt =====
-- A wait-for graph and a robot that makes no progress, and the theorems there.
use amr_fleet_system.Prelude.{
  ℕ, ℤ, pos, ◌+ℤ◌, ◌-ℤ◌, ◌≡◌, refl, true, false, none, some, List, [], ◌∷◌,
}
use amr_fleet_system.Prelude.Sorting.{sorted_by, insert_sorted}
use amr_fleet_system.Deadlock.{
  token, block, crossing, add_node, add_edge, nodes, successors, reason, StallDetector, observed,
  update, reset, stalled_for, anchor_time_of,
}
use amr_fleet_system.Deadlock.Confirmer
use amr_fleet_system.Deadlock.Confirmer.{
  new_confirmer, set_insert, sorted_set, forget_gone, confirm_each,
}
use amr_fleet_system.Deadlock.Confirming.{Cycles, times, confirmed_at, first_due, confirmed_once}
use amr_fleet_system.Deadlock.Cycles.{Adjacency, children, walk, find_cycle}
use amr_fleet_system.Deadlock.SimpleCycle.{IsAnswer, find_cycle-IsAnswer}
use amr_fleet_system.Deadlock.Waiting.{Addition, node, edge, build}
use amr_fleet_system.Deadlock.Watching.{Call, updated, was_reset}

program : Unit {0}
unfolding add_node add_edge nodes successors reason observed update reset stalled_for anchor_time_of
    sorted_by insert_sorted ◌+ℤ◌ ◌-ℤ◌
program = tt

abbrev additions : List Addition
additions =
    edge 3 1 token
    ∷ edge 1 2 crossing
    ∷ edge 2 2 block
    ∷ edge 3 1 block
    ∷ node 5
    ∷ edge 3 2 block
    ∷ []

nodes-additions : nodes (build additions []) ≡ 1 ∷ 2 ∷ 3 ∷ 5 ∷ []
unfolding program
nodes-additions = refl

successors-additions : successors 3 (build additions []) ≡ 1 ∷ 2 ∷ []
unfolding program
successors-additions = refl

reason-first : reason 3 1 (build additions []) ≡ some token
unfolding program
reason-first = refl

abbrev far : ℤ → ℤ → ℤ
far a b = pos 0

abbrev goal : ℤ × ℤ
goal = (pos 9, pos 9)

abbrev watched : StallDetector
watched = record {
  stall_time_s = pos 15;
  progress_m = pos 1;
  detour_reset_m = pos 4;
  goal_tol_m = pos 1;
  progress = [];
}

-- Watched from 0 with 10 to go, and at 20 still with 10.
abbrev later : StallDetector
later = (update far 7 (pos 0) (some (pos 10)) (some goal) true watched).1

update-later : (update far 7 (pos 20) (some (pos 10)) (some goal) true later).0 ≡ true
unfolding program
update-later = refl

stalled_for-later : stalled_for 7 (pos 20) later ≡ pos 20
unfolding program
stalled_for-later = refl

anchor_time_of-reset : anchor_time_of 7 (reset 7 later) ≡ none
unfolding program
anchor_time_of-reset = refl

-- A reset, then a watched call at 0 with 10 to go, and one about another robot.
abbrev history : List Call
history =
    updated 8 (pos 5) none none false
    ∷ updated 7 (pos 0) (some (pos 10)) (some goal) true
    ∷ was_reset 7
    ∷ []

-- Set 4 is there in four cycles, set 9 in two of them that are not next to each other.
abbrev cycles : Cycles
cycles = (pos 11, 4 ∷ []) ∷ (pos 12, 9 ∷ 4 ∷ 4 ∷ []) ∷ (pos 13, 4 ∷ []) ∷ []

abbrev seen_cycles : Cycles
seen_cycles = (pos 10, 9 ∷ 4 ∷ []) ∷ cycles

confirmer_program : Unit {0}
unfolding Confirmer.update Confirmer.pending set_insert sorted_set forget_gone confirm_each ◌+ℤ◌
    ◌-ℤ◌
confirmer_program = tt

confirmed_at-cycles : confirmed_at 4 seen_cycles (new_confirmer (pos 2)) ≡ pos 12 ∷ []
unfolding confirmer_program
confirmed_at-cycles = refl

-- Set 9 was forgotten in between.
confirmed_at-broken : confirmed_at 9 seen_cycles (new_confirmer (pos 2)) ≡ []
unfolding confirmer_program
confirmed_at-broken = refl

pending-cycles :
    Confirmer.pending (pos 11) (Confirmer.update (pos 10) (9 ∷ 4 ∷ []) (new_confirmer (pos 2))).1
    ≡ (4, pos 1) ∷ (9, pos 1) ∷ []
unfolding confirmer_program
pending-cycles = refl

confirmed_once_example :
    confirmed_at 4 seen_cycles (new_confirmer (pos 2))
    ≡ first_due (pos 2) (pos 10) (pos 10 ∷ times cycles)
unfolding confirmer_program
confirmed_once_example =
    confirmed_once 4 (pos 10) (9 ∷ 4 ∷ []) cycles (new_confirmer (pos 2)) refl refl
      (refl, (refl, (refl, (refl, tt))))

-- 1 leads to 2 and 5, 2 to 3, 3 to 1 and 2, and 5 out of the component.
abbrev adjacency : Adjacency
adjacency = (1, 5 ∷ 2 ∷ []) ∷ (2, 3 ∷ []) ∷ (3, 2 ∷ 1 ∷ []) ∷ (5, 7 ∷ []) ∷ []

cycle_program : Unit {0}
unfolding children walk find_cycle sorted_set set_insert sorted_by insert_sorted
cycle_program = tt

find_cycle-adjacency : find_cycle adjacency (3 ∷ 5 ∷ 1 ∷ 2 ∷ []) ≡ some (1 ∷ 2 ∷ 3 ∷ [])
unfolding cycle_program
find_cycle-adjacency = refl

find_cycle-none : find_cycle adjacency (5 ∷ 2 ∷ []) ≡ some []
unfolding cycle_program
find_cycle-none = refl

find_cycle-IsAnswer_example :
    (c : List ℕ) × (find_cycle adjacency (3 ∷ 5 ∷ 1 ∷ 2 ∷ []) ≡ some c)
    × IsAnswer adjacency (sorted_set (3 ∷ 5 ∷ 1 ∷ 2 ∷ [])) c
find_cycle-IsAnswer_example = find_cycle-IsAnswer adjacency (3 ∷ 5 ∷ 1 ∷ 2 ∷ [])
