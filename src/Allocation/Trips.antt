-- ===== src/Allocation/Trips.antt =====
-- What the metrics of `evaluate_assignment` say of a round.
use amr_fleet_system.Prelude.{
  ℕ, ℤ, pos, ◌+ℤ◌, ◌-ℤ◌, ◌≤ℤ◌, +ℤ_parts, ◌≡◌, inl, inr, some, List, [], ◌∷◌, length, arith,
  Option-cases,
}
use amr_fleet_system.Prelude.Dict.{Dict, lookup}
use amr_fleet_system.Task.{TaskSpec}
use amr_fleet_system.Allocation.{
  RobotInfo, approach_distance, delivery_distance, Sums, add_trip, add_trips, Metrics,
  evaluate_assignment, tasks_by_id, by_id,
}

-- The running sums of a round: the approach is a part of the whole way.
abbrev IsOrdered : Sums → Type 0
IsOrdered s = (pos 0 ≤ℤ s.approach) × (s.approach ≤ℤ s.total)

module _ (hypot divide : ℤ → ℤ → ℤ) (speed : ℤ) (nonneg : (a b : ℤ) → pos 0 ≤ℤ hypot a b) where
  add_trip-IsOrdered :
      (t : TaskSpec) (r : RobotInfo) (s s' : Sums)
      → add_trip hypot divide speed t r s ≡ some s'
      → IsOrdered s
      → IsOrdered s'
  add_trip-IsOrdered t r s s' e h =
      let a = approach_distance hypot r t in
      let d = delivery_distance hypot t in
      ground (
        arith,
        nonneg (t.pickup.x -ℤ r.x) (t.pickup.y -ℤ r.y),
        nonneg (t.dropoff.x -ℤ t.pickup.x) (t.dropoff.y -ℤ t.pickup.y),
        +ℤ_parts a d,
        +ℤ_parts s.total (a +ℤ d),
        +ℤ_parts s.approach a,
      )

  add_trips-IsOrdered :
      (tasks : Dict TaskSpec) (robots : Dict RobotInfo) (out : Dict ℕ) (s s' : Sums)
      → add_trips hypot divide speed tasks robots out s ≡ some s'
      → IsOrdered s
      → IsOrdered s'
  unfolding add_trips
  add_trips-IsOrdered tasks robots [] s s' e h = ground arith
  add_trips-IsOrdered tasks robots ((task, robot) ∷ rest) s s' e h =
      elim (Option-cases (lookup task tasks)) [
        | inl absent ↦ ground arith
        | inr (t, found_t) ↦ elim (Option-cases (lookup robot robots)) [
          | inl absent ↦ ground arith
          | inr (r, found_r) ↦ elim (Option-cases (add_trip hypot divide speed t r s)) [
            | inl refused ↦ ground arith
            | inr (mid, step) ↦
                add_trips-IsOrdered tasks robots rest mid s' (ground arith)
                  (add_trip-IsOrdered t r s mid step h)
          ]
        ]
      ]

-- With distances that are never negative: when the metrics of a round come out, the approach is not
-- negative and a part of the whole way, and the assignments are counted.
evaluate_assignment_bounds :
    (hypot divide : ℤ → ℤ → ℤ) (speed : ℤ) (assignments : Dict ℕ) (tasks : List TaskSpec)
    (robots : List RobotInfo) (m : Metrics)
    → ((a b : ℤ) → pos 0 ≤ℤ hypot a b)
    → evaluate_assignment hypot divide speed assignments tasks robots ≡ some m
    → (pos 0 ≤ℤ m.approach_distance_m)
      × (m.approach_distance_m ≤ℤ m.total_travel_distance_m)
      × (m.n_assigned ≡ length assignments)
unfolding evaluate_assignment
evaluate_assignment_bounds hypot divide speed assignments tasks robots m nonneg e =
    let zero : Sums = record { total = pos 0; approach = pos 0; per_robot = [] } in
    elim (Option-cases
      (add_trips hypot divide speed (tasks_by_id tasks []) (by_id robots []) assignments zero)) [
        | inl refused ↦ ground arith
        | inr (s, done) ↦ ground (
          arith,
          add_trips-IsOrdered hypot divide speed nonneg (tasks_by_id tasks []) (by_id robots [])
              assignments zero s done (omega arith),
        )
      ]
