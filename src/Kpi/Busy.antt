-- ===== src/Kpi/Busy.antt =====
-- The busy times of the robots, and the utilization.
use amr_fleet_system.Prelude.{
  ℕ, ℤ, pos, ◌+ℤ◌, ◌-ℤ◌, ◌≤ℤ◌, ◌<ℤ◌, ltb_ℤ, max_ℤ, +ℤ_parts, -ℤ_parts, ◌≡◌, refl, inl, inr, Bool,
  Option, none, some, List, [], ◌∷◌, arith, Bool-cases,
}
use amr_fleet_system.Prelude.Dict.{Dict, lookup, values, Entries, Entries-insert, Entries-lookup}
use amr_fleet_system.Kpi.{
  Mode, Observed, KpiTracker, fresh, observe, busy_until, busy_total, observed_total,
  robot_utilization, record_completion, record_failure, record_deadlock, update_robot, throughput,
  Event, completion, failure, deadlocks, robot_state, query, apply, run,
}

-- The times of an observation are in order, and the busy time fits in between.
abbrev Fits : ℤ → Observed → Type 0
Fits now o =
    (o.first ≤ℤ o.last) × (o.last ≤ℤ now) × (pos 0 ≤ℤ o.busy) × (o.first +ℤ o.busy ≤ℤ o.last)

abbrev AllFit : ℤ → Dict Observed → Type 0
AllFit now d = Entries (λ r o. Fits now o) d

-- The robots are observed up to `now`.
abbrev pub Before : ℤ → Event → Type 0
Before now (completion t duration) = Unit
Before now (failure t) = Unit
Before now (deadlocks n) = Unit
Before now (robot_state robot status t has_task) = t ≤ℤ now
Before now (query t) = Unit

abbrev pub AllBefore : ℤ → List Event → Type 0
AllBefore now [] = Unit
AllBefore now (e ∷ es) = Before now e × AllBefore now es

busy_until-Fits :
    (now t : ℤ) (o : Observed)
    → Fits now o
    → (pos 0 ≤ℤ busy_until t o) × (o.first +ℤ busy_until t o ≤ℤ max_ℤ o.last t)
busy_until-Fits now t o h = ground (
  arith,
  -ℤ_parts t o.last,
  +ℤ_parts o.busy (t -ℤ o.last),
  +ℤ_parts o.first o.busy,
  +ℤ_parts o.first (o.busy +ℤ (t -ℤ o.last)),
)

observe-Fits :
    (now t : ℤ) (b : Bool) (o : Option Observed)
    → t ≤ℤ now
    → ((x : Observed) → o ≡ some x → Fits now x)
    → Fits now (observe t b o)
observe-Fits now t b none le h = (omega arith, le, omega arith, omega (arith, +ℤ_parts t (pos 0)))
observe-Fits now t b (some o) le h =
    let (first, last, busy, fits) = h o refl in
    let (pos_busy, fits') = busy_until-Fits now t o (first, last, busy, fits) in
    (ground arith, ground arith, pos_busy, fits')

apply-AllFit :
    (now : ℤ) (e : Event) (k : KpiTracker)
    → Before now e
    → AllFit now k.robots
    → AllFit now (apply e k).robots
unfolding record_completion record_failure record_deadlock update_robot throughput
apply-AllFit now (completion t duration) k b h = h
apply-AllFit now (failure t) k b h = h
apply-AllFit now (deadlocks n) k b h = h
apply-AllFit now (robot_state robot status t has_task) k b h =
    Entries-insert (λ r o. Fits now o) robot _ k.robots h
      (observe-Fits now t _ (lookup robot k.robots) b
        (λ x found. Entries-lookup (λ r o. Fits now o) robot x k.robots h found))
apply-AllFit now (query t) k b h = h

run-AllFit :
    (now : ℤ) (es : List Event) (k : KpiTracker)
    → AllBefore now es
    → AllFit now k.robots
    → AllFit now (run es k).robots
run-AllFit now [] k b h = h
run-AllFit now (e ∷ es) k b h = run-AllFit now es (apply e k) b.1 (apply-AllFit now e k b.0 h)

totals :
    (now : ℤ) (d : Dict Observed)
    → AllFit now d
    → (pos 0 ≤ℤ busy_total now (values d))
      × (busy_total now (values d) ≤ℤ observed_total now (values d))
totals now [] h = (omega arith, omega arith)
totals now ((k, o) ∷ d) h =
    let (busy, fits) = busy_until-Fits now now o h.0 in
    let (rest, under) = totals now d h.1 in
    ground (
      arith,
      +ℤ_parts (busy_until now o) (busy_total now (values d)),
      +ℤ_parts (max_ℤ (pos 0) (now -ℤ o.first)) (observed_total now (values d)),
      -ℤ_parts now o.first,
      +ℤ_parts o.first (busy_until now o),
    )

-- The utilization of the robots is a share: after any events on a new tracker, with no robot state later
-- than `now`, its amount is not negative and not above what it is divided by, which is positive.
pub robot_utilization-bounds :
    (window min_window : ℤ) (statuses : List ℕ) (mode : Mode) (es : List Event) (now : ℤ)
    → AllBefore now es
    → let r = robot_utilization now (run es (fresh window min_window statuses mode)) in
      (pos 0 ≤ℤ r.amount) × (r.amount ≤ℤ r.per) × (pos 0 <ℤ r.per)
unfolding robot_utilization
robot_utilization-bounds window min_window statuses mode es now b =
    let k = run es (fresh window min_window statuses mode) in
    let (lo, hi) =
      totals now k.robots (run-AllFit now es (fresh window min_window statuses mode) b tt) in
    elim (Bool-cases (ltb_ℤ (pos 0) (observed_total now (values k.robots)))) [
      | inl some_time ↦ rw some_time (lo, hi, ground arith)
      | inr no_time ↦ rw no_time (omega arith, omega arith, omega arith)
    ]
