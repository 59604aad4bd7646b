-- ===== src/Resolution/Ways.antt =====
-- Where a step does not raise: no robot that drives has an empty way.
use amr_fleet_system.Prelude.{
  ℕ, ◌-ℤ◌, ltb_ℤ, any, Bool, true, false, not, ◌≡◌, refl, inl, inr, ◌⊎◌, ◌≢◌, Option, none, some,
  List, [], ◌∷◌, if_rule, Option-cases,
}
use amr_fleet_system.Prelude.Dict.{lookup, Entries, Entries-lookup}
use amr_fleet_system.Resolution.{
  Way, Strategy, unset, yield, alt_path, RobotView, Pocket, KeepoutMask, Geometry, Incident, victim,
  IncidentManager, ResolutionConfig, Cycle, Outcome, both, distance, points_but, meets_zones,
  clear_of, passed_on, passed, other_passed, others_passed, other_robots, drives, victim_passed,
  alt_done, way_ok, plan_ok, note_path, after_test, alt_judged, step_alt, yield_judged, by_strategy,
  step_one,
}
use amr_fleet_system.Resolution.Settling.{HasPlan, IsRunning}

-- The robot does not drive, or its way is not empty.
abbrev pub HasWay : RobotView → Type 0
HasWay v = (v.active ≡ false) ⊎ (v.path ≢ some [])

-- Every robot that the cycle sees.
abbrev pub HaveWays : Cycle → Type 0
HaveWays c = Entries (λ _ v. HasWay v) c.world.robots

-- The test does not raise.
abbrev IsTold {κ} : {A : Type κ} → Option A → Type κ
IsTold {A = A} o = (a : A) × (o ≡ some a)

both-IsTold : (a b : Option Bool) → IsTold a → IsTold b → IsTold (both a b)
both-IsTold none b (x, e) told = absurd cc
both-IsTold (some false) b h told = (false, refl)
both-IsTold (some true) b h told = told

after_test-IsTold :
    (test : Option Bool) (k : Bool → Outcome) → IsTold test → IsTold (after_test test k)
after_test-IsTold none k (b, e) = absurd cc
after_test-IsTold (some b) k h = (k b, refl)

module _ (c : Cycle) (cfg : ResolutionConfig) where
  clear_of-IsTold :
      (exclude : Option ℕ) (inc : Incident) (v : RobotView) (path : Way)
      → path ≢ []
      → IsTold (clear_of c cfg exclude inc v path)
  clear_of-IsTold exclude inc v [] way = absurd (way refl)
  clear_of-IsTold exclude inc v (p ∷ rest) way =
      let pts = points_but exclude inc.contested_points in
      if_rule IsTold (any (λ q. ltb_ℤ (distance c.geometry q v.xy) cfg.contested_radius_m) pts) _ _
        (λ e. (false, refl))
        (λ e.
          if_rule IsTold (meets_zones v.zones inc.contested_zones) _ _ (λ e'. (false, refl))
            (λ e'. (_, refl)))

  passed_on-IsTold :
      (exclude : Option ℕ) (inc : Incident) (v : RobotView) (path : Option Way)
      → (v.active ≡ false) ⊎ (path ≢ some [])
      → IsTold (passed_on c cfg exclude inc v path)
  passed_on-IsTold exclude inc v none way = (true, refl)
  passed_on-IsTold exclude inc v (some path) (inl still) = rw still (true, refl)
  passed_on-IsTold exclude inc v (some path) (inr way) =
      if_rule IsTold (not v.active) _ _ (λ e. (true, refl))
        (λ e. clear_of-IsTold exclude inc v path (λ empty. way (rw empty refl)))

  passed-IsTold :
      (exclude : Option ℕ) (inc : Incident) (v : RobotView)
      → HasWay v
      → IsTold (passed c cfg exclude inc v)
  unfolding passed
  passed-IsTold exclude inc v way = passed_on-IsTold exclude inc v v.path way

  other_passed-IsTold :
      (inc : Incident) (r : ℕ)
      → HaveWays c
      → IsTold (other_passed c cfg inc (lookup r c.world.robots))
  other_passed-IsTold inc r ways = elim (Option-cases (lookup r c.world.robots)) [
    | inl e ↦ rw e (true, refl)
    | inr (v, e) ↦
        let way = Entries-lookup (λ _ x. HasWay x) r v c.world.robots ways e in
        rw e (
          if_rule IsTold (not v.mobile) _ _ (λ e'. (true, refl))
            (λ e'. passed-IsTold none inc v way))
  ]

  others_passed-IsTold :
      (inc : Incident) (others : List ℕ) → HaveWays c → IsTold (others_passed c cfg inc others)
  unfolding others_passed
  others_passed-IsTold inc [] ways = (true, refl)
  others_passed-IsTold inc (r ∷ rest) ways =
      both-IsTold _ _ (other_passed-IsTold inc r ways) (others_passed-IsTold inc rest ways)

  victim_passed-IsTold :
      (inc : Incident) (r : ℕ)
      → HaveWays c
      → IsTold (victim_passed c cfg inc (lookup r c.world.robots))
  victim_passed-IsTold inc r ways = elim (Option-cases (lookup r c.world.robots)) [
    | inl e ↦ rw e (true, refl)
    | inr (v, e) ↦ rw e (
        passed-IsTold (some (victim inc)) inc v
          (Entries-lookup (λ _ x. HasWay x) r v c.world.robots ways e))
  ]

  alt_done-IsTold :
      (inc : Incident) (others : List ℕ) → HaveWays c → IsTold (alt_done c cfg inc others)
  alt_done-IsTold inc others ways =
      if_rule IsTold (any (λ r. drives (lookup r c.world.robots)) others) _ _
        (λ e. both-IsTold _ _ (others_passed-IsTold inc others ways) (_, refl))
        (λ e. victim_passed-IsTold inc (victim inc) ways)

way_ok-IsTold :
    (g : Geometry) (path : Option Way) (pocket : Option Pocket) (mask : Option KeepoutMask)
    → HasPlan alt_path pocket mask
    → path ≢ some []
    → IsTold (way_ok g path mask)
way_ok-IsTold g none pocket mask plan way = (true, refl)
way_ok-IsTold g (some path) none none plan way = absurd plan
way_ok-IsTold g (some []) none (some mask) plan way = absurd (way refl)
way_ok-IsTold g (some (p ∷ rest)) none (some mask) plan way = (_, refl)
way_ok-IsTold g (some path) (some p) mask plan way = absurd plan

plan_ok-IsTold :
    (c : Cycle) (r : ℕ) (pocket : Option Pocket) (mask : Option KeepoutMask)
    → HasPlan alt_path pocket mask
    → HaveWays c
    → IsTold (plan_ok c.geometry (lookup r c.world.robots) mask)
plan_ok-IsTold c r pocket mask plan ways = elim (Option-cases (lookup r c.world.robots)) [
  | inl e ↦ rw e (true, refl)
  | inr (v, e) ↦ rw e (elim (Entries-lookup (λ _ x. HasWay x) r v c.world.robots ways e) [
    | inl still ↦ rw still (true, refl)
    | inr way ↦
        if_rule IsTold v.active _ _ (λ e'. way_ok-IsTold c.geometry v.path pocket mask plan way)
          (λ e'. (true, refl))
  ])
]

step_alt-IsTold :
    (c : Cycle) (inc : Incident) (m : IncidentManager) (ok : Option Bool)
    → HaveWays c
    → IsTold ok
    → IsTold (step_alt c inc m ok)
step_alt-IsTold c inc m none ways (b, e) = absurd cc
step_alt-IsTold c inc m (some ok) ways told = after_test-IsTold _ (alt_judged c inc ok m) (
    both-IsTold (some ok) _ told
      (alt_done-IsTold c m.cfg inc (other_robots (victim inc) inc.robots) ways))

by_strategy-IsTold :
    (c : Cycle) (inc : Incident) (m : IncidentManager) (s : Strategy)
    → HasPlan s inc.pocket inc.mask
    → HaveWays c
    → IsTold (by_strategy c inc m s)
by_strategy-IsTold c inc m unset plan ways = absurd plan
by_strategy-IsTold c inc m yield plan ways = after_test-IsTold _ (yield_judged c inc m) (
    both-IsTold _ _ (others_passed-IsTold c m.cfg inc (other_robots (victim inc) inc.robots) ways)
      (_, refl))
by_strategy-IsTold c inc m alt_path plan ways =
    step_alt-IsTold c (note_path c.geometry (lookup (victim inc) c.world.robots) inc) m _ ways
      (plan_ok-IsTold c (victim inc) inc.pocket inc.mask plan ways)

-- A step of an incident that has a plan does not raise.
pub step_one-IsTold :
    (c : Cycle) (inc : Incident) (m : IncidentManager)
    → IsRunning inc
    → HaveWays c
    → (o : Outcome) × (step_one c inc m ≡ some o)
unfolding step_one
step_one-IsTold c inc m (plan, lt) ways =
    if_rule (λ r. (o : Outcome) × (r ≡ some o))
      (ltb_ℤ m.cfg.deadlock_max_s (c.now -ℤ inc.detected_at)) _ _ (λ late. (_, refl))
      (λ t. by_strategy-IsTold c inc m inc.strategy plan ways)
