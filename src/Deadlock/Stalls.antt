-- ===== src/Deadlock/Stalls.antt =====
-- When `StallDetector` reports a robot.
use amr_fleet_system.Prelude.{
  ℕ, ℤ, pos, ◌+ℤ◌, ◌-ℤ◌, ◌≤ℤ◌, ◌<ℤ◌, ltb_ℤ, -ℤ_parts, Bool, true, false, ◌≡◌, refl, ◌≢◌, inl, inr,
  Option, none, some, arith, Bool-cases,
}
use amr_fleet_system.Prelude.Dict.{lookup}
use amr_fleet_system.Deadlock.{Progress, StallDetector, anchored, judged, observed, update}

-- The robot was watched before, its anchor is old, and it neither got nearer than the anchor less the
-- progress nor took a long detour.
abbrev pub IsStalled : StallDetector → ℤ → ℤ → Progress → Type 0
IsStalled s now remaining p =
    (s.stall_time_s ≤ℤ now -ℤ p.anchor_time)
    × (p.anchor -ℤ s.progress_m ≤ℤ remaining)
    × (remaining ≤ℤ p.best +ℤ s.detour_reset_m)

judged-IsStalled :
    (s : StallDetector) (now remaining : ℤ) (p : Progress)
    → pos 0 <ℤ s.stall_time_s
    → (judged s now remaining (anchored s now remaining p)).stalled ≡ true
    → IsStalled s now remaining p
judged-IsStalled s now remaining p positive h =
    ground (arith, -ℤ_parts now now, -ℤ_parts now p.anchor_time)

impossible : false ≢ true
impossible e = cc

observed-IsStalled :
    (hypot : ℤ → ℤ → ℤ) (s : StallDetector) (now remaining : ℤ) (goal : ℤ × ℤ) (o : Option Progress)
    → pos 0 <ℤ s.stall_time_s
    → (observed hypot s now remaining goal o).stalled ≡ true
    → (p : Progress) × (o ≡ some p) × IsStalled s now remaining p
unfolding observed
observed-IsStalled hypot s now remaining goal none positive h = cc
observed-IsStalled hypot s now remaining goal (some p) positive h =
    elim (Bool-cases (ltb_ℤ s.goal_tol_m (hypot (goal.0 -ℤ p.goal.0) (goal.1 -ℤ p.goal.1)))) [
      | inl other_goal ↦ absurd (impossible (rw other_goal at h))
      | inr same_goal ↦ (p, refl, judged-IsStalled s now remaining p positive (rw same_goal at h))
    ]

-- With a positive stall time, `update` reports a robot as stalled only if it has a way and a goal and is
-- to be watched, and if it was watched before: then the last progress is at least the stall time ago,
-- and the way that is left is neither shorter than at that progress by more than `progress_m` nor longer than
-- the least one by more than `detour_reset_m`.
pub update_judged :
    (hypot : ℤ → ℤ → ℤ) (robot : ℕ) (now : ℤ) (remaining : Option ℤ) (goal : Option (ℤ × ℤ))
    (watch : Bool) (s : StallDetector)
    → pos 0 <ℤ s.stall_time_s
    → (update hypot robot now remaining goal watch s).0 ≡ true
    → (left : ℤ) × (p : Progress) × (remaining ≡ some left)
      × (goal ≢ none)
      × (watch ≡ true)
      × (lookup robot s.progress ≡ some p)
      × IsStalled s now left p
unfolding update
update_judged hypot robot now none goal watch s positive h = absurd (impossible h)
update_judged hypot robot now (some left) none watch s positive h = absurd (impossible h)
update_judged hypot robot now (some left) (some goal) false s positive h = absurd (impossible h)
update_judged hypot robot now (some left) (some goal) true s positive h =
    let (p, watched, stalled) =
      observed-IsStalled hypot s now left goal (lookup robot s.progress) positive h in
    (left, p, refl, (λ e. cc), refl, watched, stalled)
