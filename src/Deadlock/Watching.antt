-- ===== src/Deadlock/Watching.antt =====
-- A history of calls on `StallDetector`, and the time for which a reported robot was watched.
use amr_fleet_system.Prelude.{ℕ, ℤ, Bool, true, ◌≡◌, ◌≢◌, ◌⊎◌, Option, some, List, [], ◌∷◌}
use amr_fleet_system.Prelude.Dict.{lookup, IsUnique}
use amr_fleet_system.Deadlock.{Progress, StallDetector, update, reset}

-- One call with its arguments.
pub data Call : Type 0 where
  updated :
      (robot : ℕ) (now : ℤ) (remaining : Option ℤ) (goal : Option (ℤ × ℤ)) (watch : Bool) → Call
  was_reset : (robot : ℕ) → Call

abbrev pub perform : (ℤ → ℤ → ℤ) → Call → StallDetector → StallDetector
perform hypot (updated robot now remaining goal watch) s =
    (update hypot robot now remaining goal watch s).1
perform hypot (was_reset robot) s = reset robot s

-- The detector after a history, whose latest call stands first.
abbrev pub run : (ℤ → ℤ → ℤ) → List Call → StallDetector → StallDetector
run hypot [] s = s
run hypot (c ∷ earlier) s = perform hypot c (run hypot earlier s)

-- The call is about another robot.
abbrev pub IsOther : ℕ → Call → Type 0
IsOther k (updated robot now remaining goal watch) = robot ≢ k
IsOther k (was_reset robot) = robot ≢ k

-- The call watches the robot, which has a way and a goal, at the time.
abbrev pub WatchesAt : ℕ → ℤ → Call → Type 0
WatchesAt k t (updated robot now (some left) (some goal) true) = (robot ≡ k) × (now ≡ t)
WatchesAt k t _ = ⊥

-- There is a call that watches the robot at the time, and every later call about the robot watches it too.
abbrev pub WatchedSince : ℕ → ℤ → List Call → Type 0
WatchedSince k t [] = ⊥
WatchedSince k t (c ∷ earlier) =
    WatchesAt k t c ⊎ ((IsOther k c ⊎ ((now : ℤ) × WatchesAt k now c)) × WatchedSince k t earlier)

-- Every robot that is recorded was watched since its last progress.
record IsWatched (history : List Call) (s : StallDetector) : Type 0 where
  unique : IsUnique s.progress
  since :
      (k : ℕ) (p : Progress) → lookup k s.progress ≡ some p → WatchedSince k p.anchor_time history
