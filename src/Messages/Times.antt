-- ===== src/Messages/Times.antt =====
-- Times in messages, and how near they come to what they stand for.
use amr_fleet_system.Prelude.{
  ℕ, ◌+◌, ◌*◌, ◌%◌, ◌≤◌, ◌<◌, ℤ, pos, negsuc, ◌≡◌, Option, none, some, arith,
}
use amr_fleet_system.Messages.{Time, second, max_time_sec, float_to_time, time_to_float}

abbrev FitsTime : Time → Type 0
FitsTime t = (t.sec ≤ max_time_sec) × (t.nanosec < 1000000000)

-- Whatever the number of seconds, the time fits its fields: at most 2 ^ 31 - 1 seconds, and fewer than a
-- billion nanoseconds.
pub float_to_time-Fits :
    (t : Option ℤ) → ((float_to_time t).sec ≤ 2147483647) × ((float_to_time t).nanosec < 1000000000)
unfolding float_to_time
float_to_time-Fits none = omega arith
float_to_time-Fits (some (negsuc t)) = omega arith
float_to_time-Fits (some (pos t)) = ground arith

-- A time of whole nanoseconds, later than 0 and before the last second that a message can hold.
abbrev pub IsStamp : ℕ → Type 0
IsStamp t = (0 < t) × (t < max_time_sec * second) × (t % 1000 ≡ 0)

pub stamp_back : (t : ℕ) → IsStamp t → time_to_float (float_to_time (some (pos t))) ≡ some (pos t)
unfolding float_to_time time_to_float
stamp_back t (positive, early, whole) = ground arith

-- A positive time before the last second is sent to the nearest nanosecond: what the message holds is at
-- most half a nanosecond off.
float_to_time_near :
    (t : ℕ)
    → 0 < t
    → t < max_time_sec * second
    → let m = float_to_time (some (pos t)) in
      (m.sec * second + m.nanosec * 1000 ≤ t + 500) × (t ≤ m.sec * second + m.nanosec * 1000 + 500)
unfolding float_to_time
float_to_time_near t positive early = ground arith

-- A message's time, read and sent again, is the same, if it has fewer than a billion nanoseconds and
-- is before the last second.
time_back :
    (m : Time) → m.nanosec < 1000000000 → m.sec < 2147483647 → float_to_time (time_to_float m) ≡ m
unfolding float_to_time time_to_float
time_back m small early = ground arith
