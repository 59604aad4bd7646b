-- ===== src/Messages/Tests.antt =====
-- Messages at concrete inputs, and the theorems there.
use amr_fleet_system.Prelude.{
  ℕ, ◌+◌, ◌-◌, ◌*◌, ◌≤◌, ◌<◌, ℤ, pos, negsuc, ◌≡◌, refl, inr, none, some, arith,
}
use amr_fleet_system.Task.{ItemType, small, medium, pending, Pose2D, TaskSpec}
use amr_fleet_system.Messages.{
  Trig, Time, float_to_time, time_to_float, yaw_to_quaternion, quaternion_to_yaw, pose_to_msg,
  pose_from_msg, spec_to_msg, spec_from_msg,
}
use amr_fleet_system.Messages.Times.{float_to_time-Fits}
use amr_fleet_system.Messages.RoundTrip.{IsSendable, received, spec_back}

program : Unit {0}
unfolding float_to_time time_to_float yaw_to_quaternion quaternion_to_yaw pose_to_msg pose_from_msg
    spec_to_msg spec_from_msg
program = tt

-- 1.9999999996 s: the nanoseconds carry over.
float_to_time-carry : float_to_time (some (pos 1999999999600)) ≡ record { sec = 2; nanosec = 0 }
unfolding program
float_to_time-carry = refl

-- 0.0000000025 s: a half goes to the even nanosecond.
float_to_time-half : float_to_time (some (pos 2500)) ≡ record { sec = 0; nanosec = 2 }
unfolding program
float_to_time-half = refl

float_to_time-late :
    float_to_time (some (pos 3000000000000000000000))
    ≡ record { sec = 2147483647; nanosec = 999999999 }
unfolding program
float_to_time-late = refl

float_to_time-Fits_example :
    ((float_to_time (some (pos 3000000000000000000000))).sec ≤ 2147483647)
    × ((float_to_time (some (pos 3000000000000000000000))).nanosec < 1000000000)
float_to_time-Fits_example = float_to_time-Fits (some (pos 3000000000000000000000))

abbrev noon : Time
noon = record { sec = 43200; nanosec = 250 }

-- Whole numbers, and only the angle 0.
abbrev straight : Trig ℕ
straight = record {
  sin_half = λ a. 0;
  cos_half = λ a. 1;
  nought = 0;
  one = 1;
  two = 2;
  add = λ a b. a + b;
  sub = λ a b. a - b;
  mul = λ a b. a * b;
  atan2 = λ a b. pos 0;
}

abbrev dock : Pose2D
dock = record { x = pos 3; y = negsuc 1; yaw = pos 0; frame_id = "map" }

abbrev box : TaskSpec
box = record {
  task_id = 4;
  pickup = dock;
  dropoff = record dock { x = pos 9 };
  item_type = medium;
  item_mass = pos 10;
  priority = pos 200;
  deadline = some (pos 90000000002000);
  robot_id = 2;
  created = pos 30000000001000;
  status = pending;
}

-- A mass that is missing comes from the table, and an id that is missing from the factory.
abbrev masses : ItemType → ℤ
masses small = pos 2
masses _ = pos 25

spec_from_msg-table :
    spec_from_msg straight
      (spec_to_msg straight
        (record box { task_id = 0; item_mass = pos 0; priority = pos 300 })
        none)
      (pos 7)
      66
      masses
    ≡ record box { task_id = 66; item_mass = pos 25; priority = pos 255 }
unfolding program
spec_from_msg-table = refl

box-IsSendable : IsSendable box
unfolding program
box-IsSendable = record {
  named = omega arith;
  heavy = omega arith;
  priority = (200, refl, omega arith);
  created = (30000000001000, refl, omega arith);
  deadline = inr (90000000002000, refl, omega arith);
  pickup_frame = refl;
  dropoff_frame = refl;
}

spec_back_example :
    spec_from_msg straight (spec_to_msg straight box none) (pos 7) 66 masses ≡ received straight box
spec_back_example = spec_back straight box (pos 7) 66 masses box-IsSendable
