-- ===== src/Messages/RoundTrip.antt =====
-- A description that is sent and received again.
use amr_fleet_system.Prelude.{
  ℕ, ◌≤◌, ℤ, pos, ◌<ℤ◌, false, ◌≡◌, ◌≢◌, ◌⊎◌, refl, inl, inr, Option, none, some, str_eq, arith,
}
use amr_fleet_system.Task.{ItemType, Pose2D, TaskSpec}
use amr_fleet_system.Messages.{
  Trig, Time, or_now, clamped, float_to_time, time_to_float, yaw_to_quaternion, quaternion_to_yaw,
  pose_to_msg, pose_from_msg, spec_to_msg, spec_from_msg,
}
use amr_fleet_system.Messages.Times.{IsStamp, stamp_back}

-- A deadline that a message can hold, or none.
abbrev pub IsDeadline : Option ℤ → Type 0
IsDeadline d = (d ≡ none) ⊎ ((t : ℕ) × (d ≡ some (pos t)) × IsStamp t)

-- What a message can hold.
pub record IsSendable (spec : TaskSpec) : Type 0 where
  pub named : spec.task_id ≢ 0
  pub heavy : pos 0 <ℤ spec.item_mass
  pub priority : (n : ℕ) × (spec.priority ≡ pos n) × (n ≤ 255)
  pub created : (t : ℕ) × (spec.created ≡ pos t) × IsStamp t
  pub deadline : IsDeadline spec.deadline
  pub pickup_frame : str_eq spec.pickup.frame_id "" ≡ false
  pub dropoff_frame : str_eq spec.dropoff.frame_id "" ≡ false

-- The pose with the orientation that comes back from its quaternion.
abbrev pub turned : {C : Type 0} → Trig C → Pose2D → Pose2D
turned m pose = record pose { yaw = quaternion_to_yaw m (yaw_to_quaternion m pose.yaw) }

-- The description with the orientations that come back.
abbrev pub received : {C : Type 0} → Trig C → TaskSpec → TaskSpec
received m spec = record spec { pickup = turned m spec.pickup; dropoff = turned m spec.dropoff }

clamped-pos : (n : ℕ) → n ≤ 255 → clamped (pos n) ≡ n
clamped-pos n small = ground arith

priority_back : (p : ℤ) → (n : ℕ) × (p ≡ pos n) × (n ≤ 255) → pos (clamped p) ≡ p
priority_back p (n, e, small) = ground (arith, clamped-pos n small)

created_back :
    (c now : ℤ)
    → (t : ℕ) × (c ≡ pos t) × IsStamp t
    → or_now (time_to_float (float_to_time (some c))) now ≡ c
created_back c now (t, e, fits) = cc (e, stamp_back t fits)

no_time_back : time_to_float (float_to_time none) ≡ none
unfolding float_to_time time_to_float
no_time_back = refl

deadline_back : (d : Option ℤ) → IsDeadline d → time_to_float (float_to_time d) ≡ d
deadline_back d (inl e) = cc (e, no_time_back)
deadline_back d (inr (t, e, fits)) = cc (e, stamp_back t fits)

module _ {C : Type 0} (m : Trig C) where
  pose_back :
      (pose : Pose2D) (s : Option Time)
      → str_eq pose.frame_id "" ≡ false
      → pose_from_msg m (pose_to_msg m pose s) ≡ turned m pose
  unfolding pose_to_msg pose_from_msg
  pose_back pose s frame = ground arith

  -- A description that a message can hold comes back with every field but the two orientations as it was:
  -- with an id, a positive mass, a priority from 0 to 255, times of whole nanoseconds in the range, and
  -- named frames. The orientations are those that the conversions to a quaternion and back give. The
  -- receiver's clock, ids and table of masses do not matter.
  pub spec_back :
      (spec : TaskSpec) (now : ℤ) (new_id : ℕ) (masses : ItemType → ℤ)
      → IsSendable spec
      → spec_from_msg m (spec_to_msg m spec none) now new_id masses ≡ received m spec
  unfolding spec_to_msg spec_from_msg
  spec_back spec now new_id masses h = ground (
    arith,
    h,
    priority_back spec.priority h.priority,
    created_back spec.created now h.created,
    deadline_back spec.deadline h.deadline,
    pose_back spec.pickup (some (float_to_time (some spec.created))) h.pickup_frame,
    pose_back spec.dropoff (some (float_to_time (some spec.created))) h.dropoff_frame,
  )
