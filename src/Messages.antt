-- ===== src/Messages.antt =====
-- src/amr_fleet/amr_fleet/task_msg.py: task descriptions as messages, and back. Times are picoseconds here;
-- infinite ones and NaN are left out. The numbers of an orientation and their functions are a parameter.
pub mod Times
pub mod RoundTrip
pub mod Tests
use amr_fleet_system.Prelude.{
  ℕ, ◌+◌, ◌-◌, ◌*◌, ◌/◌, ◌%◌, ltb, leb, ◌==◌, ℤ, pos, negsuc, ltb_ℤ, Bool, true, false, ◌&&◌,
  Option, none, some, String, str_eq, if◌then◌else◌,
}
use amr_fleet_system.Task.{Status, ItemType, Pose2D, TaskSpec}

-- `builtin_interfaces/Time`
pub record Time : Type 0 where
  pub sec : ℕ
  pub nanosec : ℕ

abbrev pub second : ℕ
second = 1000000000000

abbrev pub max_time_sec : ℕ
max_time_sec = 2147483647

abbrev pub no_time : Time
no_time = record { sec = 0; nanosec = 0 }

-- `round` of a number of picoseconds to nanoseconds, a half to the even one
abbrev pub rounded : ℕ → ℕ
rounded p =
    let q = p / 1000 in
    let r = p % 1000 in
    if ltb r 500 then q else if ltb 500 r then q + 1 else if q % 2 == 0 then q else q + 1

abbrev pub carried : ℕ → ℕ → Time
carried sec nanosec =
    if leb 1000000000 nanosec
    then record { sec = sec + 1; nanosec = nanosec - 1000000000 }
    else record { sec = sec; nanosec = nanosec }

abbrev pub positive_to_time : ℕ → Time
positive_to_time t =
    if leb (max_time_sec * second) t
    then record { sec = max_time_sec; nanosec = 999999999 }
    else carried (t / second) (rounded (t % second))

unfoldable pub float_to_time : Option ℤ → Time
float_to_time none = no_time
float_to_time (some (negsuc t)) = no_time
float_to_time (some (pos t)) = if t == 0 then no_time else positive_to_time t

unfoldable pub time_to_float : Time → Option ℤ
time_to_float t =
    if t.sec == 0 && t.nanosec == 0 then none else some (pos (t.sec * second + t.nanosec * 1000))

-- Floating-point numbers and the math library: `sin_half` is the sine of half an angle.
pub record Trig (C : Type 0) : Type 0 where
  pub sin_half : ℤ → C
  pub cos_half : ℤ → C
  pub nought : C
  pub one : C
  pub two : C
  pub add : C → C → C
  pub sub : C → C → C
  pub mul : C → C → C
  pub atan2 : C → C → ℤ

pub record Quaternion (C : Type 0) : Type 0 where
  pub x : C
  pub y : C
  pub z : C
  pub w : C

-- `geometry_msgs/PoseStamped`, in a plane
pub record PoseStamped (C : Type 0) : Type 0 where
  pub frame_id : String
  pub stamp : Time
  pub x : ℤ
  pub y : ℤ
  pub orientation : Quaternion C

-- `amr_msgs/Task`
pub record TaskMsg (C : Type 0) : Type 0 where
  pub stamp : Time
  pub frame_id : String
  pub task_id : ℕ
  pub robot_id : ℕ
  pub priority : ℕ
  pub deadline : Time
  pub pickup_pose : PoseStamped C
  pub dropoff_pose : PoseStamped C
  pub item_type : ItemType
  pub item_mass : ℤ
  pub status : Status

-- `max(0, min(255, priority))`
abbrev pub clamped : ℤ → ℕ
clamped (pos n) = if ltb 255 n then 255 else n
clamped (negsuc n) = 0

abbrev pub or_stamp : Option Time → Time → Time
or_stamp none t = t
or_stamp (some s) t = s

abbrev pub or_map : String → String
or_map frame = if str_eq frame "" then "map" else frame

abbrev pub or_now : Option ℤ → ℤ → ℤ
or_now none now = now
or_now (some t) now = t

module _ {C : Type 0} (m : Trig C) where
  unfoldable pub yaw_to_quaternion : ℤ → Quaternion C
  yaw_to_quaternion yaw = record {
    x = m.nought;
    y = m.nought;
    z = m.sin_half yaw;
    w = m.cos_half yaw;
  }

  unfoldable pub quaternion_to_yaw : Quaternion C → ℤ
  quaternion_to_yaw q =
      m.atan2 (m.mul m.two (m.add (m.mul q.w q.z) (m.mul q.x q.y)))
        (m.sub m.one (m.mul m.two (m.add (m.mul q.y q.y) (m.mul q.z q.z))))

  unfoldable pub pose_to_msg : Pose2D → Option Time → PoseStamped C
  pose_to_msg pose stamp = record {
    frame_id = pose.frame_id;
    stamp = or_stamp stamp no_time;
    x = pose.x;
    y = pose.y;
    orientation = yaw_to_quaternion pose.yaw;
  }

  unfoldable pub pose_from_msg : PoseStamped C → Pose2D
  pose_from_msg msg = record {
    x = msg.x;
    y = msg.y;
    yaw = quaternion_to_yaw msg.orientation;
    frame_id = or_map msg.frame_id;
  }

  unfoldable pub spec_to_msg : TaskSpec → Option Time → TaskMsg C
  spec_to_msg spec stamp =
      let s = or_stamp stamp (float_to_time (some spec.created)) in
      record {
        stamp = s;
        frame_id = spec.pickup.frame_id;
        task_id = spec.task_id;
        robot_id = spec.robot_id;
        priority = clamped spec.priority;
        deadline = float_to_time spec.deadline;
        pickup_pose = pose_to_msg spec.pickup (some s);
        dropoff_pose = pose_to_msg spec.dropoff (some s);
        item_type = spec.item_type;
        item_mass = spec.item_mass;
        status = spec.status;
      }

  -- `new_id` is what `id_factory` gives, and `masses` the table of masses, with 0 for a type that it lacks.
  unfoldable pub spec_from_msg : TaskMsg C → ℤ → ℕ → (ItemType → ℤ) → TaskSpec
  spec_from_msg msg now new_id masses = record {
    task_id = if msg.task_id == 0 then new_id else msg.task_id;
    pickup = pose_from_msg msg.pickup_pose;
    dropoff = pose_from_msg msg.dropoff_pose;
    item_type = msg.item_type;
    item_mass = if ltb_ℤ (pos 0) msg.item_mass then msg.item_mass else masses msg.item_type;
    priority = pos msg.priority;
    deadline = time_to_float msg.deadline;
    robot_id = msg.robot_id;
    created = or_now (time_to_float msg.stamp) now;
    status = msg.status;
  }
