-- ===== src/Schema/Tests.antt =====
-- The checks at a concrete task, and the theorems there.
use amr_fleet_system.Prelude.{ℤ, pos, negsuc, ◌+ℤ◌, ◌-ℤ◌, ltb, true, ◌≡◌, refl, ◌↔◌, none, some}
use amr_fleet_system.Task.{small, ItemType, pending, Pose2D, TaskSpec}
use amr_fleet_system.Schema.{
  seconds, text, parse_deadline, PoseDoc, TaskDoc, TaskSchema, check_pose, check_spec,
  pose_from_dict, from_dict,
}
use amr_fleet_system.Schema.Rules.{IsAccepted, unchecked, check_spec_lem, from_dict-IsAccepted}

program : Unit {0}
unfolding parse_deadline check_pose check_spec pose_from_dict from_dict ◌+ℤ◌ ◌-ℤ◌
program = tt

abbrev masses : ItemType → ℤ
masses small = pos 2
masses _ = pos 25

-- Ids below 100 have the right form, and 30 days are 2592000 seconds.
abbrev schema : TaskSchema
schema = record {
  is_valid = λ doc. true;
  is_task_id = λ id. ltb 0 id;
  is_robot_id = λ id. ltb id 100;
  item_masses = masses;
  max_coord = pos 10000;
  horizon_s = pos 2592000;
}

abbrev shelf : PoseDoc
shelf = record { x = pos 3; y = negsuc 8; yaw = none; frame_id = "" }

-- A date 90 s ahead of the wall's clock, which shows 1000 while the node's shows 50.
abbrev doc : TaskDoc
doc = record {
  task_id = 0;
  pickup = shelf;
  dropoff = record shelf { x = pos 9999 };
  item_type = small;
  priority = some (pos 40);
  deadline = text 25 (some (pos 1090));
  robot_id = 3;
}

abbrev shelf_pose : Pose2D
shelf_pose = record { x = pos 3; y = negsuc 8; yaw = pos 0; frame_id = "map" }

abbrev spec : TaskSpec
spec = record {
  task_id = 77;
  pickup = shelf_pose;
  dropoff = record shelf_pose { x = pos 9999 };
  item_type = small;
  item_mass = pos 2;
  priority = pos 40;
  deadline = some (pos 140);
  robot_id = 3;
  created = pos 50;
  status = pending;
}

from_dict-doc : from_dict schema doc (pos 50) (some (pos 1000)) 77 ≡ some spec
unfolding program
from_dict-doc = refl

from_dict-far :
    from_dict schema (record doc { pickup = record shelf { x = pos 10001 } }) (pos 50) none 77
    ≡ none
unfolding program
from_dict-far = refl

parse_deadline-past : parse_deadline (seconds (some (negsuc 0))) (pos 50) none (pos 100) ≡ none
unfolding program
parse_deadline-past = refl

parse_deadline-read :
    parse_deadline (text 25 (some (pos 990))) (pos 50) (some (pos 1000)) (pos 100)
    ≡ some (some (pos 40))
unfolding program
parse_deadline-read = refl

check_spec_lem_example :
    (check_spec schema (unchecked spec) (pos 50) ≡ some spec)
    ↔ ((unchecked spec ≡ unchecked spec) × IsAccepted schema (pos 50) spec)
check_spec_lem_example = check_spec_lem schema (pos 50) (unchecked spec) spec

from_dict-IsAccepted_example :
    IsAccepted schema (pos 50) spec
    × (spec.status ≡ pending)
    × (spec.created ≡ pos 50)
    × (check_spec schema (unchecked spec) (pos 50) ≡ some spec)
from_dict-IsAccepted_example =
    from_dict-IsAccepted schema doc (pos 50) (some (pos 1000)) 77 spec from_dict-doc
