-- ===== src/Schema/Rules.antt =====
-- What `check_spec` and `from_dict` accept.
use amr_fleet_system.Prelude.{
  ℕ, ℤ, pos, ◌-ℤ◌, ◌≤ℤ◌, ◌<ℤ◌, true, ◌≡◌, refl, sym, ◌∙◌, inl, inr, ◌↔◌, Option, none, some, arith,
  Bool-cases, Option-cases, ap,
}
use amr_fleet_system.Task.{pending, ItemType, Pose2D, TaskSpec}
use amr_fleet_system.Schema.{
  abs_ℤ, parse_deadline, RawPose, RawSpec, TaskDoc, TaskSchema, check_pose, check_mass,
  check_deadline, joined, check_spec, some_deadline, raw_of, from_dict,
}

-- A task as the check meets it, with numbers that are all finite.
abbrev pub unchecked_pose : Pose2D → RawPose
unchecked_pose p = record { x = some p.x; y = some p.y; yaw = some p.yaw; frame_id = p.frame_id }

abbrev pub unchecked : TaskSpec → RawSpec
unchecked s = record {
  task_id = s.task_id;
  pickup = unchecked_pose s.pickup;
  dropoff = unchecked_pose s.dropoff;
  item_type = some s.item_type;
  item_mass = some s.item_mass;
  priority = s.priority;
  deadline = some_deadline s.deadline;
  robot_id = s.robot_id;
  created = s.created;
  status = s.status;
}

abbrev pub IsNear : ℤ → ℤ → Option ℤ → Type 0
IsNear horizon now none = Unit
IsNear horizon now (some d) = abs_ℤ (d -ℤ now) ≤ℤ horizon

abbrev pub IsInRange : ℤ → Pose2D → Type 0
IsInRange max p = (abs_ℤ p.x ≤ℤ max) × (abs_ℤ p.y ≤ℤ max)

-- The rules for a task.
pub record IsAccepted (schema : TaskSchema) (now : ℤ) (s : TaskSpec) : Type 0 where
  pub named : schema.is_task_id s.task_id ≡ true
  pub robot_named : schema.is_robot_id s.robot_id ≡ true
  pub pickup : IsInRange schema.max_coord s.pickup
  pub dropoff : IsInRange schema.max_coord s.dropoff
  pub heavy : pos 0 <ℤ s.item_mass
  pub near : IsNear schema.horizon_s now s.deadline

check_pose-of :
    (max : ℤ) (p : RawPose) (q : Pose2D)
    → check_pose max p ≡ some q
    → (p ≡ unchecked_pose q) × IsInRange max q
unfolding check_pose
check_pose-of max p q e = ground arith

check_mass-of : (m : Option ℤ) (n : ℤ) → check_mass m ≡ some n → (m ≡ some n) × (pos 0 <ℤ n)
check_mass-of m n e = ground arith

check_deadline-of :
    (horizon now : ℤ) (d : Option (Option ℤ)) (t : Option ℤ)
    → check_deadline horizon now d ≡ some t
    → (d ≡ some_deadline t) × IsNear horizon now t
check_deadline-of horizon now none t e = ground arith
check_deadline-of horizon now (some none) t e = cc
check_deadline-of horizon now (some (some d)) t e = ground arith

check_pose-accepts :
    (max : ℤ) (q : Pose2D) → IsInRange max q → check_pose max (unchecked_pose q) ≡ some q
unfolding check_pose
check_pose-accepts max q h = ground arith

check_mass-accepts : (n : ℤ) → pos 0 <ℤ n → check_mass (some n) ≡ some n
check_mass-accepts n h = ground arith

check_deadline-accepts :
    (horizon now : ℤ) (t : Option ℤ)
    → IsNear horizon now t
    → check_deadline horizon now (some_deadline t) ≡ some t
check_deadline-accepts horizon now none h = refl
check_deadline-accepts horizon now (some d) h = ground arith

-- Each part of a task that is joined was there.
record Joined (raw : RawSpec) (i : Option ItemType) (p q : Option Pose2D) (m : Option ℤ)
    (d : Option (Option ℤ)) (s : TaskSpec) : Type 0 where
  item : i ≡ some s.item_type
  from : p ≡ some s.pickup
  to : q ≡ some s.dropoff
  mass : m ≡ some s.item_mass
  deadline : d ≡ some s.deadline
  task : s.task_id ≡ raw.task_id
  robot : s.robot_id ≡ raw.robot_id
  priority : s.priority ≡ raw.priority
  created : s.created ≡ raw.created
  status : s.status ≡ raw.status

joined-of :
    (raw : RawSpec) (i : Option ItemType) (p q : Option Pose2D) (m : Option ℤ)
    (d : Option (Option ℤ)) (s : TaskSpec)
    → joined raw i p q m d ≡ some s
    → Joined raw i p q m d s
joined-of raw (some i) (some p) (some q) (some m) (some d) s e = record {
  item = cc;
  from = cc;
  to = cc;
  mass = cc;
  deadline = cc;
  task = cc;
  robot = cc;
  priority = cc;
  created = cc;
  status = cc;
}
joined-of raw none p q m d s e = cc
joined-of raw (some i) none q m d s e = cc
joined-of raw (some i) (some p) none m d s e = cc
joined-of raw (some i) (some p) (some q) none d s e = cc
joined-of raw (some i) (some p) (some q) (some m) none s e = cc

module _ (schema : TaskSchema) (now : ℤ) where
  names-of :
      (raw : RawSpec) (s : TaskSpec)
      → check_spec schema raw now ≡ some s
      → (schema.is_task_id raw.task_id ≡ true)
        × (schema.is_robot_id raw.robot_id ≡ true)
        × (joined raw raw.item_type
              (check_pose schema.max_coord raw.pickup)
              (check_pose schema.max_coord raw.dropoff)
              (check_mass raw.item_mass)
              (check_deadline schema.horizon_s now raw.deadline)
            ≡ some s)
  unfolding check_spec
  names-of raw s e = elim (Bool-cases (schema.is_task_id raw.task_id)) [
    | inr bad ↦ cc
    | inl named ↦ elim (Bool-cases (schema.is_robot_id raw.robot_id)) [
      | inr bad ↦ cc
      | inl robot ↦ (named, robot, (rw (named, robot) at e))
    ]
  ]

  check_spec-of :
      (raw : RawSpec) (s : TaskSpec)
      → check_spec schema raw now ≡ some s
      → (raw ≡ unchecked s) × IsAccepted schema now s
  check_spec-of raw s e =
      let (named, robot, all) = names-of raw s e in
      let j =
        joined-of raw raw.item_type (check_pose schema.max_coord raw.pickup)
          (check_pose schema.max_coord raw.dropoff) (check_mass raw.item_mass)
          (check_deadline schema.horizon_s now raw.deadline) s all in
      let (from, from_range) = check_pose-of schema.max_coord raw.pickup s.pickup j.from in
      let (to, to_range) = check_pose-of schema.max_coord raw.dropoff s.dropoff j.to in
      let (mass, heavy) = check_mass-of raw.item_mass s.item_mass j.mass in
      let (deadline, near) =
        check_deadline-of schema.horizon_s now raw.deadline s.deadline j.deadline in
      (
        ground (arith, j),
        record {
          named = cc (named, j.task);
          robot_named = cc (robot, j.robot);
          pickup = from_range;
          dropoff = to_range;
          heavy = heavy;
          near = near;
        },
      )

  check_spec-accepts :
      (s : TaskSpec) → IsAccepted schema now s → check_spec schema (unchecked s) now ≡ some s
  unfolding check_spec
  check_spec-accepts s a =
      rw
        (
          a.named,
          a.robot_named,
          check_pose-accepts schema.max_coord s.pickup a.pickup,
          check_pose-accepts schema.max_coord s.dropoff a.dropoff,
          check_mass-accepts s.item_mass a.heavy,
          check_deadline-accepts schema.horizon_s now s.deadline a.near,
        )
        refl

  -- `check_spec` accepts a task exactly when its numbers are finite, its item type is known, its ids have
  -- the form that is asked for, its coordinates are in range, its mass is positive and its deadline, if
  -- any, is at most the horizon from now; and it changes nothing.
  pub check_spec_lem :
      (raw : RawSpec) (s : TaskSpec)
      → (check_spec schema raw now ≡ some s) ↔ ((raw ≡ unchecked s) × IsAccepted schema now s)
  check_spec_lem raw s =
      (check_spec-of raw s, λ (e, a). ap (λ r. check_spec schema r now) e ∙ check_spec-accepts s a)

module _ (schema : TaskSchema) (doc : TaskDoc) (now : ℤ) (wall_now : Option ℤ) (new_id : ℕ) where
  checked :
      (s : TaskSpec)
      → from_dict schema doc now wall_now new_id ≡ some s
      → (d : Option ℤ) × (check_spec schema (raw_of schema doc now new_id d) now ≡ some s)
  unfolding from_dict
  checked s e = elim (Bool-cases (schema.is_valid doc)) [
    | inr bad ↦ cc
    | inl valid ↦ elim (Option-cases (parse_deadline doc.deadline now wall_now schema.horizon_s)) [
      | inl refused ↦ cc
      | inr (d, read) ↦ (d, (rw (valid, read) at e))
    ]
  ]

  -- A task from JSON that is accepted obeys the rules for tasks, is pending and made now, and a second
  -- `check_spec` of it accepts it and changes nothing.
  pub from_dict-IsAccepted :
      (s : TaskSpec)
      → from_dict schema doc now wall_now new_id ≡ some s
      → IsAccepted schema now s
        × (s.status ≡ pending)
        × (s.created ≡ now)
        × (check_spec schema (unchecked s) now ≡ some s)
  from_dict-IsAccepted s e =
      let (d, passed) = checked s e in
      let (same, rules) = check_spec-of schema now (raw_of schema doc now new_id d) s passed in
      (
        rules,
        sym (ap (λ r. r.status) same),
        sym (ap (λ r. r.created) same),
        check_spec-accepts schema now s rules,
      )
