-- ===== src/Fleet/Calls.antt =====
-- That a call in flight is known to the robot that it goes to, whatever the node does.
use amr_fleet_system.Prelude.{
  ℕ, true, ◌==◌, ◌≡◌, ◌≢◌, sym, ap, ◌∙◌, Option, none, some, arith, if◌then◌else◌,
}
use amr_fleet_system.Prelude.Dict.{
  Dict, lookup, insert, erase, IsUnique, lookup-insert, lookup-erase_self, lookup-erase_ne,
  insert-IsUnique, erase-IsUnique,
}
use amr_fleet_system.Fleet.State.{Robot, Dispatch}
use amr_fleet_system.Fleet.Tasks.{freed}
use amr_fleet_system.Fleet.Candidates.{good_at, is_idle}

-- The task that a robot is called for.
abbrev pub call_of : ℕ → Dict Robot → Option ℕ
call_of k d = elim (lookup k d) [ none ↦ none | some r ↦ r.inflight ]

pub record Agree (robots : Dict Robot) (calls : Dict Dispatch) : Type 0 where
  pub robots_unique : IsUnique robots
  pub calls_unique : IsUnique calls
  pub called :
      (task : ℕ) (d : Dispatch) → lookup task calls ≡ some d → call_of d.robot_id robots ≡ some task

-- A property of the robots and the calls.
abbrev pub Property : Type 1
Property = Dict Robot → Dict Dispatch → Type 0

-- What a property keeps to: robots are written with their call left alone, a call is cleared, and a call
-- is written with its robot left alone.
pub record Closed (Q : Property) : Type 0 where
  pub write :
      (k : ℕ) (r r' : Robot) (rs : Dict Robot) (cs : Dict Dispatch)
      → lookup k rs ≡ some r
      → r'.inflight ≡ r.inflight
      → Q rs cs
      → Q (insert k r' rs) cs
  pub drop : (task : ℕ) (rs : Dict Robot) (cs : Dict Dispatch) → Q rs cs → Q rs (erase task cs)
  pub clear :
      (task : ℕ) (d : Dispatch) (r : Robot) (rs : Dict Robot) (cs : Dict Dispatch)
      → lookup task cs ≡ some d
      → lookup d.robot_id rs ≡ some r
      → Q rs cs
      → Q (insert d.robot_id (freed task r) rs) (erase task cs)
  pub rewrite :
      (task : ℕ) (d e : Dispatch) (rs : Dict Robot) (cs : Dict Dispatch)
      → lookup task cs ≡ some d
      → e.robot_id ≡ d.robot_id
      → Q rs cs
      → Q rs (insert task e cs)

pub call_of-insert :
    (j k : ℕ) (r : Robot) (rs : Dict Robot)
    → call_of j (insert k r rs) ≡ (if j == k then r.inflight else call_of j rs)
call_of-insert j k r rs = ground (arith, lookup-insert j k r rs)

call_of-found :
    (k : ℕ) (r : Robot) (rs : Dict Robot) → lookup k rs ≡ some r → call_of k rs ≡ r.inflight
call_of-found k r rs e = ground arith

lookup-erase_other :
    (j k : ℕ) (d : Dispatch) (cs : Dict Dispatch)
    → IsUnique cs
    → lookup j (erase k cs) ≡ some d
    → (j ≢ k) × (lookup j cs ≡ some d)
lookup-erase_other j k d cs u e =
    let other : j ≢ k =
      λ same. cc (lookup-erase_self k cs u, ap (λ x. lookup x (erase k cs)) same) in
    (other, sym (lookup-erase_ne k cs other) ∙ e)

freed-other :
    (task t : ℕ) (r : Robot) → r.inflight ≡ some t → t ≢ task → (freed task r).inflight ≡ some t
freed-other task t r e other = ground arith

freed-none : (task : ℕ) (r : Robot) → r.inflight ≡ none → (freed task r).inflight ≡ none
freed-none task r e = ground arith

pub Agree-write :
    (k : ℕ) (r r' : Robot) (rs : Dict Robot) (cs : Dict Dispatch)
    → lookup k rs ≡ some r
    → r'.inflight ≡ r.inflight
    → Agree rs cs
    → Agree (insert k r' rs) cs
Agree-write k r r' rs cs found same h = record {
  robots_unique = insert-IsUnique k r' rs h.robots_unique;
  calls_unique = h.calls_unique;
  called = λ t d e.
      ground (arith, h.called t d e, call_of-insert d.robot_id k r' rs, call_of-found k r rs found);
}

Agree-drop :
    (task : ℕ) (rs : Dict Robot) (cs : Dict Dispatch) → Agree rs cs → Agree rs (erase task cs)
Agree-drop task rs cs h = record {
  robots_unique = h.robots_unique;
  calls_unique = erase-IsUnique task cs h.calls_unique;
  called = λ t d e. h.called t d (lookup-erase_other t task d cs h.calls_unique e).1;
}

Agree-clear :
    (task : ℕ) (d : Dispatch) (r : Robot) (rs : Dict Robot) (cs : Dict Dispatch)
    → lookup task cs ≡ some d
    → lookup d.robot_id rs ≡ some r
    → Agree rs cs
    → Agree (insert d.robot_id (freed task r) rs) (erase task cs)
Agree-clear task d r rs cs found at h = record {
  robots_unique = insert-IsUnique d.robot_id (freed task r) rs h.robots_unique;
  calls_unique = erase-IsUnique task cs h.calls_unique;
  called = λ t e there.
      (let (other, before) = lookup-erase_other t task e cs h.calls_unique there in
        ground (
          arith,
          h.called t e before,
          call_of-insert e.robot_id d.robot_id (freed task r) rs,
          call_of-found d.robot_id r rs at,
          freed-other task t r,
        ));
}

pub Agree-rewrite :
    (task : ℕ) (d e : Dispatch) (rs : Dict Robot) (cs : Dict Dispatch)
    → lookup task cs ≡ some d
    → e.robot_id ≡ d.robot_id
    → Agree rs cs
    → Agree rs (insert task e cs)
Agree-rewrite task d e rs cs found same h = record {
  robots_unique = h.robots_unique;
  calls_unique = insert-IsUnique task e cs h.calls_unique;
  called =
      λ t x there. ground (arith, lookup-insert t task e cs, h.called t x, h.called task d found);
}

pub Agree-Closed : Closed Agree
Agree-Closed = record {
  write = Agree-write;
  drop = Agree-drop;
  clear = Agree-clear;
  rewrite = Agree-rewrite;
}

-- Moreover, a robot is there and not called.
abbrev pub Idle : ℕ → Property
Idle k rs cs = Agree rs cs × (good_at is_idle k rs ≡ true)

idle_at-insert :
    (j k : ℕ) (r : Robot) (rs : Dict Robot)
    → good_at is_idle j (insert k r rs) ≡ (if j == k then is_idle r else good_at is_idle j rs)
idle_at-insert j k r rs = ground (arith, lookup-insert j k r rs)

idle_at-found :
    (k : ℕ) (r : Robot) (rs : Dict Robot) → lookup k rs ≡ some r → good_at is_idle k rs ≡ is_idle r
idle_at-found k r rs e = ground arith

freed-is_idle : (task : ℕ) (r : Robot) → is_idle r ≡ true → is_idle (freed task r) ≡ true
freed-is_idle task r e = ground arith

pub Idle-Closed : (k : ℕ) → Closed (Idle k)
Idle-Closed k = record {
  write = λ j r r' rs cs found same (h, idle). (
    Agree-write j r r' rs cs found same h,
    ground (arith, idle, idle_at-insert k j r' rs, idle_at-found j r rs found),
  );
  drop = λ task rs cs (h, idle). (Agree-drop task rs cs h, idle);
  clear = λ task d r rs cs found at (h, idle). (
    Agree-clear task d r rs cs found at h,
    ground (
      arith,
      idle,
      idle_at-insert k d.robot_id (freed task r) rs,
      idle_at-found d.robot_id r rs at,
      freed-is_idle task r,
    ),
  );
  rewrite =
      λ task d e rs cs found same (h, idle). (Agree-rewrite task d e rs cs found same h, idle);
}

-- A call of an idle robot keeps the property.
abbrev pub Admits : Property → ℕ → Type 0
Admits Q robot =
    (task : ℕ) (d : Dispatch) (r : Robot) (rs : Dict Robot) (cs : Dict Dispatch)
    → d.robot_id ≡ robot
    → lookup robot rs ≡ some r
    → r.inflight ≡ none
    → Agree rs cs
    → Q rs cs
    → Q (insert robot (record r { inflight = some task }) rs) (insert task d cs)

pub Agree-Admits : (robot : ℕ) → Admits Agree robot
Agree-Admits robot task d r rs cs same found idle h h' =
    let r' : Robot = record r { inflight = some task } in
    record {
      robots_unique = insert-IsUnique robot r' rs h.robots_unique;
      calls_unique = insert-IsUnique task d cs h.calls_unique;
      called = λ t e there. ground (
        arith,
        lookup-insert t task d cs,
        h.called t e,
        call_of-insert e.robot_id robot r' rs,
        call_of-found robot r rs found,
      );
    }

pub Idle-Admits : (robot k : ℕ) → k ≢ robot → Admits (Idle k) robot
Idle-Admits robot k other task d r rs cs same found idle h (h', rest) = (
  Agree-Admits robot task d r rs cs same found idle h h,
  ground (arith, rest, idle_at-insert k robot (record r { inflight = some task }) rs),
)
