-- ===== src/Allocation/Greedy.antt =====
-- The greedy strategies give out as many robots as they can, each of them once.
use amr_fleet_system.Prelude.{
  ℕ, suc, ◌+◌, ℤ, ◌≡◌, refl, ap, ◌∙◌, inl, inr, ◌⊎◌, Bool, true, false, none, lex_lt, List, [], ◌∷◌,
  length, member, All, All-imp, arith, if◌then◌else◌, Bool-cases, map,
}
use Prim.Native.Nat.{min}
use amr_fleet_system.Prelude.Dict.{Dict, values, lookup, insert, length-insert_new, lookup-insert}
use amr_fleet_system.Prelude.Sorting.{min_by}
use amr_fleet_system.Task.{TaskSpec}
use amr_fleet_system.Allocation.Fairness.{Distinct, Distinct-insert, All-values-insert}
use amr_fleet_system.Allocation.{
  RobotInfo, same_robot, remove_robot, greedy, nearest, load_balance, nearest_key, load_key,
}

abbrev In : RobotInfo → List RobotInfo → Type 0
In a [] = ⊥
In a (x ∷ xs) = (a ≡ x) ⊎ In a xs

chosen : (b : Bool) (x y : RobotInfo) → ((if b then y else x) ≡ x) ⊎ ((if b then y else x) ≡ y)
chosen true x y = inr refl
chosen false x y = inl refl

min_by-In :
    (key : RobotInfo → List ℤ) (x : RobotInfo) (xs : List RobotInfo) → In (min_by key x xs) (x ∷ xs)
unfolding min_by
min_by-In key x [] = inl refl
min_by-In key x (y ∷ ys) =
    let z : RobotInfo = if lex_lt (key y) (key x) then y else x in
    elim (min_by-In key z ys) [
      | inl e ↦ elim (chosen (lex_lt (key y) (key x)) x y) [
        | inl c ↦ inl (e ∙ c)
        | inr c ↦ inr (inl (e ∙ c))
      ]
      | inr later ↦ inr (inr later)
    ]

same_robot_refl : (r : RobotInfo) → same_robot r r ≡ true
same_robot_refl r = ground arith

length-remove_robot :
    (r : RobotInfo) (pool : List RobotInfo)
    → In r pool
    → suc (length (remove_robot r pool)) ≡ length pool
unfolding remove_robot
length-remove_robot r [] h = elim h [ ]
length-remove_robot r (x ∷ xs) (inl e) = rw e (rw (same_robot_refl x))
length-remove_robot r (x ∷ xs) (inr later) = elim (Bool-cases (same_robot x r)) [
  | inl e ↦ rw e
  | inr e ↦ rw e (ap suc (length-remove_robot r xs later))
]

-- No task id stands twice.
abbrev pub DistinctTasks : List TaskSpec → Type 0
DistinctTasks [] = Unit
DistinctTasks (t ∷ ts) = (member t.task_id (map (λ x. x.task_id) ts) ≡ false) × DistinctTasks ts

-- The task has no robot yet.
abbrev Unassigned : Dict ℕ → TaskSpec → Type 0
Unassigned out t = lookup t.task_id out ≡ none

still-Unassigned :
    (k v : ℕ) (out : Dict ℕ) (ts : List TaskSpec)
    → member k (map (λ x. x.task_id) ts) ≡ false
    → All (Unassigned out) ts
    → All (Unassigned (insert k v out)) ts
still-Unassigned k v out [] m h = tt
still-Unassigned k v out (t ∷ ts) m h =
    ground (arith, lookup-insert t.task_id k v out, still-Unassigned k v out ts)

greedy-length :
    (key : TaskSpec → RobotInfo → List ℤ) (ts : List TaskSpec) (pool : List RobotInfo)
    (out : Dict ℕ)
    → DistinctTasks ts
    → All (Unassigned out) ts
    → length (greedy key ts pool out) ≡ length out + min (length ts) (length pool)
unfolding greedy
greedy-length key [] pool out d h = omega arith
greedy-length key (t ∷ ts) [] out d h = omega arith
greedy-length key (t ∷ ts) (r ∷ rs) out d h =
    let best = min_by (key t) r rs in
    omega (
      arith,
      length-remove_robot best (r ∷ rs) (min_by-In (key t) r rs),
      length-insert_new t.task_id best.robot_id out h.0,
      greedy-length key ts (remove_robot best (r ∷ rs)) (insert t.task_id best.robot_id out) d.1
          (still-Unassigned t.task_id best.robot_id out ts d.0 h.1),
    )

empty-Unassigned : (ts : List TaskSpec) → All (Unassigned []) ts
empty-Unassigned [] = tt
empty-Unassigned (t ∷ ts) = (refl, empty-Unassigned ts)

abbrev ids : List RobotInfo → List ℕ
ids robots = map (λ r. r.robot_id) robots

In-member :
    (r : RobotInfo) (pool : List RobotInfo) → In r pool → member r.robot_id (ids pool) ≡ true
In-member r [] h = elim h [ ]
In-member r (x ∷ xs) (inl e) = ground (arith, ap (λ y. y.robot_id) e)
In-member r (x ∷ xs) (inr later) = ground (arith, In-member r xs later)

same_robot-id : (x r : RobotInfo) → same_robot x r ≡ true → x.robot_id ≡ r.robot_id
same_robot-id x r h = ground arith

member-remove_robot :
    (j : ℕ) (r : RobotInfo) (pool : List RobotInfo)
    → member j (ids pool) ≡ false
    → member j (ids (remove_robot r pool)) ≡ false
unfolding remove_robot
member-remove_robot j r [] h = refl
member-remove_robot j r (x ∷ xs) h = ground (arith, member-remove_robot j r xs)

Distinct-remove_robot :
    (r : RobotInfo) (pool : List RobotInfo)
    → Distinct (ids pool)
    → Distinct (ids (remove_robot r pool))
unfolding remove_robot
Distinct-remove_robot r [] h = tt
Distinct-remove_robot r (x ∷ xs) h = elim (Bool-cases (same_robot x r)) [
  | inl e ↦ rw e h.1
  | inr e ↦ rw e (member-remove_robot x.robot_id r xs h.0, Distinct-remove_robot r xs h.1)
]

-- A robot that is taken out of a pool of distinct robots is not in it any more.
removed-absent :
    (r : RobotInfo) (pool : List RobotInfo)
    → Distinct (ids pool)
    → In r pool
    → member r.robot_id (ids (remove_robot r pool)) ≡ false
unfolding remove_robot
removed-absent r [] d h = elim h [ ]
removed-absent r (x ∷ xs) d (inl e) = rw e (rw (same_robot_refl x) d.0)
removed-absent r (x ∷ xs) d (inr later) = elim (Bool-cases (same_robot x r)) [
  | inl e ↦ ground (arith, In-member r xs later, same_robot-id x r e, d.0)
  | inr e ↦ rw e (ground (arith, In-member r xs later, removed-absent r xs d.1 later, d.0))
]

-- The robots that were given out are distinct, of the fleet, and not in the pool, which is of the fleet.
record Given (fleet pool : List RobotInfo) (out : Dict ℕ) : Type 0 where
  distinct : Distinct (values out)
  of_fleet : All (λ x. member x (ids fleet) ≡ true) (values out)
  gone : All (λ x. member x (ids pool) ≡ false) (values out)
  pool_distinct : Distinct (ids pool)
  pool_of_fleet : (j : ℕ) → member j (ids fleet) ≡ false → member j (ids pool) ≡ false

values-absent :
    (j : ℕ) (pool : List RobotInfo) (xs : List ℕ)
    → All (λ x. member x (ids pool) ≡ false) xs
    → member j (ids pool) ≡ true
    → member j xs ≡ false
values-absent j pool [] h e = refl
values-absent j pool (x ∷ xs) h e = ground (arith, values-absent j pool xs)

give-Given :
    (fleet pool : List RobotInfo) (out : Dict ℕ) (task : ℕ) (r : RobotInfo)
    → In r pool
    → Given fleet pool out
    → Given fleet (remove_robot r pool) (insert task r.robot_id out)
give-Given fleet pool out task r inside g =
    let here = In-member r pool inside in
    record {
      distinct =
          Distinct-insert task r.robot_id out g.distinct
            (values-absent r.robot_id pool (values out) g.gone here);
      of_fleet =
          All-values-insert (λ x. member x (ids fleet) ≡ true) task r.robot_id out g.of_fleet
            (elim (Bool-cases (member r.robot_id (ids fleet))) [
              | inl e ↦ e
              | inr e ↦ ground (arith, here, g.pool_of_fleet r.robot_id e)
            ]);
      gone =
          All-values-insert (λ x. member x (ids (remove_robot r pool)) ≡ false) task r.robot_id out
            (All-imp (λ x. member x (ids pool) ≡ false) _ (values out)
              (λ x e. member-remove_robot x r pool e) g.gone)
            (removed-absent r pool g.pool_distinct inside);
      pool_distinct = Distinct-remove_robot r pool g.pool_distinct;
      pool_of_fleet = λ j e. member-remove_robot j r pool (g.pool_of_fleet j e);
    }

-- Every robot that is given out is of the fleet, and none is given out twice.
abbrev pub OnePerRobot : List RobotInfo → Dict ℕ → Type 0
OnePerRobot robots out =
    Distinct (values out) × All (λ x. member x (ids robots) ≡ true) (values out)

greedy-OnePerRobot :
    (key : TaskSpec → RobotInfo → List ℤ) (fleet : List RobotInfo) (ts : List TaskSpec)
    (pool : List RobotInfo) (out : Dict ℕ)
    → Given fleet pool out
    → OnePerRobot fleet (greedy key ts pool out)
unfolding greedy
greedy-OnePerRobot key fleet [] pool out g = (g.distinct, g.of_fleet)
greedy-OnePerRobot key fleet (t ∷ ts) [] out g = (g.distinct, g.of_fleet)
greedy-OnePerRobot key fleet (t ∷ ts) (r ∷ rs) out g =
    let best = min_by (key t) r rs in
    greedy-OnePerRobot key fleet ts (remove_robot best (r ∷ rs))
      (insert t.task_id best.robot_id out)
      (give-Given fleet (r ∷ rs) out t.task_id best (min_by-In (key t) r rs) g)

start-Given : (robots : List RobotInfo) → Distinct (ids robots) → Given robots robots []
start-Given robots d = record {
  distinct = tt;
  of_fleet = tt;
  gone = tt;
  pool_distinct = d;
  pool_of_fleet = λ j e. e;
}

-- On tasks with distinct ids and robots with distinct ids, both greedy strategies assign as many tasks as
-- there are tasks and robots: each assignment is to another robot of the list, and no robot stays idle while
-- a task is left.
pub greedy_assigns_all :
    (hypot : ℤ → ℤ → ℤ) (tasks : List TaskSpec) (robots : List RobotInfo)
    → DistinctTasks tasks
    → Distinct (map (λ r. r.robot_id) robots)
    → ((length (nearest hypot tasks robots) ≡ min (length tasks) (length robots))
        × OnePerRobot robots (nearest hypot tasks robots))
      × ((length (load_balance hypot tasks robots) ≡ min (length tasks) (length robots))
          × OnePerRobot robots (load_balance hypot tasks robots))
unfolding nearest load_balance
greedy_assigns_all hypot tasks robots d d' = (
  (
    omega (arith, greedy-length (nearest_key hypot) tasks robots [] d (empty-Unassigned tasks)),
    greedy-OnePerRobot (nearest_key hypot) robots tasks robots [] (start-Given robots d'),
  ),
  (
    omega (arith, greedy-length (load_key hypot) tasks robots [] d (empty-Unassigned tasks)),
    greedy-OnePerRobot (load_key hypot) robots tasks robots [] (start-Given robots d'),
  ),
)
