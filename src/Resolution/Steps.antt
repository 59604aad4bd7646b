-- ===== src/Resolution/Steps.antt =====
-- `step`: it does not raise, it counts, and it keeps to the time limit.
use amr_fleet_system.Prelude.{
  ℕ, ◌+◌, ℤ, pos, ◌-ℤ◌, ◌≤ℤ◌, Bool, true, false, ◌≡◌, refl, sym, ap, ◌∙◌, subst, ◌≢◌, none, some,
  inl, inr, Option-cases, List, [], ◌∷◌, All, if◌then◌else◌, arith, any, if_rule, lex_lt,
}
use amr_fleet_system.Prelude.Dict.{
  Dict, lookup, contains, IsUnique, Entries, Entries-lookup, keys, values,
}
use amr_fleet_system.Prelude.Sorting.{
  sorted_by, insert_sorted, sorted_by-All, insert_sorted-All, All-sorted_by,
}
use amr_fleet_system.Resolution.{
  Incident, IncidentManager, Cycle, reset_robot, observe_each, observe_progress, shorter_by,
  remaining, is_free, erase_set, retry_stuck, refresh, active_incidents, step, Stepped,
}
use amr_fleet_system.Resolution.Settling.{endings, present}
use amr_fleet_system.Resolution.Storing.{IsEntry}
use amr_fleet_system.Resolution.Sweeping.{
  IsValid, AreKept, AreKept-other, OtherIds, AreDistinct, IsInTime, Swept, step_each-Swept,
}

-- The fields that `refresh` leaves alone.
abbrev AreSame : IncidentManager → IncidentManager → Type 0
AreSame m m' = (m'.active ≡ m.active) × (m'.cfg ≡ m.cfg) × (m'.next_id ≡ m.next_id)

AreSame-trans : (a b c : IncidentManager) → AreSame a b → AreSame b c → AreSame a c
AreSame-trans a b c (x, y, z) (x', y', z') = (x' ∙ x, y' ∙ y, z' ∙ z)

reset_if_same :
    (r : ℕ) (m : IncidentManager) (b : Bool) → AreSame m (if b then reset_robot r m else m)
unfolding reset_robot
reset_if_same r m true = (refl, refl, refl)
reset_if_same r m false = (refl, refl, refl)

observe_each-same :
    (c : Cycle) (rs : List ℕ) (m : IncidentManager) → AreSame m (observe_each c rs m)
observe_each-same c [] m = (refl, refl, refl)
observe_each-same c (r ∷ rs) m =
    let nearer =
      shorter_by m.cfg.progress_reset_m (remaining c (lookup r c.world.robots))
        (lookup r m.anchor) in
    let m' : IncidentManager = if nearer then reset_robot r m else m in
    AreSame-trans m m' (observe_each c rs m') (reset_if_same r m nearer) (observe_each-same c rs m')

retry_stuck-same :
    (c : Cycle) (sets : List (List ℕ × List ℕ)) (m : IncidentManager)
    → AreSame m (retry_stuck c sets m)
retry_stuck-same c [] m = (refl, refl, refl)
retry_stuck-same c ((sig, immobile) ∷ rest) m =
    let free = any (λ r. is_free (lookup r c.world.robots)) immobile in
    let cleared : IncidentManager = record m {
      stuck = erase_set sig m.stuck;
      cooldown = erase_set sig m.cooldown;
    } in
    let m' : IncidentManager = if free then cleared else m in
    AreSame-trans m m' (retry_stuck c rest m')
      (if_rule (AreSame m) free cleared m (λ e. (refl, refl, refl)) (λ e. (refl, refl, refl)))
      (retry_stuck-same c rest m')

refresh-same : (c : Cycle) (m : IncidentManager) → AreSame m (refresh c m)
unfolding refresh observe_progress
refresh-same c m =
    let m' = observe_each c (keys m.anchor) m in
    AreSame-trans m m' (retry_stuck c m'.stuck m') (observe_each-same c (keys m.anchor) m)
      (retry_stuck-same c m'.stuck m')

refresh-IsValid : (c : Cycle) (m : IncidentManager) → IsValid m → IsValid (refresh c m)
refresh-IsValid c m valid =
    let (same, cfg, next) = refresh-same c m in
    record { unique = rw same valid.unique; entries = rw (same, next) valid.entries }

-- The list of the incidents, in order, is the dictionary's.
absent-OtherIds :
    (next k : ℕ) (d : Dict Incident)
    → lookup k d ≡ none
    → Entries (IsEntry next) d
    → OtherIds k (values d)
absent-OtherIds next k [] e es = tt
absent-OtherIds next k ((j, inc) ∷ d) e es =
    ((λ same. ground (arith, es.0.0)), absent-OtherIds next k d (ground arith) es.1)

values-AreKept :
    (next : ℕ) (d : Dict Incident)
    → IsUnique d
    → Entries (IsEntry next) d
    → AreKept d (values d) × AreDistinct (values d)
values-AreKept next [] u es = (tt, tt)
values-AreKept next ((k, inc) ∷ d) u es =
    let others = absent-OtherIds next k d u.0 es.1 in
    let (kept, distinct) = values-AreKept next d u.1 es.1 in
    (
      (
        ground (arith, es.0.0),
        AreKept-other k d ((k, inc) ∷ d) (values d) (λ j other. ground arith) others kept,
      ),
      (rw (es.0.0) others, distinct),
    )

abbrev by_id : Incident → List ℤ
by_id inc = pos inc.incident_id ∷ []

insert_sorted-AreDistinct :
    (inc : Incident) (incs : List Incident)
    → OtherIds inc.incident_id incs
    → AreDistinct incs
    → AreDistinct (insert_sorted by_id inc incs)
unfolding insert_sorted
insert_sorted-AreDistinct inc [] others h = (tt, tt)
insert_sorted-AreDistinct inc (i ∷ rest) others h =
    if_rule AreDistinct (lex_lt (by_id i) (by_id inc)) (i ∷ insert_sorted by_id inc rest)
      (inc ∷ i ∷ rest)
      (λ e. (
        insert_sorted-All by_id (λ j. j.incident_id ≢ i.incident_id) inc rest
            (λ same. others.0 (sym same)) h.0,
        insert_sorted-AreDistinct inc rest others.1 h.1,
      ))
      (λ e. (others, h))

sorted_by-AreDistinct :
    (incs : List Incident) → AreDistinct incs → AreDistinct (sorted_by by_id incs)
unfolding sorted_by
sorted_by-AreDistinct [] h = tt
sorted_by-AreDistinct (inc ∷ rest) h =
    insert_sorted-AreDistinct inc (sorted_by by_id rest)
      (sorted_by-All by_id (λ j. j.incident_id ≢ inc.incident_id) rest h.0)
      (sorted_by-AreDistinct rest h.1)

pub active_incidents-AreKept :
    (m : IncidentManager)
    → IsValid m
    → AreKept m.active (active_incidents m) × AreDistinct (active_incidents m)
unfolding active_incidents
active_incidents-AreKept m valid =
    let (kept, distinct) = values-AreKept m.next_id m.active valid.unique valid.entries in
    (
      sorted_by-All by_id (λ i. lookup i.incident_id m.active ≡ some i) (values m.active) kept,
      sorted_by-AreDistinct (values m.active) distinct,
    )

All-values {κ} :
    (P : Incident → Type κ) (k : ℕ) (inc : Incident) (d : Dict Incident)
    → All P (values d)
    → lookup k d ≡ some inc
    → P inc
All-values P k inc [] h e = cc
All-values P k inc ((j, i) ∷ d) h e = ground (arith, All-values P k inc d h.1, h.0)

-- What holds of all incidents in the list holds of each that is looked up.
pub All-active_incidents {κ} :
    (P : Incident → Type κ) (k : ℕ) (inc : Incident) (m : IncidentManager)
    → All P (active_incidents m)
    → lookup k m.active ≡ some inc
    → P inc
unfolding active_incidents
All-active_incidents P k inc m h e =
    All-values P k inc m.active (All-sorted_by by_id P (values m.active) h) e

step-Swept :
    (c : Cycle) (m : IncidentManager) (r : Stepped)
    → IsValid m
    → step c m ≡ some r
    → Swept c (active_incidents (refresh c m)) (refresh c m) r
unfolding step
step-Swept c m r valid e =
    let valid' = refresh-IsValid c m valid in
    let (kept, distinct) = active_incidents-AreKept (refresh c m) valid' in
    step_each-Swept c (active_incidents (refresh c m)) (refresh c m) r valid' kept distinct e

pub step-keeps_IsValid :
    (c : Cycle) (m : IncidentManager) (r : Stepped) → IsValid m → step c m ≡ some r → IsValid r.0
step-keeps_IsValid c m r valid e = (step-Swept c m r valid e).valid

-- In a cycle of a manager whose incidents are kept under their numbers, each with a plan and a victim, if it
-- does not raise, each incident that was there is either there afterwards or is told once to
-- have been resolved or given up; of every other number no end is told and no incident appears.
pub step-counted :
    (c : Cycle) (m : IncidentManager) (r : Stepped)
    → IsValid m
    → step c m ≡ some r
    → (k : ℕ) → endings k r.1 + present k r.0.active ≡ present k m.active
step-counted c m r valid e k =
    (step-Swept c m r valid e).counted k ∙ ap (present k) (refresh-same c m).0

pub step-next_id :
    (c : Cycle) (m : IncidentManager) (r : Stepped)
    → IsValid m
    → step c m ≡ some r
    → r.0.next_id ≡ m.next_id
step-next_id c m r valid e = (step-Swept c m r valid e).next_id ∙ (refresh-same c m).2

-- An incident that is there after the loop was there before.
was_there :
    (c : Cycle) (m : IncidentManager) (r : Stepped) (k : ℕ) (inc : Incident) (incs : List Incident)
    → Swept c incs m r
    → lookup k r.0.active ≡ some inc
    → (old : Incident) × (lookup k m.active ≡ some old)
was_there c m r k inc incs h there = elim (Option-cases (lookup k m.active)) [
  | inl e ↦
      let now_there : present k r.0.active ≡ 1 = rw (there, contains) refl in
      let not_there : present k m.active ≡ 0 = rw (e, contains) refl in
      absurd (omega (arith, h.counted k, now_there, not_there))
  | inr old ↦ old
]

Swept-in_time :
    (c : Cycle) (m : IncidentManager) (r : Stepped) (k : ℕ) (inc : Incident)
    → IsValid m
    → Swept c (active_incidents m) m r
    → lookup k r.0.active ≡ some inc
    → c.now -ℤ inc.detected_at ≤ℤ m.cfg.deadlock_max_s
Swept-in_time c m r k inc valid h there =
    let (old, e) = was_there c m r k inc (active_incidents m) h there in
    let known = Entries-lookup (IsEntry m.next_id) k old m.active valid.entries e in
    let judged =
      All-active_incidents (IsInTime c m.cfg.deadlock_max_s r.0.active) k old m h.in_time e in
    let (same, in_time) = judged inc (ap (λ j. lookup j r.0.active) known.0 ∙ there) in
    subst (λ f. c.now -ℤ f.detected_at ≤ℤ m.cfg.deadlock_max_s) (sym same) in_time

-- After a cycle of a manager whose incidents are kept under their numbers, each with a plan and a victim,
-- every incident that is still there was detected at most `deadlock_max_s` ago: one that is older is given up.
pub step-in_time :
    (c : Cycle) (m : IncidentManager) (r : Stepped) (k : ℕ) (inc : Incident)
    → IsValid m
    → step c m ≡ some r
    → lookup k r.0.active ≡ some inc
    → c.now -ℤ inc.detected_at ≤ℤ m.cfg.deadlock_max_s
step-in_time c m r k inc valid e there =
    subst (λ cfg. c.now -ℤ inc.detected_at ≤ℤ cfg.deadlock_max_s) (refresh-same c m).1
      (Swept-in_time c (refresh c m) r k inc (refresh-IsValid c m valid) (step-Swept c m r valid e)
        there)
