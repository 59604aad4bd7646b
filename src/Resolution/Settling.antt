-- ===== src/Resolution/Settling.antt =====
-- What an incident is after a step: it runs on with a plan, or one event has ended it.
use amr_fleet_system.Prelude.{
  ℕ, suc, ◌+◌, ◌<◌, ℤ, Bool, true, false, ◌&&◌, ◌==◌, ◌≡◌, refl, ◌∙◌, ◌⊎◌, inl, inr, Option, none,
  some, List, [], ◌∷◌, length, if◌then◌else◌, arith, Bool-cases,
}
use amr_fleet_system.Prelude.Dict.{
  Dict, contains, erase, IsUnique, lookup-erase_self, lookup-erase_ne,
}
use amr_fleet_system.Resolution.{
  Strategy, yield, alt_path, EventKind, deadlock, resolved, unresolved, escalated, Reason, Pocket,
  KeepoutMask, Incident, ResolutionEvent, IncidentManager, Outcome, reset_robot, reset_robots,
  cool_down, cool_down_for, signature, resolve, give_up,
}

abbrev pub is_ending : EventKind → Bool
is_ending deadlock = false
is_ending resolved = true
is_ending unresolved = true
is_ending escalated = false

-- How many of the events end the incident.
abbrev pub endings : ℕ → List ResolutionEvent → ℕ
endings k [] = 0
endings k (e ∷ es) =
    if is_ending e.kind && (e.incident_id == k) then suc (endings k es) else endings k es

abbrev pub present : ℕ → Dict Incident → ℕ
present k d = if contains k d then 1 else 0

-- A robot that gives way has its pocket, one that goes around has its mask.
abbrev pub HasPlan : Strategy → Option Pocket → Option KeepoutMask → Type 0
HasPlan yield (some p) none = Unit
HasPlan alt_path none (some k) = Unit
HasPlan _ _ _ = ⊥

abbrev pub IsRunning : Incident → Type 0
IsRunning inc = HasPlan inc.strategy inc.pocket inc.mask × (inc.victim_index < length inc.victims)

-- What no transition changes.
pub record Fixed : Type 0 where
  pub id : ℕ
  pub robots : List ℕ
  pub victims : List ℕ
  pub detected_at : ℤ

abbrev pub fixed : Incident → Fixed
fixed inc = record {
  id = inc.incident_id;
  robots = inc.robots;
  victims = inc.victims;
  detected_at = inc.detected_at;
}

pub record Settled (f : Fixed) (m : IncidentManager) (o : Outcome) : Type 0 where
  pub same : fixed o.incident ≡ f
  pub goes_on :
      (o.manager.active ≡ erase f.id m.active)
      ⊎ ((o.manager.active ≡ m.active) × IsRunning o.incident)
  pub counted : (k : ℕ) → endings k o.events + present k o.manager.active ≡ present k m.active
  pub cfg : o.manager.cfg ≡ m.cfg
  pub next_id : o.manager.next_id ≡ m.next_id

-- The incident is one of the manager's.
abbrev pub IsKept : Incident → IncidentManager → Type 0
IsKept inc m = (contains inc.incident_id m.active ≡ true) × IsUnique m.active

present-erase :
    (id k : ℕ) (d : Dict Incident)
    → contains id d ≡ true
    → IsUnique d
    → (if id == k then 1 else 0) + present k (erase id d) ≡ present k d
present-erase id k d there u = elim (Bool-cases (id == k)) [
  | inl e ↦ ground (arith, lookup-erase_self id d u)
  | inr e ↦ ground (arith, lookup-erase_ne id d {j = k} (ground arith))
]

reset_robots-active :
    (rs : List ℕ) (m : IncidentManager)
    → ((reset_robots rs m).active ≡ m.active)
      × ((reset_robots rs m).cfg ≡ m.cfg)
      × ((reset_robots rs m).next_id ≡ m.next_id)
unfolding reset_robots reset_robot
reset_robots-active [] m = (refl, refl, refl)
reset_robots-active (r ∷ rs) m = reset_robots-active rs (reset_robot r m)

cool_down_for-active :
    (now : ℤ) (sig immobile : List ℕ) (m : IncidentManager)
    → let m' = cool_down_for now sig immobile m in
      (m'.active ≡ m.active) × (m'.cfg ≡ m.cfg) × (m'.next_id ≡ m.next_id)
cool_down_for-active now sig [] m = (refl, refl, refl)
cool_down_for-active now sig (r ∷ rs) m = (refl, refl, refl)

given_up-active :
    (now : ℤ) (inc : Incident) (m : IncidentManager)
    → let m' = reset_robots inc.robots (cool_down now inc m) in
      (m'.active ≡ m.active) × (m'.cfg ≡ m.cfg) × (m'.next_id ≡ m.next_id)
given_up-active now inc m =
    let (a, b, d) = reset_robots-active inc.robots (cool_down now inc m) in
    let (a', b', d') = cool_down_for-active now (signature inc) inc.immobile m in
    (a ∙ a', b ∙ b', d ∙ d')

pub resolve-Settled :
    (now : ℤ) (inc : Incident) (m : IncidentManager)
    → IsKept inc m
    → Settled (fixed inc) m (resolve now inc m)
unfolding resolve
resolve-Settled now inc m (there, u) = record {
  same = refl;
  goes_on = inl refl;
  counted = λ k. present-erase inc.incident_id k m.active there u;
  cfg = refl;
  next_id = refl;
}

pub give_up-active :
    (now : ℤ) (inc : Incident) (why : Reason) (m : IncidentManager)
    → (give_up now inc why m).manager.active ≡ erase inc.incident_id m.active
unfolding give_up
give_up-active now inc why m =
    (given_up-active now inc (record m { active = erase inc.incident_id m.active })).0

pub give_up-endings :
    (now : ℤ) (inc : Incident) (why : Reason) (m : IncidentManager) (k : ℕ)
    → endings k (give_up now inc why m).events ≡ (if inc.incident_id == k then 1 else 0)
unfolding give_up
give_up-endings now inc why m k = refl

pub give_up-next_id :
    (now : ℤ) (inc : Incident) (why : Reason) (m : IncidentManager)
    → (give_up now inc why m).manager.next_id ≡ m.next_id
unfolding give_up
give_up-next_id now inc why m =
    (given_up-active now inc (record m { active = erase inc.incident_id m.active })).2

pub give_up-Settled :
    (now : ℤ) (inc : Incident) (why : Reason) (m : IncidentManager)
    → IsKept inc m
    → Settled (fixed inc) m (give_up now inc why m)
unfolding give_up
give_up-Settled now inc why m (there, u) =
    let m₁ : IncidentManager = record m { active = erase inc.incident_id m.active } in
    let (active, cfg, next_id) = given_up-active now inc m₁ in
    record {
      same = refl;
      goes_on = inl active;
      counted = λ k. rw active (present-erase inc.incident_id k m.active there u);
      cfg = cfg;
      next_id = next_id;
    }
