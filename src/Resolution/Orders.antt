-- ===== src/Resolution/Orders.antt =====
-- The commands that go to the victims.
use amr_fleet_system.Prelude.{
  ℕ, true, false, ◌≡◌, ◌⊎◌, inl, inr, refl, Option, none, some, List, [], ◌∷◌, All, All-imp, arith,
}
use amr_fleet_system.Prelude.Dict.{
  Dict, lookup, contains, Entries, Entries-lookup, Entries-insert, lookup-insert,
}
use amr_fleet_system.Resolution.{
  Strategy, yield, alt_path, unset, Pocket, KeepoutMask, Incident, victim, IncidentCommand,
  IncidentManager, active_incidents, command_of, command, commanded, commands_from, commands,
}
use amr_fleet_system.Resolution.Settling.{HasPlan}
use amr_fleet_system.Resolution.Storing.{IsEntry}
use amr_fleet_system.Resolution.Sweeping.{IsValid, AreKept}
use amr_fleet_system.Resolution.Steps.{active_incidents-AreKept, All-active_incidents}

-- The command to wait at the incident's pocket.
abbrev IsYield : Incident → IncidentCommand → Type 0
IsYield inc x =
    (p : Pocket) × (inc.strategy ≡ yield)
    × (inc.pocket ≡ some p)
    × (x.hold ≡ true)
    × (x.yield_pose ≡ some (p.xy, p.yaw))
    × (x.keepout ≡ none)
    × (x.masked_zones ≡ [])

-- The command to drive on and keep off the incident's mask and its zones.
abbrev IsDetour : Incident → IncidentCommand → Type 0
IsDetour inc x =
    (k : KeepoutMask) × (inc.strategy ≡ alt_path)
    × (inc.mask ≡ some k)
    × (x.hold ≡ false)
    × (x.yield_pose ≡ none)
    × (x.keepout ≡ some k)
    × (x.masked_zones ≡ inc.contested_zones)

-- An incident of the manager whose victim the command is for, as its strategy wants it.
abbrev pub IsOrdered : IncidentManager → ℕ → IncidentCommand → Type 0
IsOrdered m v x =
    (inc : Incident) × (lookup inc.incident_id m.active ≡ some inc)
    × (victim inc ≡ v)
    × (x.incident_id ≡ inc.incident_id)
    × (IsYield inc x ⊎ IsDetour inc x)

command_of-content :
    (inc : Incident) (x : IncidentCommand) (s : Strategy) (p : Option Pocket)
    (k : Option KeepoutMask)
    → inc.strategy ≡ s
    → inc.pocket ≡ p
    → inc.mask ≡ k
    → command_of inc s p k ≡ some x
    → (x.incident_id ≡ inc.incident_id) × (IsYield inc x ⊎ IsDetour inc x)
command_of-content inc x unset p k es ep ek e = cc
command_of-content inc x yield none k es ep ek e = cc
command_of-content inc x yield (some p) k es ep ek e = (cc, inl (p, es, ep, cc, cc, cc, cc))
command_of-content inc x alt_path none none es ep ek e = cc
command_of-content inc x alt_path (some p) none es ep ek e = cc
command_of-content inc x alt_path p (some k) es ep ek e = (cc, inr (k, es, ek, cc, cc, cc, cc))

commanded-IsOrdered :
    (m : IncidentManager) (inc : Incident) (o : Option IncidentCommand) (out : Dict IncidentCommand)
    → command inc ≡ o
    → lookup inc.incident_id m.active ≡ some inc
    → Entries (IsOrdered m) out
    → Entries (IsOrdered m) (commanded inc o out)
commanded-IsOrdered m inc none out e kept es = es
commanded-IsOrdered m inc (some x) out e kept es =
    Entries-insert (IsOrdered m) (victim inc) x out es (
      inc,
      kept,
      refl,
      (command_of-content inc x inc.strategy inc.pocket inc.mask refl refl refl e).0,
      (command_of-content inc x inc.strategy inc.pocket inc.mask refl refl refl e).1,
    )

commands_from-IsOrdered :
    (m : IncidentManager) (incs : List Incident) (out : Dict IncidentCommand)
    → AreKept m.active incs
    → Entries (IsOrdered m) out
    → Entries (IsOrdered m) (commands_from incs out)
commands_from-IsOrdered m [] out kept es = es
commands_from-IsOrdered m (inc ∷ rest) out kept es =
    commands_from-IsOrdered m rest (commanded inc (command inc) out) kept.1
      (commanded-IsOrdered m inc (command inc) out refl kept.0 es)

-- If a manager's incidents are kept under their numbers, each with a plan and a victim, every command goes to
-- the victim of an incident that is there, and carries the incident's number: if the
-- incident gives way, to hold and wait at its pocket, with no mask; if it goes around, to drive on and keep off
-- its mask and the contested zones.
pub commands-IsOrdered :
    (m : IncidentManager) (v : ℕ) (x : IncidentCommand)
    → IsValid m
    → lookup v (commands m) ≡ some x
    → IsOrdered m v x
unfolding commands
commands-IsOrdered m v x valid e =
    Entries-lookup (IsOrdered m) v x (commands m)
      (commands_from-IsOrdered m (active_incidents m) [] (active_incidents-AreKept m valid).0 tt) e

command_of-total :
    (inc : Incident) (s : Strategy) (p : Option Pocket) (k : Option KeepoutMask)
    → HasPlan s p k
    → (x : IncidentCommand) × (command_of inc s p k ≡ some x)
command_of-total inc unset p k plan = absurd plan
command_of-total inc yield none k plan = absurd plan
command_of-total inc yield (some p) k plan = (_, refl)
command_of-total inc alt_path none none plan = absurd plan
command_of-total inc alt_path (some p) none plan = absurd plan
command_of-total inc alt_path p (some k) plan = (_, refl)

commanded-contains :
    (v : ℕ) (inc : Incident) (o : Option IncidentCommand) (out : Dict IncidentCommand)
    → contains v out ≡ true
    → contains v (commanded inc o out) ≡ true
commanded-contains v inc none out e = e
commanded-contains v inc (some x) out e = ground (arith, lookup-insert v (victim inc) x out)

commands_from-contains :
    (v : ℕ) (incs : List Incident) (out : Dict IncidentCommand)
    → contains v out ≡ true
    → contains v (commands_from incs out) ≡ true
commands_from-contains v [] out e = e
commands_from-contains v (inc ∷ rest) out e =
    commands_from-contains v rest (commanded inc (command inc) out)
      (commanded-contains v inc (command inc) out e)

commanded_self :
    (inc : Incident) (o : Option IncidentCommand) (x : IncidentCommand) (out : Dict IncidentCommand)
    → o ≡ some x
    → contains (victim inc) (commanded inc o out) ≡ true
commanded_self inc none x out e = cc
commanded_self inc (some y) x out e = ground (arith, lookup-insert (victim inc) (victim inc) y out)

commands_from-All :
    (incs : List Incident) (out : Dict IncidentCommand)
    → All (λ inc. (x : IncidentCommand) × (command inc ≡ some x)) incs
    → All (λ inc. contains (victim inc) (commands_from incs out) ≡ true) incs
commands_from-All [] out h = tt
commands_from-All (inc ∷ rest) out h =
    let out' = commanded inc (command inc) out in
    (
      commands_from-contains (victim inc) rest out'
          (commanded_self inc (command inc) h.0.0 out h.0.1),
      commands_from-All rest out' h.1,
    )

active-command :
    (m : IncidentManager)
    → IsValid m
    → All (λ inc. (x : IncidentCommand) × (command inc ≡ some x)) (active_incidents m)
active-command m valid =
    All-imp (λ inc. lookup inc.incident_id m.active ≡ some inc) _ (active_incidents m)
      (λ inc e.
        let (id, run, below) =
          Entries-lookup (IsEntry m.next_id) inc.incident_id inc m.active valid.entries e in
        command_of-total inc inc.strategy inc.pocket inc.mask run.0)
      (active_incidents-AreKept m valid).0

-- If a manager's incidents are kept under their numbers, each with a plan and a victim, none is left without a
-- command: its victim has one.
pub commands-contains :
    (m : IncidentManager) (k : ℕ) (inc : Incident)
    → IsValid m
    → lookup k m.active ≡ some inc
    → contains (victim inc) (commands m) ≡ true
unfolding commands
commands-contains m k inc valid e =
    All-active_incidents (λ i. contains (victim i) (commands m) ≡ true) k inc m
      (commands_from-All (active_incidents m) [] (active-command m valid)) e
