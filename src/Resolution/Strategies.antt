-- ===== src/Resolution/Strategies.antt =====
-- The transitions of an incident: its strategies, the change of the victim, and its end.
use amr_fleet_system.Prelude.{
  ℕ, ℤ, ◌+ℤ◌, ◌-ℤ◌, Bool, true, false, ◌&&◌, ◌==◌, Option, none, some, List, [], ◌∷◌, ◌++◌, length,
  filter, member, leb, if◌then◌else◌,
}
use amr_fleet_system.Prelude.Dict.{Dict, lookup, erase}
use amr_fleet_system.Deadlock.Confirmer.{sorted_set}
use amr_fleet_system.Resolution.Types.{
  Point, Strategy, EventKind, resolved, unresolved, Reason, Attempt, Incident, victim,
  ResolutionEvent, Closed, at_time, forever, IncidentManager, Cycle, Outcome,
}

-- `_event`, without the values that only some events have.
abbrev pub event : EventKind → Incident → ℤ → ResolutionEvent
event kind inc now = record {
  kind = kind;
  incident_id = inc.incident_id;
  time = now;
  robots = inc.robots;
  deadlock_kind = inc.kind;
  attempts = inc.attempts;
  zones = sorted_set inc.contested_zones;
  at = filter (λ e. member e.0 inc.robots) inc.contested_points;
  immobile = inc.immobile;
  victim = victim inc;
  reason = none;
  strategy = none;
  resolve_time_s = none;
  pocket = none;
}

abbrev pub pocket_of : Incident → Option ℕ
pocket_of inc = elim inc.pocket [ none ↦ none | some p ↦ some p.pocket_id ]

-- A dict keyed by frozensets, which stand as sorted lists.
abbrev pub same_ids : List ℕ → List ℕ → Bool
same_ids [] [] = true
same_ids [] (y ∷ ys) = false
same_ids (x ∷ xs) [] = false
same_ids (x ∷ xs) (y ∷ ys) = (x == y) && same_ids xs ys

module _ {V : Type 0} where
  abbrev pub lookup_set : List ℕ → List (List ℕ × V) → Option V
  lookup_set sig [] = none
  lookup_set sig ((s, v) ∷ rest) = if same_ids sig s then some v else lookup_set sig rest

  abbrev pub insert_set : List ℕ → V → List (List ℕ × V) → List (List ℕ × V)
  insert_set sig v [] = (sig, v) ∷ []
  insert_set sig v ((s, w) ∷ rest) =
      if same_ids sig s then (s, v) ∷ rest else (s, w) ∷ insert_set sig v rest

  abbrev pub erase_set : List ℕ → List (List ℕ × V) → List (List ℕ × V)
  erase_set sig [] = []
  erase_set sig ((s, w) ∷ rest) = if same_ids sig s then rest else (s, w) ∷ erase_set sig rest

abbrev pub signature : Incident → List ℕ
signature inc = sorted_set inc.robots

unfoldable pub reset_robot : ℕ → IncidentManager → IncidentManager
reset_robot r m = record m { robot_attempts = erase r m.robot_attempts; anchor = erase r m.anchor }

unfoldable pub reset_robots : List ℕ → IncidentManager → IncidentManager
reset_robots [] m = m
reset_robots (r ∷ rs) m = reset_robots rs (reset_robot r m)

abbrev pub history_max : ℕ
history_max = 1000

abbrev without_first : List Closed → List Closed
without_first [] = []
without_first (x ∷ xs) = xs

abbrev closed : EventKind → Incident → ℤ → Option Reason → Closed
closed outcome inc now reason = record {
  incident = inc.incident_id;
  robots = inc.robots;
  kind = inc.kind;
  outcome = outcome;
  strategy = inc.strategy;
  victim = victim inc;
  resolve_s = now -ℤ inc.detected_at;
  attempts = inc.attempts;
  reason = reason;
}

-- `deque(maxlen=...).append`
abbrev pub remember_closed : Closed → IncidentManager → IncidentManager
remember_closed x m =
    let longer = m.history ++ x ∷ [] in
    record m { history = if leb (length longer) history_max then longer else without_first longer }

-- `_resolved`
unfoldable pub resolve : ℤ → Incident → IncidentManager → Outcome
resolve now inc m = record {
  manager =
      remember_closed (closed resolved inc now none)
        (record m { active = erase inc.incident_id m.active });
  incident = inc;
  events =
      record (event resolved inc now) {
        strategy = some inc.strategy;
        resolve_time_s = some (now -ℤ inc.detected_at);
        pocket = pocket_of inc;
      }
      ∷ [];
}

-- The cooldown of the set, which has no end while robots of it cannot move.
abbrev pub cool_down_for : ℤ → List ℕ → List ℕ → IncidentManager → IncidentManager
cool_down_for now sig [] m = record m {
  cooldown = insert_set sig (at_time (now +ℤ m.cfg.cooldown_s)) m.cooldown;
}
cool_down_for now sig (r ∷ rs) m = record m {
  cooldown = insert_set sig forever m.cooldown;
  stuck = insert_set sig (sorted_set (r ∷ rs)) m.stuck;
}

abbrev pub cool_down : ℤ → Incident → IncidentManager → IncidentManager
cool_down now inc m = cool_down_for now (signature inc) inc.immobile m

-- `_unresolved`
unfoldable pub give_up : ℤ → Incident → Reason → IncidentManager → Outcome
give_up now inc why m =
    let m₁ = cool_down now inc (record m { active = erase inc.incident_id m.active }) in
    record {
      manager = remember_closed (closed unresolved inc now (some why)) (reset_robots inc.robots m₁);
      incident = inc;
      events =
          record (event unresolved inc now) {
            reason = some why;
            strategy = some inc.strategy;
            resolve_time_s = some (now -ℤ inc.detected_at);
          }
          ∷ [];
    }

abbrev pub positions : Cycle → List ℕ → Dict Point
positions c [] = []
positions c (r ∷ rs) = elim (lookup r c.world.robots) [
  | none ↦ positions c rs
  | some v ↦ (r, v.xy) ∷ positions c rs
]

-- `_begin`
abbrev pub begin : Cycle → Strategy → Incident → Incident
begin c s inc = record inc {
  strategy = s;
  step_started = c.now;
  step_positions = positions c inc.robots;
}

abbrev pub add_attempt : Attempt → Incident → Incident
add_attempt a inc = record inc { attempts = inc.attempts ++ a ∷ [] }
