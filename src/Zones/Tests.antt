-- ===== src/Zones/Tests.antt =====
-- `ZoneTokenManager` on a crossing and a corridor, and the theorems there.
use amr_fleet_system.Prelude.{
  ℕ, ℤ, pos, negsuc, ◌+ℤ◌, ◌-ℤ◌, ◌*ℤ◌, ◌≡◌, refl, Bool, true, false, none, some, List, [], ◌∷◌,
  ◌++◌, ◌==◌,
}
use amr_fleet_system.Prelude.Dict.{Dict}
use amr_fleet_system.Prelude.Sorting.{sorted_by, insert_sorted}
use amr_fleet_system.Zones.{
  Direction, TokenRequest, ZoneTokenManager, Cycle, new_manager, compatible, reserve, forget,
  set_zones, holders_of, held_by, entered_by, holds, release_zone, release, occupy_zones,
  occupy_all, needs, keep_waits, add_waits, candidates, grant_key, zone_free, all_free, in_the_way,
  blockers_of, grant_one, grant_all, count_bypass, decisions, settled, granting, update,
}
use amr_fleet_system.Zones.Safety.{Exclusive, Call, cycle, change_zones, run, run-Exclusive}
use amr_fleet_system.Zones.Keeping.{update-keeps}

program : Unit {0}
unfolding compatible reserve forget set_zones holders_of held_by entered_by release_zone release
    occupy_zones occupy_all needs keep_waits add_waits candidates grant_key zone_free all_free
    in_the_way blockers_of grant_one grant_all count_bypass decisions settled granting update
    sorted_by insert_sorted ◌+ℤ◌ ◌-ℤ◌ ◌*ℤ◌
program = tt

-- Zone 1 is a crossing, zone 2 a corridor in which robots may follow each other.
abbrev zones : Dict Bool
zones = (1, false) ∷ (2, true) ∷ []

abbrev east : Direction
east = some (pos 1, pos 0)

abbrev west : Direction
west = some (negsuc 0, pos 0)

abbrev request : ℕ → ℕ → Direction → ℤ → TokenRequest
request robot zone d priority = record {
  robot_id = robot;
  zones = zone ∷ [];
  directions = (zone, d) ∷ [];
  priority = priority;
  deadline = none;
}

abbrev asking : ℤ → Dict TokenRequest → Dict (List ℕ) → List ℕ → Cycle
asking now requests occupancy frozen = record {
  now = now;
  requests = requests;
  occupancy = occupancy;
  upcoming = (7, 1 ∷ 2 ∷ []) ∷ (8, 1 ∷ 2 ∷ []) ∷ (9, 2 ∷ []) ∷ [];
  directions = [];
  frozen = frozen;
}

abbrev first_cycle : Cycle
first_cycle =
    asking (pos 0) ((7, request 7 1 east (pos 1)) ∷ (8, request 8 1 east (pos 5)) ∷ []) [] []

abbrev manager : ZoneTokenManager
manager = new_manager zones 2 (pos 1)

-- Both want the crossing: the higher priority gets it.
first_cycle-decisions :
    (update first_cycle manager).0
    ≡ (
      7,
      record {
        granted = false;
        zones = 1 ∷ [];
        blockers = 8 ∷ [];
        waiting_s = pos 0;
        bypassed = 0;
      },
    )
      ∷ (
        8,
        record { granted = true; zones = 1 ∷ []; blockers = []; waiting_s = pos 0; bypassed = 0 },
      )
      ∷ []
unfolding program
first_cycle-decisions = refl

-- In the corridor the second robot follows, and the one that comes the other way waits.
abbrev corridor : List Call
corridor =
    cycle (asking (pos 0) ((7, request 7 2 east (pos 1)) ∷ []) [] [])
    ∷ cycle (
        asking (pos 1) ((9, request 9 2 west (pos 9)) ∷ (8, request 8 2 east (pos 1)) ∷ [])
          ((7, 2 ∷ []) ∷ []) [])
    ∷ []

holders_of-corridor : holders_of 2 (run corridor manager) ≡ 7 ∷ 8 ∷ []
unfolding program
holders_of-corridor = refl

entered_by-corridor : entered_by 7 (run corridor manager) ≡ 2 ∷ []
unfolding program
entered_by-corridor = refl

-- Robot 7 leaves the corridor and gives the token back; robot 8 is not observed and keeps it.
abbrev left : Cycle
left = record (asking (pos 2) [] [] (8 ∷ [])) { upcoming = [] }

holders_of-left : holders_of 2 (update left (run corridor manager)).1 ≡ 8 ∷ []
unfolding program
holders_of-left = refl

held_by-forget : held_by 8 (forget 8 (run corridor manager)) ≡ []
unfolding program
held_by-forget = refl

holds-eight : holds 2 8 (run corridor manager).holders ≡ true
unfolding program
holds-eight = refl

reserve-clash : (reserve (pos 3) 9 (2 ∷ []) ((2, west) ∷ []) (run corridor manager)).0 ≡ false
unfolding program
reserve-clash = refl

-- The corridor stays when the crossing goes, and another crossing comes.
abbrev rebuilt : List Call
rebuilt = corridor ++ change_zones ((2, true) ∷ (3, false) ∷ []) ∷ corridor

unfoldable is_corridor : ℕ → Bool
is_corridor z = z == 2

run-Exclusive_example : Exclusive (run rebuilt manager)
unfolding is_corridor
run-Exclusive_example =
    run-Exclusive is_corridor zones 2 (pos 1) rebuilt (refl, (refl, tt))
      (tt, (tt, ((refl, (refl, tt)), (tt, (tt, tt)))))

update-keeps_example : holds 2 8 (update left (run corridor manager)).1.holders ≡ true
update-keeps_example = update-keeps left (run corridor manager) 2 8 refl holds-eight
