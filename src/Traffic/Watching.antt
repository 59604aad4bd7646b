-- ===== src/Traffic/Watching.antt =====
-- The watch over long waits for tokens: `_token_watch`.
use amr_fleet_system.Prelude.{
  ℕ, suc, ℤ, pos, leb_ℤ, ltb, not, ◌&&◌, ◌==◌, none, some, List, [], ◌∷◌, ◌++◌, filter, member,
  if◌then◌else◌,
}
use amr_fleet_system.Prelude.Dict.{Dict, lookup, contains, insert}
use amr_fleet_system.Prelude.Sorting.{sorted_by}
use amr_fleet_system.Zones.{TokenDecision}

-- `TRAFFIC_STALL` and `TRAFFIC_UNRESOLVED`
pub data TrafficName : Type 0 where
  stall_event unresolved_event : TrafficName

pub record TrafficEvent : Type 0 where
  pub name : TrafficName
  pub robot : ℕ
  pub robots : List ℕ
  pub blockers : List ℕ
  pub zones : List ℕ
  pub waiting_s : ℤ

pub record WatchParams : Type 0 where
  pub token_wait_stall_s : ℤ
  pub wait_max_s : ℤ

-- `_token_watch_level`, the events so far and the count of failures.
pub record Watch : Type 0 where
  pub levels : Dict ℕ
  pub events : List TrafficEvent
  pub unresolved : ℕ

abbrev pub level_of : ℕ → Dict ℕ → ℕ
level_of r levels = elim (lookup r levels) [ none ↦ 0 | some n ↦ n ]

abbrev pub watch_event : TrafficName → List ℕ → ℕ → TokenDecision → TrafficEvent
watch_event name robots r dec = record {
  name = name;
  robot = r;
  robots = robots;
  blockers = dec.blockers;
  zones = dec.zones;
  waiting_s = dec.waiting_s;
}

abbrev pub watch_stall : WatchParams → ℕ → TokenDecision → Watch → Watch
watch_stall p r dec w =
    if ltb (level_of r w.levels) 1 && leb_ℤ p.token_wait_stall_s dec.waiting_s
    then record w {
      levels = insert r 1 w.levels;
      events = w.events ++ watch_event stall_event (r ∷ []) r dec ∷ [];
    }
    else w

abbrev pub watch_max : WatchParams → ℕ → TokenDecision → Watch → Watch
watch_max p r dec w =
    let robots = r ∷ filter (λ b. not (b == r)) dec.blockers in
    if ltb (level_of r w.levels) 2 && leb_ℤ p.wait_max_s dec.waiting_s
    then record w {
      levels = insert r 2 w.levels;
      events = w.events ++ watch_event unresolved_event robots r dec ∷ [];
      unresolved = suc w.unresolved;
    }
    else w

-- One turn of the loop; the robots of incidents are left to these.
abbrev pub watch_one : WatchParams → List ℕ → ℕ → TokenDecision → Watch → Watch
watch_one p members r dec w =
    if member r members then w else watch_max p r dec (watch_stall p r dec w)

unfoldable pub watch_each : WatchParams → List ℕ → Dict TokenDecision → Watch → Watch
watch_each p members [] w = w
watch_each p members ((r, dec) ∷ rest) w = watch_each p members rest (watch_one p members r dec w)

-- The levels of the robots that wait no longer are dropped.
abbrev pub waiting_levels : Dict TokenDecision → Dict ℕ → Dict ℕ
waiting_levels waits [] = []
waiting_levels waits ((r, n) ∷ rest) =
    let more = waiting_levels waits rest in if contains r waits then (r, n) ∷ more else more

unfoldable pub token_watch : WatchParams → List ℕ → Dict TokenDecision → Watch → Watch
unfolding watch_each
token_watch p members waits w =
    watch_each p members (sorted_by (λ e. pos e.0 ∷ []) waits)
      (record w { levels = waiting_levels waits w.levels })
