-- ===== src/Traffic/Crossing.antt =====
-- The robots that yield at a crossing, and whom they wait for.
use amr_fleet_system.Prelude.{
  ℕ, zero, suc, ℤ, pos, ◌-ℤ◌, ltb_ℤ, leb_ℤ, min_ℤ, Bool, true, false, not, ◌&&◌, ◌||◌, ◌==◌, Option,
  none, some, List, [], ◌∷◌, ◌++◌, length, any, filter, member, if◌then◌else◌,
}
use amr_fleet_system.Prelude.Dict.{Dict, lookup, contains, insert, keys}
use amr_fleet_system.Prelude.Sorting.{sorted_by}
use amr_fleet_system.Deadlock.Confirmer.{sorted_set}
use amr_fleet_system.Zones.{ZoneTokenManager, TokenDecision, entered_by}
use amr_fleet_system.Resolution.{
  Point, Way, ConflictKind, head_on, crossing, following, RobotView, Geometry, ZoneMap,
  IncidentManager, members, lookup_set, insert_set, erase_set, same_ids, reverse_rank_of,
}

pub record Conflict : Type 0 where
  pub robot_a : ℕ
  pub robot_b : ℕ
  pub kind : ConflictKind
  pub t_a : ℤ
  pub t_b : ℤ
  pub at : Point

abbrev pub time_of : ℕ → Conflict → ℤ
time_of r c = if r == c.robot_a then c.t_a else c.t_b

-- `_CrossLatch`
pub record CrossLatch : Type 0 where
  pub yielder : ℕ
  pub other : ℕ
  pub since : ℤ

-- The loop of `_leads_to`, on fuel.
abbrev pub follow : (ℕ → Bool) → Option ℕ → Bool
follow go none = false
follow go (some node) = go node

unfoldable pub walk : ℕ → List ℕ → Dict ℕ → ℕ → ℕ → Bool
walk zero seen chain target node = false
walk (suc n) seen chain target node =
    if member node seen
    then false
    else if node == target
    then true
    else follow (walk n (node ∷ seen) chain target) (lookup node chain)

-- `_leads_to`: the nodes that are left behind are keys of the chain.
unfoldable pub leads_to : Dict ℕ → ℕ → ℕ → Bool
unfolding walk
leads_to chain start target = walk (suc (length chain)) [] chain target start

-- The parameters that the crossing reads.
pub record CrossingParams : Type 0 where
  pub crossing_min_s : ℤ
  pub crossing_act_s : ℤ
  pub crossing_max_hold_s : ℤ
  pub safety_distance : ℤ

-- What does not change in a cycle.
pub record Scene : Type 0 where
  pub geometry : Geometry
  pub params : CrossingParams
  pub now : ℤ
  pub views : Dict RobotView
  pub zone_map : ZoneMap
  pub tokens_on : Bool
  pub moving : List ℕ
  pub busy : List ℕ
  pub pinned : List ℕ

-- `out`, `_latches` and `seen`.
pub record Holds : Type 0 where
  pub out : Dict ℕ
  pub latches : List (List ℕ × CrossLatch)
  pub seen : List (List ℕ)

abbrev pub is_empty : List ℕ → Bool
is_empty [] = true
is_empty (x ∷ xs) = false

-- A robot in a zone, or with the token of a zone that it has entered.
unfoldable pub pinned_robots : ZoneTokenManager → Dict RobotView → List ℕ
pinned_robots tokens [] = []
pinned_robots tokens ((r, v) ∷ rest) =
    let more = pinned_robots tokens rest in
    if not (is_empty v.zones) || not (is_empty (entered_by r tokens)) then r ∷ more else more

abbrev pub busy_robots : IncidentManager → List ℕ → Dict TokenDecision → List ℕ
busy_robots incidents yielding token_waits = members incidents ++ yielding ++ keys token_waits

abbrev pub is_crossing : ConflictKind → Bool
is_crossing crossing = true
is_crossing head_on = false
is_crossing following = false

-- A conflict that the crossing takes no part in.
abbrev pub in_zone : Option ℕ → Bool
in_zone none = false
in_zone (some z) = true

abbrev pub passed_over : Scene → Conflict → Bool
passed_over s c =
    not (is_crossing c.kind)
    || not (member c.robot_a s.moving)
    || not (member c.robot_b s.moving)
    || member c.robot_a s.busy
    || member c.robot_b s.busy
    || (s.tokens_on && in_zone (s.zone_map.zone_at c.at))

abbrev pub pair_of : Conflict → List ℕ
pair_of c = sorted_set (c.robot_a ∷ c.robot_b ∷ [])

-- The less important robot first, of those that can be stopped.
abbrev pub yielders : Scene → Conflict → List ℕ
yielders s c =
    filter (λ r. not (member r s.pinned) && leb_ℤ s.params.crossing_min_s (time_of r c))
      (sorted_by (λ r. reverse_rank_of (lookup r s.views)) (c.robot_a ∷ c.robot_b ∷ []))

-- `_ahead`, 3 m
abbrev pub ahead_on : Geometry → Option Way → Option Way
ahead_on g none = none
ahead_on g (some []) = none
ahead_on g (some (p ∷ [])) = none
ahead_on g (some (p ∷ q ∷ more)) =
    let way = p ∷ q ∷ more in some (g.sub_path way (pos 0) (min_ℤ (g.total_length way) (pos 3000)))

abbrev pub near_way : Scene → Option RobotView → Option Way → Bool
near_way s none ahead = false
near_way s (some v) none = false
near_way s (some v) (some way) =
    ltb_ℤ (s.geometry.distance_to_path v.xy way) s.params.safety_distance

abbrev pub ahead_of : Scene → Option RobotView → Option Way
ahead_of s none = none
ahead_of s (some v) = ahead_on s.geometry v.path

-- Whether the one that would yield stands in the other's way.
abbrev pub in_the_way_of : Scene → ℕ → ℕ → Bool
in_the_way_of s y o = near_way s (lookup y s.views) (ahead_of s (lookup o s.views))

abbrev pub latch_for : Scene → Conflict → Dict ℕ → List ℕ → Option CrossLatch
latch_for s c out [] = none
latch_for s c out (y ∷ rest) =
    let o = if y == c.robot_a then c.robot_b else c.robot_a in
    if ltb_ℤ s.params.crossing_act_s (time_of y c)
      || contains y out
      || in_the_way_of s y o
      || leads_to out o y
    then none
    else some (record { yielder = y; other = o; since = s.now })

abbrev pub hold_by : Scene → List ℕ → CrossLatch → Holds → Holds
hold_by s pair l h =
    let h' : Holds = record h { seen = pair ∷ h.seen } in
    if leb_ℤ (s.now -ℤ l.since) s.params.crossing_max_hold_s
      && not (contains l.yielder h.out)
      && not (leads_to h.out l.other l.yielder)
    then record h' { out = insert l.yielder l.other h.out }
    else h'

abbrev pub latched : Scene → List ℕ → Option CrossLatch → Holds → Holds
latched s pair none h = h
latched s pair (some l) h = hold_by s pair l (record h { latches = insert_set pair l h.latches })

-- A latch whose robot is pinned by now is dropped, and the pair is looked at anew.
abbrev pub with_latch : Scene → Conflict → Option CrossLatch → Holds → Holds
with_latch s c none h = latched s (pair_of c) (latch_for s c h.out (yielders s c)) h
with_latch s c (some l) h =
    if member l.yielder s.pinned
    then latched s (pair_of c) (latch_for s c h.out (yielders s c))
        (record h { latches = erase_set (pair_of c) h.latches })
    else hold_by s (pair_of c) l h

unfoldable pub consider : Scene → Conflict → Holds → Holds
unfolding leads_to
consider s c h = if passed_over s c then h else with_latch s c (lookup_set (pair_of c) h.latches) h

unfoldable pub consider_all : Scene → List Conflict → Holds → Holds
unfolding consider
consider_all s [] h = h
consider_all s (c ∷ rest) h = consider_all s rest (consider s c h)

abbrev pub seen_latches : List (List ℕ) → List (List ℕ × CrossLatch) → List (List ℕ × CrossLatch)
seen_latches seen [] = []
seen_latches seen ((pair, l) ∷ rest) =
    let more = seen_latches seen rest in if any (same_ids pair) seen then (pair, l) ∷ more else more

-- `_crossing_holds`: who yields to whom, and the latches that are left.
unfoldable pub crossing_holds :
    Scene → List Conflict → List (List ℕ × CrossLatch) → Dict ℕ × List (List ℕ × CrossLatch)
unfolding consider_all
crossing_holds s conflicts latches =
    let h = consider_all s conflicts (record { out = []; latches = latches; seen = [] }) in
    (h.out, seen_latches h.seen h.latches)

-- The scene of a cycle of the traffic manager.
abbrev pub scene_of :
    Geometry
    → CrossingParams
    → ℤ
    → Dict RobotView
    → ZoneMap
    → Bool
    → List ℕ
    → List ℕ
    → Dict TokenDecision
    → ZoneTokenManager
    → IncidentManager
    → Scene
scene_of g params now views zm on moving yielding token_waits tokens incidents = record {
  geometry = g;
  params = params;
  now = now;
  views = views;
  zone_map = zm;
  tokens_on = on;
  moving = moving;
  busy = busy_robots incidents yielding token_waits;
  pinned = pinned_robots tokens views;
}
