-- ===== src/Zones/Update.antt =====
-- `update`, one cycle: tokens given back, robots found in zones, requests, grants, overtaking.
use amr_fleet_system.Prelude.{
  ℕ, ◌+◌, ℤ, pos, ◌-ℤ◌, neg_ℤ, ltb_ℤ, leb, Bool, true, false, not, ◌&&◌, ◌||◌, ◌==◌, Option, none,
  some, List, [], ◌∷◌, ◌++◌, any, member, if◌then◌else◌,
}
use amr_fleet_system.Prelude.Dict.{Dict, lookup, contains, insert, keys}
use amr_fleet_system.Prelude.Sorting.{sorted_by}
use amr_fleet_system.Zones.Tokens.{
  Direction, TokenRequest, TokenDecision, Wait, Holders, ZoneTokenManager, get_or, without,
  has_pair, add_pair, discard_pair, holders_in, holds, compatible, blockers_of, put, put_all,
  direction_in, log_grant, missing, sorted_ids,
}

-- What the traffic manager passes to a cycle. A set is a list, in the order in which it is iterated.
pub record Cycle : Type 0 where
  pub now : ℤ
  pub requests : Dict TokenRequest
  pub occupancy : Dict (List ℕ)
  pub upcoming : Dict (List ℕ)
  pub directions : Dict (Dict Direction)
  pub frozen : List ℕ

abbrev pub in_zones : ℕ → ℕ → Dict (List ℕ) → Bool
in_zones zone robot d = member zone (get_or (lookup robot d) [])

-- 1) tokens given back

abbrev pub Held : Type 0
Held = Dict Direction × List (ℕ × ℕ)

abbrev pub release_robot : Cycle → ℕ → ℕ → Held → Held
release_robot c zone robot (h, entered) =
    if in_zones zone robot c.occupancy
    then (h, add_pair (robot, zone) entered)
    else if member robot c.frozen
    then (h, entered)
    else if has_pair (robot, zone) entered || not (in_zones zone robot c.upcoming)
    then (without robot h, discard_pair (robot, zone) entered)
    else (h, entered)

unfoldable pub release_zone : Cycle → ℕ → List ℕ → Held → Held
release_zone c zone [] s = s
release_zone c zone (robot ∷ robots) s = release_zone c zone robots (release_robot c zone robot s)

unfoldable pub release : Cycle → Holders → List (ℕ × ℕ) → Holders × List (ℕ × ℕ)
release c [] entered = ([], entered)
release c ((zone, h) ∷ hs) entered =
    let (h', entered') = release_zone c zone (keys h) (h, entered) in
    let (hs', entered'') = release c hs entered' in ((zone, h') ∷ hs', entered'')

-- 2) robots found in zones without a token

-- The direction that is known for a robot in a zone: the cycle's, else its request's.
abbrev pub passing : Cycle → ℕ → ℕ → Direction
passing c zone robot = elim (direction_in zone (get_or (lookup robot c.directions) [])) [
  | some d ↦ some d
  | none ↦ elim (lookup robot c.requests) [
    | none ↦ none
    | some req ↦ direction_in zone req.directions
  ]
]

abbrev pub occupy : Cycle → ℕ → ℕ → ZoneTokenManager → ZoneTokenManager
occupy c robot zone m =
    let d = passing c zone robot in
    if not (contains zone m.same_dir)
    then m
    else if holds zone robot m.holders
    then m
    else if compatible m.same_dir m.same_direction_cos m.holders zone robot d
    then record m {
      holders = put zone robot d m.holders;
      entered = add_pair (robot, zone) m.entered;
    }
    else record m { holders = insert zone (holders_in zone m.holders) m.holders }

unfoldable pub occupy_zones : Cycle → ℕ → List ℕ → ZoneTokenManager → ZoneTokenManager
occupy_zones c robot [] m = m
occupy_zones c robot (z ∷ zs) m = occupy_zones c robot zs (occupy c robot z m)

unfoldable pub occupy_all : Cycle → Dict (List ℕ) → ZoneTokenManager → ZoneTokenManager
occupy_all c [] m = m
occupy_all c ((robot, zones) ∷ rest) m = occupy_all c rest (occupy_zones c robot zones m)

-- 3) requests

-- `need`, in the order of the requests, with the requests themselves
pub record Need : Type 0 where
  pub robot : ℕ
  pub request : TokenRequest
  pub zones : List ℕ

unfoldable pub needs : Dict Bool → Holders → Dict TokenRequest → List Need
needs same_dir hs [] = []
needs same_dir hs ((robot, req) ∷ reqs) =
    let rest = needs same_dir hs reqs in
    elim (missing same_dir hs robot req.zones) [
      | [] ↦ rest
      | z ∷ zs ↦ record { robot = robot; request = req; zones = z ∷ zs } ∷ rest
    ]

abbrev pub need_of : ℕ → List Need → Option Need
need_of robot [] = none
need_of robot (n ∷ ns) = if robot == n.robot then some n else need_of robot ns

-- `set(a) & set(b)`, as a test
abbrev pub meets : List ℕ → List ℕ → Bool
meets a b = any (λ z. member z b) a

unfoldable pub keep_waits : List Need → Dict Wait → Dict Wait
keep_waits ns [] = []
keep_waits ns ((robot, w) ∷ ws) =
    let rest = keep_waits ns ws in
    elim (need_of robot ns) [
      | none ↦ rest
      | some n ↦
          if meets w.zones n.request.zones
          then (robot, record w { zones = n.request.zones }) ∷ rest
          else rest
    ]

unfoldable pub add_waits : ℤ → List Need → ℕ → Dict Wait → ℕ × Dict Wait
add_waits now [] seq ws = (seq, ws)
add_waits now (n ∷ ns) seq ws =
    let fresh : Wait = record {
      zones = n.request.zones;
      since = now;
      seq = seq + 1;
      bypassed = 0;
    } in
    if contains n.robot ws
    then add_waits now ns seq ws
    else add_waits now ns (seq + 1) (insert n.robot fresh ws)

-- 4) grants

-- A robot with its need and its wait.
pub record Candidate : Type 0 where
  pub need : Need
  pub wait : Wait

-- Every robot of `need` waits; one without a wait would be a `KeyError`.
unfoldable pub candidates : Dict Wait → List Need → List Candidate
candidates ws [] = []
candidates ws (n ∷ ns) =
    let rest = candidates ws ns in
    elim (lookup n.robot ws) [ none ↦ rest | some w ↦ record { need = n; wait = w } ∷ rest ]

-- The deadline in a sort key: none is later than all.
abbrev pub deadline_key : Option ℤ → List ℤ → List ℤ
deadline_key none rest = pos 1 ∷ pos 0 ∷ rest
deadline_key (some d) rest = pos 0 ∷ d ∷ rest

-- `key`
unfoldable pub grant_key : ℕ → Candidate → List ℤ
grant_key max_bypass c =
    let req = c.need.request in
    let w = c.wait in
    if leb max_bypass w.bypassed
    then pos 0
      ∷ w.since
      ∷ neg_ℤ req.priority
      ∷ deadline_key req.deadline (pos w.seq ∷ pos c.need.robot ∷ [])
    else pos 1
      ∷ neg_ℤ req.priority
      ∷ deadline_key req.deadline (w.since ∷ pos w.seq ∷ pos c.need.robot ∷ [])

pub record Grants : Type 0 where
  pub manager : ZoneTokenManager
  pub reserved : Dict ℕ
  pub granted : Dict (List ℕ)
  pub blocked : Dict (List ℕ)

-- Whether another robot has reserved the zone, and which.
abbrev pub reserved_for : ℕ → ℕ → Dict ℕ → List ℕ
reserved_for zone robot reserved = elim (lookup zone reserved) [
  | none ↦ []
  | some owner ↦ if owner == robot then [] else owner ∷ []
]

-- The robots in the way of a candidate in one zone, and whether it may enter.
unfoldable pub zone_free : Grants → Candidate → ℕ → Bool
zone_free g c zone =
    let m = g.manager in
    let robot = c.need.robot in
    elim (reserved_for zone robot g.reserved) [
      | [] ↦
          compatible m.same_dir m.same_direction_cos m.holders zone robot
            (direction_in zone c.need.request.directions)
      | o ∷ os ↦ false
    ]

unfoldable pub all_free : Grants → Candidate → List ℕ → Bool
all_free g c [] = true
all_free g c (z ∷ zs) = zone_free g c z && all_free g c zs

unfoldable pub in_the_way : Grants → Candidate → List ℕ → List ℕ
in_the_way g c [] = []
in_the_way g c (z ∷ zs) =
    let m = g.manager in
    let robot = c.need.robot in
    let ok =
      compatible m.same_dir m.same_direction_cos m.holders z robot
        (direction_in z c.need.request.directions) in
    reserved_for z robot g.reserved
    ++ (if ok then [] else blockers_of m.holders z robot)
    ++ in_the_way g c zs

-- `sorted(set(ids))`
abbrev pub dedup : List ℕ → List ℕ
dedup [] = []
dedup (k ∷ ks) = if member k ks then dedup ks else k ∷ dedup ks

-- `reserved.setdefault(zone, robot)` for the zones
abbrev pub reserve_zones : ℕ → List ℕ → Dict ℕ → Dict ℕ
reserve_zones robot [] reserved = reserved
reserve_zones robot (z ∷ zs) reserved =
    reserve_zones robot zs (if contains z reserved then reserved else insert z robot reserved)

unfoldable pub grant_one : ℤ → Candidate → Grants → Grants
unfolding all_free in_the_way
grant_one now c g =
    let m = g.manager in
    let robot = c.need.robot in
    if all_free g c c.need.zones
    then record g {
      manager = record m {
        holders = put_all c.need.zones robot c.need.request.directions m.holders;
        grant_log = log_grant (now, robot, c.need.zones) m.grant_log;
      };
      granted = insert robot c.need.zones g.granted;
    }
    else record g {
      blocked = insert robot (sorted_ids (dedup (in_the_way g c c.need.zones))) g.blocked;
      reserved =
          if leb m.max_bypass c.wait.bypassed
          then reserve_zones robot c.need.zones g.reserved
          else g.reserved;
    }

unfoldable pub grant_all : ℤ → List Candidate → Grants → Grants
grant_all now [] g = g
grant_all now (c ∷ cs) g = grant_all now cs (grant_one now c g)

-- 5) overtaking

abbrev pub since_of : ℕ → Dict Wait → ℤ → ℤ
since_of robot ws default = elim (lookup robot ws) [ none ↦ default | some w ↦ w.since ]

-- How many of the granted robots came later than a waiting one and got one of its zones.
abbrev pub overtakers : Dict Wait → ℤ → List ℕ → Dict (List ℕ) → ℕ
overtakers ws since zones [] = 0
overtakers ws since zones ((other, got) ∷ rest) =
    let n = overtakers ws since zones rest in
    if meets got zones && ltb_ℤ since (since_of other ws since) then n + 1 else n

unfoldable pub count_bypass : Dict (List ℕ) → List Need → Dict Wait → Dict Wait
count_bypass granted [] ws = ws
count_bypass granted (n ∷ ns) ws =
    let counted : Dict Wait = elim (lookup n.robot ws) [
      | none ↦ ws
      | some w ↦
          insert n.robot
            (record w { bypassed = w.bypassed + overtakers ws w.since n.zones granted }) ws
    ] in
    count_bypass granted ns (if contains n.robot granted then ws else counted)

abbrev pub remove_waits : Dict (List ℕ) → Dict Wait → Dict Wait
remove_waits [] ws = ws
remove_waits ((robot, zones) ∷ rest) ws = remove_waits rest (without robot ws)

-- the result

abbrev pub granted_decision : TokenRequest → TokenDecision
granted_decision req = record {
  granted = true;
  zones = req.zones;
  blockers = [];
  waiting_s = pos 0;
  bypassed = 0;
}

abbrev pub waiting_decision : ℤ → TokenRequest → List ℕ → Wait → TokenDecision
waiting_decision now req blockers w = record {
  granted = false;
  zones = req.zones;
  blockers = blockers;
  waiting_s = now -ℤ w.since;
  bypassed = w.bypassed;
}

-- Every robot that is still in need waits; one without a wait would be a `KeyError`.
unfoldable pub decisions :
    ℤ → List Need → Grants → Dict Wait → Dict TokenRequest → Dict TokenDecision
decisions now ns g ws [] = []
decisions now ns g ws ((robot, req) ∷ reqs) =
    let rest = decisions now ns g ws reqs in
    elim (need_of robot ns) [
      | none ↦ (robot, granted_decision req) ∷ rest
      | some n ↦
          if contains robot g.granted
          then (robot, granted_decision req) ∷ rest
          else elim (lookup robot ws) [
            | none ↦ rest
            | some w ↦
                (robot, waiting_decision now req (get_or (lookup robot g.blocked) []) w) ∷ rest
          ]
    ]

-- The manager after steps 1 and 2.
unfoldable pub settled : Cycle → ZoneTokenManager → ZoneTokenManager
settled c m =
    let (holders, entered) = release c m.holders m.entered in
    occupy_all c c.occupancy (record m { holders = holders; entered = entered })

-- The manager with the waits of this cycle.
abbrev pub with_waits : Cycle → List Need → ZoneTokenManager → ZoneTokenManager
with_waits c ns m =
    let (seq, waits) = add_waits c.now ns m.seq (keep_waits ns m.waits) in
    record m { seq = seq; waits = waits }

abbrev pub no_grants : ZoneTokenManager → Grants
no_grants m = record { manager = m; reserved = []; granted = []; blocked = [] }

unfoldable pub granting : Cycle → List Need → ZoneTokenManager → Grants
granting c ns m =
    grant_all c.now (sorted_by (grant_key m.max_bypass) (candidates m.waits ns)) (no_grants m)

unfoldable pub update : Cycle → ZoneTokenManager → Dict TokenDecision × ZoneTokenManager
update c m =
    let m₁ = settled c m in
    let ns = needs m₁.same_dir m₁.holders c.requests in
    let m₂ = with_waits c ns m₁ in
    let g = granting c ns m₂ in
    let waits = remove_waits g.granted (count_bypass g.granted ns m₂.waits) in
    (decisions c.now ns g waits c.requests, record g.manager { waits = waits })
