-- ===== src/Zones/Safety.antt =====
-- Exclusion over all calls of the manager, and the tokens that a cycle does not take away.
use amr_fleet_system.Prelude.{
  ℕ, ℤ, Bool, true, false, not, ◌==◌, ◌≡◌, refl, inl, inr, none, some, List, [], ◌∷◌, length, all,
  All, arith, Bool-cases,
}
use amr_fleet_system.Prelude.Dict.{Dict, lookup, contains, keys}
use amr_fleet_system.Zones.{
  Direction, Holders, ZoneTokenManager, Cycle, Candidate, Grants, without, held, holds, compatible,
  direction_in, reserve, forget, set_zones, without_robot, new_manager, unique_zones, missing, Held,
  release_robot, release_zone, release, passing, occupy, occupy_zones, occupy_all, zone_free,
  all_free, reserved_for, grant_one, grant_all, settled, granting, update,
}
use amr_fleet_system.Zones.Modes.{
  HasModes, update-same_dir, reserve-same_dir, known_zones-IsExclusive,
}
use amr_fleet_system.Zones.Exclusion.{
  IsExclusive, fewer-IsExclusive, put-IsExclusive, put_all-IsExclusive, setdefault-IsExclusive,
}

abbrev pub Exclusive : ZoneTokenManager → Type 0
Exclusive m = IsExclusive m.same_dir m.same_direction_cos m.holders

lookup-without_self : (k : ℕ) (h : Dict Direction) → lookup k (without k h) ≡ none
lookup-without_self k [] = refl
lookup-without_self k ((i, x) ∷ h) = ground (arith, lookup-without_self k h)

without-fewer :
    (k j : ℕ) (d : Direction) (h : Dict Direction)
    → lookup j (without k h) ≡ some d
    → lookup j h ≡ some d
without-fewer k j d [] found = cc
without-fewer k j d ((i, x) ∷ h) found =
    ground (arith, without-fewer k j d h, lookup-without_self k h)

release_zone-fewer :
    (c : Cycle) (zone j : ℕ) (d : Direction) (robots : List ℕ) (s : Held)
    → lookup j (release_zone c zone robots s).0 ≡ some d
    → lookup j s.0 ≡ some d
unfolding release_zone
release_zone-fewer c zone j d [] s found = found
release_zone-fewer c zone j d (robot ∷ robots) s found =
    let before = release_zone-fewer c zone j d robots (release_robot c zone robot s) found in
    ground (arith, without-fewer robot j d s.0)

release-fewer :
    (c : Cycle) (hs : Holders) (entered : List (ℕ × ℕ)) (z r : ℕ) (d : Direction)
    → held z r (release c hs entered).0 ≡ some d
    → held z r hs ≡ some d
unfolding release
release-fewer c [] entered z r d found = found
release-fewer c ((zone, h) ∷ hs) entered z r d found =
    let s = release_zone c zone (keys h) (h, entered) in
    elim (Bool-cases (z == zone)) [
      | inl here ↦ rw here (release_zone-fewer c zone r d (keys h) (h, entered) (rw here at found))
      | inr other ↦ rw other (release-fewer c hs s.1 z r d (rw other at found))
    ]

occupy-Exclusive :
    (c : Cycle) (robot zone : ℕ) (m : ZoneTokenManager)
    → Exclusive m
    → Exclusive (occupy c robot zone m)
occupy-Exclusive c robot zone m h = elim (Bool-cases (not (contains zone m.same_dir))) [
  | inl unknown ↦ rw unknown h
  | inr known ↦ elim (Bool-cases (holds zone robot m.holders)) [
    | inl has ↦ rw (known, has) h
    | inr absent ↦
        elim (Bool-cases (
          compatible m.same_dir m.same_direction_cos m.holders zone robot (passing c zone robot))) [
            | inl fits ↦
                rw (known, absent, fits)
                  (put-IsExclusive m.same_dir m.same_direction_cos m.holders zone robot
                    (passing c zone robot) fits h)
            | inr clash ↦
                rw (known, absent, clash)
                  (setdefault-IsExclusive m.same_dir m.same_direction_cos m.holders zone h)
          ]
  ]
]

occupy_zones-Exclusive :
    (c : Cycle) (robot : ℕ) (zones : List ℕ) (m : ZoneTokenManager)
    → Exclusive m
    → Exclusive (occupy_zones c robot zones m)
unfolding occupy_zones
occupy_zones-Exclusive c robot [] m h = h
occupy_zones-Exclusive c robot (z ∷ zs) m h =
    occupy_zones-Exclusive c robot zs (occupy c robot z m) (occupy-Exclusive c robot z m h)

occupy_all-Exclusive :
    (c : Cycle) (found : Dict (List ℕ)) (m : ZoneTokenManager)
    → Exclusive m
    → Exclusive (occupy_all c found m)
unfolding occupy_all
occupy_all-Exclusive c [] m h = h
occupy_all-Exclusive c ((robot, zones) ∷ rest) m h =
    occupy_all-Exclusive c rest (occupy_zones c robot zones m)
      (occupy_zones-Exclusive c robot zones m h)

abbrev fits : ZoneTokenManager → Candidate → ℕ → Bool
fits m c z =
    compatible m.same_dir m.same_direction_cos m.holders z c.need.robot
      (direction_in z c.need.request.directions)

unreserved :
    (owners : List ℕ) (b : Bool) → elim owners [ [] ↦ b | o ∷ os ↦ false ] ≡ true → b ≡ true
unreserved [] b h = h
unreserved (o ∷ os) b h = cc

zone_free-fits :
    (g : Grants) (c : Candidate) (z : ℕ) → zone_free g c z ≡ true → fits g.manager c z ≡ true
unfolding zone_free
zone_free-fits g c z h = unreserved (reserved_for z c.need.robot g.reserved) _ h

all_free-fits :
    (g : Grants) (c : Candidate) (zones : List ℕ)
    → all_free g c zones ≡ true
    → All (λ z. fits g.manager c z ≡ true) zones
unfolding all_free
all_free-fits g c [] h = tt
all_free-fits g c (z ∷ zs) h = ground (arith, zone_free-fits g c z, all_free-fits g c zs)

grant_one-Exclusive :
    (now : ℤ) (c : Candidate) (g : Grants)
    → Exclusive g.manager
    → Exclusive (grant_one now c g).manager
unfolding grant_one
grant_one-Exclusive now c g h = elim (Bool-cases (all_free g c c.need.zones)) [
  | inl free ↦ rw free (
      put_all-IsExclusive _ _ c.need.zones c.need.robot c.need.request.directions g.manager.holders
        (all_free-fits g c c.need.zones free) h)
  | inr busy ↦ rw busy h
]

grant_all-Exclusive :
    (now : ℤ) (cs : List Candidate) (g : Grants)
    → Exclusive g.manager
    → Exclusive (grant_all now cs g).manager
unfolding grant_all
grant_all-Exclusive now [] g h = h
grant_all-Exclusive now (c ∷ cs) g h =
    grant_all-Exclusive now cs (grant_one now c g) (grant_one-Exclusive now c g h)

update-Exclusive : (c : Cycle) (m : ZoneTokenManager) → Exclusive m → Exclusive (update c m).1
unfolding update settled granting
update-Exclusive c m h = grant_all-Exclusive c.now _ _ (
    occupy_all-Exclusive c c.occupancy _ (
      fewer-IsExclusive m.same_dir m.same_direction_cos m.holders (release c m.holders m.entered).0
        (release-fewer c m.holders m.entered) h))

all_fit :
    (m : ZoneTokenManager) (robot : ℕ) (ds : Dict Direction) (zones : List ℕ)
    → all
        (λ z. compatible m.same_dir m.same_direction_cos m.holders z robot (direction_in z ds))
        zones
      ≡ true
    → All
        (λ z.
          compatible m.same_dir m.same_direction_cos m.holders z robot (direction_in z ds) ≡ true)
        zones
all_fit m robot ds [] h = tt
all_fit m robot ds (z ∷ zs) h = ground (arith, all_fit m robot ds zs)

reserve-Exclusive :
    (now : ℤ) (robot : ℕ) (zones : List ℕ) (ds : Dict Direction) (m : ZoneTokenManager)
    → Exclusive m
    → Exclusive (reserve now robot zones ds m).1
unfolding reserve
reserve-Exclusive now robot zones ds m h =
    let need = missing m.same_dir m.holders robot (unique_zones [] zones) in
    elim (Bool-cases (
      all (λ z. compatible m.same_dir m.same_direction_cos m.holders z robot (direction_in z ds))
        need)) [
          | inr clash ↦ rw clash h
          | inl free ↦ elim (Bool-cases (length need == 0)) [
            | inl none_needed ↦ rw (free, none_needed) h
            | inr some_needed ↦
                rw (free, some_needed)
                  (put_all-IsExclusive _ _ need robot ds m.holders (all_fit m robot ds need free) h)
          ]
        ]

without_robot-fewer :
    (robot : ℕ) (hs : Holders) (z r : ℕ) (d : Direction)
    → held z r (without_robot robot hs) ≡ some d
    → held z r hs ≡ some d
without_robot-fewer robot [] z r d found = found
without_robot-fewer robot ((zone, h) ∷ hs) z r d found = elim (Bool-cases (z == zone)) [
  | inl here ↦ rw here (without-fewer robot r d h (rw here at found))
  | inr other ↦ rw other (without_robot-fewer robot hs z r d (rw other at found))
]

forget-Exclusive : (robot : ℕ) (m : ZoneTokenManager) → Exclusive m → Exclusive (forget robot m)
unfolding forget
forget-Exclusive robot m h =
    fewer-IsExclusive m.same_dir m.same_direction_cos m.holders (without_robot robot m.holders)
      (without_robot-fewer robot m.holders) h

-- The calls of the traffic manager.
pub data Call : Type 0 where
  cycle : Cycle → Call
  reserve_now : (now : ℤ) (robot : ℕ) (zones : List ℕ) (ds : Dict Direction) → Call
  forget_robot : (robot : ℕ) → Call
  change_zones : (same_direction : Dict Bool) → Call

abbrev pub perform : Call → ZoneTokenManager → ZoneTokenManager
perform (cycle c) m = (update c m).1
perform (reserve_now now robot zones ds) m = (reserve now robot zones ds m).1
perform (forget_robot robot) m = forget robot m
perform (change_zones same_direction) m = set_zones same_direction m

abbrev pub run : List Call → ZoneTokenManager → ZoneTokenManager
run [] m = m
run (c ∷ cs) m = run cs (perform c m)

-- A new table of zones has the given modes.
abbrev pub KeepsModes : (ℕ → Bool) → Call → Type 0
KeepsModes mode (change_zones same_direction) = HasModes mode same_direction
KeepsModes mode _ = Unit

-- Exclusion, and a table with the given modes.
abbrev Safe : (ℕ → Bool) → ZoneTokenManager → Type 0
Safe mode m = HasModes mode m.same_dir × Exclusive m

perform-Safe :
    (mode : ℕ → Bool) (c : Call) (m : ZoneTokenManager)
    → KeepsModes mode c
    → Safe mode m
    → Safe mode (perform c m)
unfolding forget set_zones
perform-Safe mode (cycle c) m keeps (modes, h) =
    (rw (update-same_dir c m) modes, update-Exclusive c m h)
perform-Safe mode (reserve_now now robot zones ds) m keeps (modes, h) =
    (rw (reserve-same_dir now robot zones ds m) modes, reserve-Exclusive now robot zones ds m h)
perform-Safe mode (forget_robot robot) m keeps (modes, h) = (modes, forget-Exclusive robot m h)
perform-Safe mode (change_zones table) m keeps (modes, h) = (
  keeps,
  known_zones-IsExclusive mode m.same_dir table m.same_direction_cos m.holders modes keeps h,
)

run-Safe :
    (mode : ℕ → Bool) (cs : List Call) (m : ZoneTokenManager)
    → All (KeepsModes mode) cs
    → Safe mode m
    → Safe mode (run cs m)
run-Safe mode [] m keeps h = h
run-Safe mode (c ∷ cs) m keeps h =
    run-Safe mode cs (perform c m) keeps.1 (perform-Safe mode c m keeps.0 h)

empty-Exclusive :
    (same_direction : Dict Bool) (max_bypass : ℕ) (cos : ℤ)
    → Exclusive (new_manager same_direction max_bypass cos)
empty-Exclusive same_direction max_bypass cos z r s d e at_r at_s ne = cc

-- Mutual exclusion. After any cycles, reservations, removals and changes of the set of zones on a new
-- manager, whatever the robots ask for, wherever they are seen and whichever are frozen: two robots hold one
-- zone only if its followers are allowed, both directions are known, and the two go the same way. The tables
-- of zones that are given may add and drop zones, but each zone has the same `same_direction` in all of them.
pub run-Exclusive :
    (mode : ℕ → Bool) (same_direction : Dict Bool) (max_bypass : ℕ) (cos : ℤ) (cs : List Call)
    → HasModes mode same_direction
    → All (KeepsModes mode) cs
    → Exclusive (run cs (new_manager same_direction max_bypass cos))
run-Exclusive mode same_direction max_bypass cos cs modes keeps =
    (run-Safe mode cs (new_manager same_direction max_bypass cos) keeps
      (modes, empty-Exclusive same_direction max_bypass cos)).1
