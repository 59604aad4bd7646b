-- ===== src/Zones/Keeping.antt =====
-- The tokens that a cycle leaves with their robots.
use amr_fleet_system.Prelude.{
  ℕ, ℤ, true, false, not, ◌||◌, ◌==◌, ◌≡◌, ◌≢◌, subst, inl, inr, List, [], ◌∷◌, member, arith,
  Bool-cases,
}
use amr_fleet_system.Prelude.Dict.{Dict, contains, insert, keys, lookup-insert}
use amr_fleet_system.Zones.{
  Direction, Holders, ZoneTokenManager, Cycle, Candidate, Grants, without, holders_in, holds,
  compatible, put, put_all, direction_in, in_zones, Held, release_robot, release_zone, release,
  passing, occupy, occupy_zones, occupy_all, all_free, grant_one, grant_all, settled, granting,
  update,
}
use amr_fleet_system.Zones.Exclusion.{lookup-without}

-- A robot that is in the zone, or that is not observed at the moment.
abbrev pub Stays : Cycle → ℕ → ℕ → Type 0
Stays c zone robot = (in_zones zone robot c.occupancy || member robot c.frozen) ≡ true

contains-insert :
    (j k : ℕ) (e : Direction) (h : Dict Direction)
    → contains j h ≡ true
    → contains j (insert k e h) ≡ true
contains-insert j k e h has = ground (arith, lookup-insert j k e h)

holds-put :
    (z r zone robot : ℕ) (e : Direction) (hs : Holders)
    → holds z r hs ≡ true
    → holds z r (put zone robot e hs) ≡ true
holds-put z r zone robot e hs has = ground (
  arith,
  lookup-insert z zone (insert robot e (holders_in zone hs)) hs,
  contains-insert r robot e (holders_in zone hs),
)

holds-put_all :
    (z r : ℕ) (zones : List ℕ) (robot : ℕ) (ds : Dict Direction) (hs : Holders)
    → holds z r hs ≡ true
    → holds z r (put_all zones robot ds hs) ≡ true
holds-put_all z r [] robot ds hs has = has
holds-put_all z r (x ∷ xs) robot ds hs has =
    holds-put_all z r xs robot ds (put x robot (direction_in x ds) hs)
      (holds-put z r x robot (direction_in x ds) hs has)

contains-without :
    (k j : ℕ) (h : Dict Direction) → k ≢ j → contains j h ≡ true → contains j (without k h) ≡ true
contains-without k j h ne has = ground (arith, lookup-without k j h ne)

impossible : false ≢ true
impossible e = cc

module _ (c : Cycle) (zone r : ℕ) (stays : Stays c zone r) where
  release_robot-keeps :
      (robot : ℕ) (s : Held)
      → contains r s.0 ≡ true
      → contains r (release_robot c zone robot s).0 ≡ true
  release_robot-keeps robot s has = elim (Bool-cases (robot == r)) [
    | inr other ↦ ground (arith, contains-without robot r s.0)
    | inl same ↦
        let eq : r ≡ robot = ground arith in
        let here = subst (Stays c zone) eq stays in
        elim (Bool-cases (in_zones zone robot c.occupancy)) [
          | inl inside ↦ rw inside has
          | inr outside ↦ elim (Bool-cases (member robot c.frozen)) [
            | inl frozen ↦ rw (outside, frozen) has
            | inr moving ↦ absurd (impossible (rw (outside, moving) at here))
          ]
        ]
  ]

  release_zone-keeps :
      (robots : List ℕ) (s : Held)
      → contains r s.0 ≡ true
      → contains r (release_zone c zone robots s).0 ≡ true
  unfolding release_zone
  release_zone-keeps [] s has = has
  release_zone-keeps (robot ∷ robots) s has =
      release_zone-keeps robots (release_robot c zone robot s) (release_robot-keeps robot s has)

  release-keeps :
      (hs : Holders) (entered : List (ℕ × ℕ))
      → holds zone r hs ≡ true
      → holds zone r (release c hs entered).0 ≡ true
  unfolding release
  release-keeps [] entered has = has
  release-keeps ((z, h) ∷ hs) entered has = elim (Bool-cases (zone == z)) [
    | inr other ↦
        rw other (release-keeps hs (release_zone c z (keys h) (h, entered)).1 (rw other at has))
    | inl here ↦
        let eq : zone ≡ z = ground arith in
        rw here (
          subst (λ w. contains r (release_zone c w (keys h) (h, entered)).0 ≡ true) eq
            (release_zone-keeps (keys h) (h, entered) (rw here at has)))
  ]

module _ (zone r : ℕ) where
  occupy-keeps :
      (c : Cycle) (robot z : ℕ) (m : ZoneTokenManager)
      → holds zone r m.holders ≡ true
      → holds zone r (occupy c robot z m).holders ≡ true
  occupy-keeps c robot z m has = elim (Bool-cases (not (contains z m.same_dir))) [
    | inl unknown ↦ rw unknown has
    | inr known ↦ elim (Bool-cases (holds z robot m.holders)) [
      | inl held_already ↦ rw (known, held_already) has
      | inr absent ↦
          elim (Bool-cases
            (compatible m.same_dir m.same_direction_cos m.holders z robot (passing c z robot))) [
              | inl fits ↦
                  rw (known, absent, fits)
                    (holds-put zone r z robot (passing c z robot) m.holders has)
              | inr clash ↦
                  rw (known, absent, clash)
                    (ground (arith, lookup-insert zone z (holders_in z m.holders) m.holders))
            ]
    ]
  ]

  occupy_zones-keeps :
      (c : Cycle) (robot : ℕ) (zones : List ℕ) (m : ZoneTokenManager)
      → holds zone r m.holders ≡ true
      → holds zone r (occupy_zones c robot zones m).holders ≡ true
  unfolding occupy_zones
  occupy_zones-keeps c robot [] m has = has
  occupy_zones-keeps c robot (z ∷ zs) m has =
      occupy_zones-keeps c robot zs (occupy c robot z m) (occupy-keeps c robot z m has)

  occupy_all-keeps :
      (c : Cycle) (found : Dict (List ℕ)) (m : ZoneTokenManager)
      → holds zone r m.holders ≡ true
      → holds zone r (occupy_all c found m).holders ≡ true
  unfolding occupy_all
  occupy_all-keeps c [] m has = has
  occupy_all-keeps c ((robot, zones) ∷ rest) m has =
      occupy_all-keeps c rest (occupy_zones c robot zones m)
        (occupy_zones-keeps c robot zones m has)

  grant_one-keeps :
      (now : ℤ) (c : Candidate) (g : Grants)
      → holds zone r g.manager.holders ≡ true
      → holds zone r (grant_one now c g).manager.holders ≡ true
  unfolding grant_one
  grant_one-keeps now c g has = elim (Bool-cases (all_free g c c.need.zones)) [
    | inl free ↦ rw free (
        holds-put_all zone r c.need.zones c.need.robot c.need.request.directions g.manager.holders
          has)
    | inr busy ↦ rw busy has
  ]

  grant_all-keeps :
      (now : ℤ) (cs : List Candidate) (g : Grants)
      → holds zone r g.manager.holders ≡ true
      → holds zone r (grant_all now cs g).manager.holders ≡ true
  unfolding grant_all
  grant_all-keeps now [] g has = has
  grant_all-keeps now (c ∷ cs) g has =
      grant_all-keeps now cs (grant_one now c g) (grant_one-keeps now c g has)

-- Fail-closed: a cycle takes no token of a zone from a robot that is still in the zone, or that is
-- frozen because it is not observed, whatever the other robots ask for.
pub update-keeps :
    (c : Cycle) (m : ZoneTokenManager) (zone robot : ℕ)
    → Stays c zone robot
    → holds zone robot m.holders ≡ true
    → holds zone robot (update c m).1.holders ≡ true
unfolding update settled granting
update-keeps c m zone robot stays has = grant_all-keeps zone robot c.now _ _ (
    occupy_all-keeps zone robot c c.occupancy _
      (release-keeps c zone robot stays m.holders m.entered has))
