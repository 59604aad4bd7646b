-- ===== src/Zones/Modes.antt =====
-- The table of zones: which calls keep it, and what a new table does to the tokens.
use amr_fleet_system.Prelude.{
  ℕ, ℤ, Bool, true, not, ◌==◌, ◌≡◌, refl, ◌∙◌, inl, inr, some, List, [], ◌∷◌, length, all, arith,
  Bool-cases, Option-cases,
}
use amr_fleet_system.Prelude.Dict.{Dict, lookup, contains, Entries, Entries-lookup}
use amr_fleet_system.Zones.{
  Direction, Holders, ZoneTokenManager, Cycle, Candidate, Grants, held, holds, compatible, follows,
  direction_in, reserve, known_zones, unique_zones, missing, passing, release, occupy, occupy_zones,
  occupy_all, all_free, grant_one, grant_all, settled, granting, update,
}
use amr_fleet_system.Zones.Exclusion.{IsExclusive}

-- A table whose zones have the given modes: true for a zone in which robots may follow each other.
abbrev pub HasModes : (ℕ → Bool) → Dict Bool → Type 0
HasModes mode table = Entries (λ z b. b ≡ mode z) table

occupy-same_dir :
    (c : Cycle) (robot zone : ℕ) (m : ZoneTokenManager)
    → (occupy c robot zone m).same_dir ≡ m.same_dir
occupy-same_dir c robot zone m = elim (Bool-cases (not (contains zone m.same_dir))) [
  | inl unknown ↦ rw unknown refl
  | inr known ↦ elim (Bool-cases (holds zone robot m.holders)) [
    | inl has ↦ rw (known, has) refl
    | inr absent ↦
        elim (Bool-cases (
          compatible m.same_dir m.same_direction_cos m.holders zone robot (passing c zone robot))) [
            | inl fits ↦ rw (known, absent, fits) refl
            | inr clash ↦ rw (known, absent, clash) refl
          ]
  ]
]

occupy_zones-same_dir :
    (c : Cycle) (robot : ℕ) (zones : List ℕ) (m : ZoneTokenManager)
    → (occupy_zones c robot zones m).same_dir ≡ m.same_dir
unfolding occupy_zones
occupy_zones-same_dir c robot [] m = refl
occupy_zones-same_dir c robot (z ∷ zs) m =
    occupy_zones-same_dir c robot zs (occupy c robot z m) ∙ occupy-same_dir c robot z m

occupy_all-same_dir :
    (c : Cycle) (found : Dict (List ℕ)) (m : ZoneTokenManager)
    → (occupy_all c found m).same_dir ≡ m.same_dir
unfolding occupy_all
occupy_all-same_dir c [] m = refl
occupy_all-same_dir c ((robot, zones) ∷ rest) m =
    occupy_all-same_dir c rest (occupy_zones c robot zones m)
    ∙ occupy_zones-same_dir c robot zones m

grant_one-same_dir :
    (now : ℤ) (c : Candidate) (g : Grants)
    → (grant_one now c g).manager.same_dir ≡ g.manager.same_dir
unfolding grant_one
grant_one-same_dir now c g = elim (Bool-cases (all_free g c c.need.zones)) [
  | inl free ↦ rw free refl
  | inr busy ↦ rw busy refl
]

grant_all-same_dir :
    (now : ℤ) (cs : List Candidate) (g : Grants)
    → (grant_all now cs g).manager.same_dir ≡ g.manager.same_dir
unfolding grant_all
grant_all-same_dir now [] g = refl
grant_all-same_dir now (c ∷ cs) g =
    grant_all-same_dir now cs (grant_one now c g) ∙ grant_one-same_dir now c g

pub update-same_dir : (c : Cycle) (m : ZoneTokenManager) → (update c m).1.same_dir ≡ m.same_dir
unfolding update settled granting
update-same_dir c m =
    let s = release c m.holders m.entered in
    grant_all-same_dir c.now _ _
    ∙ occupy_all-same_dir c c.occupancy (record m { holders = s.0; entered = s.1 })

pub reserve-same_dir :
    (now : ℤ) (robot : ℕ) (zones : List ℕ) (ds : Dict Direction) (m : ZoneTokenManager)
    → (reserve now robot zones ds m).1.same_dir ≡ m.same_dir
unfolding reserve
reserve-same_dir now robot zones ds m =
    let need = missing m.same_dir m.holders robot (unique_zones [] zones) in
    elim (Bool-cases (
      all (λ z. compatible m.same_dir m.same_direction_cos m.holders z robot (direction_in z ds))
        need)) [
          | inr clash ↦ rw clash refl
          | inl free ↦ elim (Bool-cases (length need == 0)) [
            | inl none_needed ↦ rw (free, none_needed) refl
            | inr some_needed ↦ rw (free, some_needed) refl
          ]
        ]

-- A token that is left is in a zone of the new table, and was there.
known_zones-held :
    (table : Dict Bool) (hs : Holders) (z r : ℕ) (d : Direction)
    → held z r (known_zones table hs) ≡ some d
    → contains z table ≡ true
known_zones-held table [] z r d found = cc
known_zones-held table ((zone, h) ∷ hs) z r d found = elim (Bool-cases (contains zone table)) [
  | inl known ↦ elim (Bool-cases (z == zone)) [
    | inl here ↦ ground (arith, known)
    | inr other ↦ known_zones-held table hs z r d (rw (known, other) at found)
  ]
  | inr unknown ↦ known_zones-held table hs z r d (rw unknown at found)
]

known_zones-fewer :
    (table : Dict Bool) (hs : Holders) (z r : ℕ) (d : Direction)
    → held z r (known_zones table hs) ≡ some d
    → held z r hs ≡ some d
known_zones-fewer table [] z r d found = found
known_zones-fewer table ((zone, h) ∷ hs) z r d found = elim (Bool-cases (contains zone table)) [
  | inl known ↦ elim (Bool-cases (z == zone)) [
    | inl here ↦ rw here (rw (known, here) at found)
    | inr other ↦ rw other (known_zones-fewer table hs z r d (rw (known, other) at found))
  ]
  | inr unknown ↦
      let kept = known_zones-held table hs z r d (rw unknown at found) in
      elim (Bool-cases (z == zone)) [
        | inl here ↦ ground (arith, kept, unknown)
        | inr other ↦ rw other (known_zones-fewer table hs z r d (rw unknown at found))
      ]
]

follows-mode :
    (mode : ℕ → Bool) (table : Dict Bool) (z : ℕ)
    → HasModes mode table
    → follows z table ≡ true
    → mode z ≡ true
follows-mode mode table z modes h = elim (Option-cases (lookup z table)) [
  | inl e ↦ ground (arith, e)
  | inr (b, e) ↦ ground (arith, e, Entries-lookup (λ k v. v ≡ mode k) z b table modes e)
]

mode-follows :
    (mode : ℕ → Bool) (table : Dict Bool) (z : ℕ)
    → HasModes mode table
    → contains z table ≡ true
    → mode z ≡ true
    → follows z table ≡ true
mode-follows mode table z modes known h = elim (Option-cases (lookup z table)) [
  | inl e ↦ ground (arith, e)
  | inr (b, e) ↦ ground (arith, e, Entries-lookup (λ k v. v ≡ mode k) z b table modes e)
]

-- A new table that keeps the modes of the zones that stay makes no conflict.
pub known_zones-IsExclusive :
    (mode : ℕ → Bool) (old new : Dict Bool) (cos : ℤ) (hs : Holders)
    → HasModes mode old
    → HasModes mode new
    → IsExclusive old cos hs
    → IsExclusive new cos (known_zones new hs)
known_zones-IsExclusive mode old new cos hs modes modes' h z r s d e at_r at_s ne =
    let (same, way) =
      h z r s d e (known_zones-fewer new hs z r d at_r) (known_zones-fewer new hs z s e at_s) ne in
    (
      mode-follows mode new z modes' (known_zones-held new hs z r d at_r)
          (follows-mode mode old z modes same),
      way,
    )
