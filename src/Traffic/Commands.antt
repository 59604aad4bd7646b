-- ===== src/Traffic/Commands.antt =====
-- When a robot that waits for zones is not stopped.
use amr_fleet_system.Prelude.{
  ℕ, ◌==◌, true, false, ◌≡◌, refl, subst, ◌⊎◌, inl, inr, Option, none, some, List, [], ◌∷◌, any,
  all, member, arith, Bool-cases, if_rule,
}
use amr_fleet_system.Prelude.Dict.{Dict, lookup, keys}
use amr_fleet_system.Zones.{TokenDecision}
use amr_fleet_system.Resolution.{RobotView, KeepoutMask, IncidentCommand}
use amr_fleet_system.Traffic.{RobotCommand, is_stale, masked_by, command_for, compose_each, compose}

-- The robot's mask covers the zones that it waits for, and no robot that blocks them is out of sight.
abbrev pub IsCovered :
    Dict RobotView → TokenDecision → Option IncidentCommand → RobotCommand → Type 0
IsCovered views dec x cmd =
    (inc : IncidentCommand) × (mask : KeepoutMask) × (x ≡ some inc)
    × (inc.keepout ≡ some mask)
    × (cmd.keepout ≡ some mask)
    × (all (λ z. member z inc.masked_zones) dec.zones ≡ true)
    × (any (λ b. is_stale (lookup b views)) dec.blockers ≡ false)

masked_by-cases :
    (views : Dict RobotView) (dec : TokenDecision) (k : Option KeepoutMask) (zones : List ℕ)
    → masked_by views dec k zones ≡ true
    → (mask : KeepoutMask) × (k ≡ some mask)
      × (all (λ z. member z zones) dec.zones ≡ true)
      × (any (λ b. is_stale (lookup b views)) dec.blockers ≡ false)
masked_by-cases views dec none zones e = cc
masked_by-cases views dec (some mask) zones e = (mask, refl, ground arith, ground arith)

command_for-held :
    (views : Dict RobotView) (x : Option IncidentCommand) (dec : TokenDecision)
    (crossing : Option ℕ)
    → let cmd = command_for views x (some dec) crossing in
      (cmd.hold ≡ true) ⊎ IsCovered views dec x cmd
command_for-held views none dec crossing = inl refl
command_for-held views (some inc) dec crossing =
    let Q : RobotCommand → Type 0 = λ cmd. (cmd.hold ≡ true) ⊎ IsCovered views dec (some inc) cmd in
    if_rule Q inc.hold _ _ (λ e. inl refl)
      (λ e.
        if_rule Q (masked_by views dec inc.keepout inc.masked_zones) _ _
          (λ m.
            let (mask, kept, zones, seen) =
              masked_by-cases views dec inc.keepout inc.masked_zones m in
            inr (inc, mask, refl, kept, kept, zones, seen))
          (λ m. inl refl))

compose_each-lookup :
    (views : Dict RobotView) (incs : Dict IncidentCommand) (waits : Dict TokenDecision)
    (crossing : Dict ℕ) (rs : List ℕ) (r : ℕ) (cmd : RobotCommand)
    → lookup r (compose_each true views incs waits crossing rs) ≡ some cmd
    → command_for views (lookup r incs) (lookup r waits) (lookup r crossing) ≡ cmd
unfolding compose_each
compose_each-lookup views incs waits crossing [] r cmd e = cc
compose_each-lookup views incs waits crossing (s ∷ rest) r cmd e = elim (Bool-cases (r == s)) [
  | inl same ↦
      let r_is : r ≡ s = ground arith in
      let e' : some (command_for views (lookup s incs) (lookup s waits) (lookup s crossing))
          ≡ some cmd =
        rw same at e in
      let at_s : command_for views (lookup s incs) (lookup s waits) (lookup s crossing) ≡ cmd =
        cc in
      rw r_is at_s
  | inr other ↦ compose_each-lookup views incs waits crossing rest r cmd (rw other at e)
]

-- In active mode a robot of the view that waits for zones is told to stop, unless it has a mask that keeps it out of all
-- these zones and every robot that blocks them is seen: a blocker out of sight keeps it stopped.
pub compose-held :
    (views : Dict RobotView) (incs : Dict IncidentCommand) (waits : Dict TokenDecision)
    (crossing : Dict ℕ) (r : ℕ) (dec : TokenDecision) (cmd : RobotCommand)
    → lookup r (compose true views incs waits crossing) ≡ some cmd
    → lookup r waits ≡ some dec
    → (cmd.hold ≡ true) ⊎ IsCovered views dec (lookup r incs) cmd
unfolding compose
compose-held views incs waits crossing r dec cmd e waiting =
    let given = compose_each-lookup views incs waits crossing (keys views) r cmd e in
    let given' : command_for views (lookup r incs) (some dec) (lookup r crossing) ≡ cmd =
      rw waiting at given in
    subst (λ x. (x.hold ≡ true) ⊎ IsCovered views dec (lookup r incs) x) given'
      (command_for-held views (lookup r incs) dec (lookup r crossing))
