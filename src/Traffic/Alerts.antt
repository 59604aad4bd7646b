-- ===== src/Traffic/Alerts.antt =====
-- How often a wait for tokens is told.
use amr_fleet_system.Prelude.{
  ℕ, suc, ◌+◌, ◌≤◌, pos, leb_ℤ, ltb, leb, Bool, true, false, not, ◌&&◌, ◌==◌, ◌≡◌, refl, sym, List,
  [], ◌∷◌, ◌++◌, filter, member, arith, if_rule, if◌then◌else◌, Bool-cases, inl, inr,
}
use amr_fleet_system.Prelude.Dict.{Dict, lookup, contains, lookup-insert}
use amr_fleet_system.Prelude.Sorting.{sorted_by}
use amr_fleet_system.Zones.{TokenDecision}
use amr_fleet_system.Traffic.{
  TrafficName, stall_event, unresolved_event, TrafficEvent, WatchParams, Watch, level_of,
  watch_event, watch_stall, watch_max, watch_one, watch_each, waiting_levels, token_watch,
}

abbrev pub is_stall : TrafficName → Bool
is_stall stall_event = true
is_stall unresolved_event = false

-- How many stalls, and how many failures, are told of a robot.
abbrev pub stalls : ℕ → List TrafficEvent → ℕ
stalls r [] = 0
stalls r (e ∷ es) = if is_stall e.name && (e.robot == r) then suc (stalls r es) else stalls r es

abbrev pub failures : ℕ → List TrafficEvent → ℕ
failures r [] = 0
failures r (e ∷ es) =
    if not (is_stall e.name) && (e.robot == r) then suc (failures r es) else failures r es

stalls-append :
    (r : ℕ) (xs ys : List TrafficEvent) → stalls r (xs ++ ys) ≡ stalls r xs + stalls r ys
stalls-append r [] ys = omega arith
stalls-append r (x ∷ xs) ys = ground (arith, stalls-append r xs ys)

failures-append :
    (r : ℕ) (xs ys : List TrafficEvent) → failures r (xs ++ ys) ≡ failures r xs + failures r ys
failures-append r [] ys = omega arith
failures-append r (x ∷ xs) ys = ground (arith, failures-append r xs ys)

-- What has been told of a robot is at most what its level says.
abbrev pub IsTold : ℕ → Watch → Type 0
IsTold r w =
    (stalls r w.events ≤ (if leb 1 (level_of r w.levels) then 1 else 0))
    × (failures r w.events ≤ (if leb 2 (level_of r w.levels) then 1 else 0))

watch_stall-IsTold :
    (p : WatchParams) (r s : ℕ) (dec : TokenDecision) (w : Watch)
    → IsTold r w
    → IsTold r (watch_stall p s dec w)
watch_stall-IsTold p r s dec w h =
    if_rule (IsTold r) (ltb (level_of s w.levels) 1 && leb_ℤ p.token_wait_stall_s dec.waiting_s) _ _
      (λ e.
        let added = watch_event stall_event (s ∷ []) s dec ∷ [] in
        ground (
          arith,
          stalls-append r w.events added,
          failures-append r w.events added,
          lookup-insert r s 1 w.levels,
        ))
      (λ e. h)

watch_max-IsTold :
    (p : WatchParams) (r s : ℕ) (dec : TokenDecision) (w : Watch)
    → IsTold r w
    → IsTold r (watch_max p s dec w)
watch_max-IsTold p r s dec w h =
    let robots = s ∷ filter (λ b. not (b == s)) dec.blockers in
    if_rule (IsTold r) (ltb (level_of s w.levels) 2 && leb_ℤ p.wait_max_s dec.waiting_s) _ _
      (λ e.
        let added = watch_event unresolved_event robots s dec ∷ [] in
        ground (
          arith,
          stalls-append r w.events added,
          failures-append r w.events added,
          lookup-insert r s 2 w.levels,
        ))
      (λ e. h)

watch_each-IsTold :
    (p : WatchParams) (members : List ℕ) (r : ℕ) (waits : Dict TokenDecision) (w : Watch)
    → IsTold r w
    → IsTold r (watch_each p members waits w)
unfolding watch_each
watch_each-IsTold p members r [] w h = h
watch_each-IsTold p members r ((s, dec) ∷ rest) w h =
    watch_each-IsTold p members r rest (watch_one p members s dec w) (
      if_rule (IsTold r) (member s members) _ _ (λ e. h)
        (λ e.
          watch_max-IsTold p r s dec (watch_stall p s dec w) (watch_stall-IsTold p r s dec w h)))

lookup-waiting_levels :
    (waits : Dict TokenDecision) (levels : Dict ℕ) (r : ℕ)
    → contains r waits ≡ true
    → lookup r (waiting_levels waits levels) ≡ lookup r levels
lookup-waiting_levels waits [] r e = refl
lookup-waiting_levels waits ((s, n) ∷ rest) r e =
    let kept : r ≡ s → contains s waits ≡ true = λ same. rw (sym same) e in
    let more = lookup-waiting_levels waits rest r e in
    elim (Bool-cases (contains s waits)) [
      | inl in_waits ↦ rw in_waits (ground (arith, more))
      | inr gone ↦ rw gone (
          if_rule (λ o. lookup r (waiting_levels waits rest) ≡ o) (r == s) _ _
            (λ same. let there = kept (ground arith) in absurd cc) (λ other. more))
    ]

-- Cycles one after the other, each with its robots of incidents and its waits.
abbrev pub watch_all : WatchParams → List (List ℕ × Dict TokenDecision) → Watch → Watch
watch_all p [] w = w
watch_all p ((members, waits) ∷ rest) w = watch_all p rest (token_watch p members waits w)

-- The robot waits in each of the cycles.
abbrev pub WaitsOn : ℕ → List (List ℕ × Dict TokenDecision) → Type 0
WaitsOn r [] = Unit
WaitsOn r ((members, waits) ∷ rest) = (contains r waits ≡ true) × WaitsOn r rest

watch_all-IsTold :
    (p : WatchParams) (r : ℕ) (cycles : List (List ℕ × Dict TokenDecision)) (w : Watch)
    → WaitsOn r cycles
    → IsTold r w
    → IsTold r (watch_all p cycles w)
unfolding token_watch
watch_all-IsTold p r [] w waits h = h
watch_all-IsTold p r ((members, waits) ∷ rest) w (now, on) h =
    watch_all-IsTold p r rest (token_watch p members waits w) on (
      watch_each-IsTold p members r (sorted_by (λ e. pos e.0 ∷ []) waits) _
        (rw (lookup-waiting_levels waits w.levels r now, level_of) h))

-- However long a robot waits for tokens, and whatever comes and goes beside it, its wait is told at most once
-- as a stall and at most once as a failure.
pub token_watch-once :
    (p : WatchParams) (r : ℕ) (cycles : List (List ℕ × Dict TokenDecision)) (levels : Dict ℕ)
    → WaitsOn r cycles
    → let w = watch_all p cycles (record { levels = levels; events = []; unresolved = 0 }) in
      (stalls r w.events ≤ 1) × (failures r w.events ≤ 1)
token_watch-once p r cycles levels on =
    let h =
      watch_all-IsTold p r cycles (record { levels = levels; events = []; unresolved = 0 }) on
        (omega arith, omega arith) in
    (ground (arith, h.0), ground (arith, h.1))
