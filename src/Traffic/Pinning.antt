-- ===== src/Traffic/Pinning.antt =====
-- Who is never told to stop at a crossing.
use amr_fleet_system.Prelude.{
  Bool, refl, sym, true, ℤ, inl, inr, Bool-cases, ℕ, ◌-ℤ◌, leb_ℤ, ltb_ℤ, false, not, ◌&&◌, ◌||◌,
  ◌==◌, ◌≡◌, Option, none, some, List, [], ◌∷◌, filter, member, arith, if_rule, if◌then◌else◌,
}
use amr_fleet_system.Prelude.Dict.{Dict, lookup, contains, Entries, Entries-insert, Entries-lookup}
use amr_fleet_system.Zones.{ZoneTokenManager, TokenDecision, entered_by}
use amr_fleet_system.Resolution.{
  RobotView, Geometry, ZoneMap, IncidentManager, lookup_set, erase_set,
}
use amr_fleet_system.Traffic.{
  CrossingParams, is_empty, pinned_robots, scene_of, Conflict, time_of, CrossLatch, leads_to, Scene,
  Holds, passed_over, pair_of, yielders, in_the_way_of, latch_for, hold_by, latched, with_latch,
  consider, consider_all, crossing_holds,
}

-- The robot may be stopped: it neither stands in a zone nor has the token of one that it has entered.
abbrev IsLoose : Scene → ℕ → ℕ → Type 0
IsLoose s y o = member y s.pinned ≡ false

abbrev AreLoose : Scene → Holds → Type 0
AreLoose s h = Entries (IsLoose s) h.out

hold_by-AreLoose :
    (s : Scene) (pair : List ℕ) (l : CrossLatch) (h : Holds)
    → member l.yielder s.pinned ≡ false
    → AreLoose s h
    → AreLoose s (hold_by s pair l h)
hold_by-AreLoose s pair l h loose es =
    if_rule (AreLoose s)
      (leb_ℤ (s.now -ℤ l.since) s.params.crossing_max_hold_s
        && not (contains l.yielder h.out)
        && not (leads_to h.out l.other l.yielder))
      _ _ (λ e. Entries-insert (IsLoose s) l.yielder l.other h.out es loose) (λ e. es)

-- A list whose first is loose, if it has one.
abbrev FirstLoose : Scene → List ℕ → Type 0
FirstLoose s [] = Unit
FirstLoose s (y ∷ ys) = member y s.pinned ≡ false

filter-FirstLoose :
    (s : Scene) (c : Conflict) (rs : List ℕ)
    → FirstLoose s
        (filter (λ r. not (member r s.pinned) && leb_ℤ s.params.crossing_min_s (time_of r c)) rs)
filter-FirstLoose s c [] = tt
filter-FirstLoose s c (r ∷ rs) =
    if_rule (FirstLoose s) (not (member r s.pinned) && leb_ℤ s.params.crossing_min_s (time_of r c))
      _ _ (λ e. ground arith) (λ e. filter-FirstLoose s c rs)

latched_for-AreLoose :
    (s : Scene) (c : Conflict) (pair ys : List ℕ) (out : Dict ℕ) (h : Holds)
    → FirstLoose s ys
    → AreLoose s h
    → AreLoose s (latched s pair (latch_for s c out ys) h)
latched_for-AreLoose s c pair [] out h loose es = es
latched_for-AreLoose s c pair (y ∷ rest) out h loose es =
    if_rule (λ o. AreLoose s (latched s pair o h))
      (ltb_ℤ s.params.crossing_act_s (time_of y c)
        || contains y out
        || in_the_way_of s y (if y == c.robot_a then c.robot_b else c.robot_a)
        || leads_to out (if y == c.robot_a then c.robot_b else c.robot_a) y)
      _ _ (λ e. es) (λ e. hold_by-AreLoose s pair _ _ loose es)

with_latch-AreLoose :
    (s : Scene) (c : Conflict) (o : Option CrossLatch) (h : Holds)
    → AreLoose s h
    → AreLoose s (with_latch s c o h)
with_latch-AreLoose s c none h es =
    latched_for-AreLoose s c (pair_of c) (yielders s c) h.out h (filter-FirstLoose s c _) es
with_latch-AreLoose s c (some l) h es =
    if_rule (AreLoose s) (member l.yielder s.pinned) _ _
      (λ e.
        latched_for-AreLoose s c (pair_of c) (yielders s c) h.out
          (record h { latches = erase_set (pair_of c) h.latches }) (filter-FirstLoose s c _) es)
      (λ e. hold_by-AreLoose s (pair_of c) l h e es)

consider_all-AreLoose :
    (s : Scene) (cs : List Conflict) (h : Holds) → AreLoose s h → AreLoose s (consider_all s cs h)
unfolding consider_all consider
consider_all-AreLoose s [] h es = es
consider_all-AreLoose s (c ∷ rest) h es = consider_all-AreLoose s rest (consider s c h) (
    if_rule (AreLoose s) (passed_over s c) _ _ (λ e. es)
      (λ e. with_latch-AreLoose s c (lookup_set (pair_of c) h.latches) h es))

-- Only a robot that is not pinned is told to yield.
holds-IsLoose :
    (s : Scene) (conflicts : List Conflict) (latches : List (List ℕ × CrossLatch)) (y o : ℕ)
    → lookup y (crossing_holds s conflicts latches).0 ≡ some o
    → IsLoose s y o
unfolding crossing_holds
holds-IsLoose s conflicts latches y o e =
    Entries-lookup (IsLoose s) y o _
      (consider_all-AreLoose s conflicts (record { out = []; latches = latches; seen = [] }) tt) e

is_empty-nil : (xs : List ℕ) → is_empty xs ≡ true → xs ≡ []
is_empty-nil [] e = refl
is_empty-nil (x ∷ xs) e = cc

-- A robot of the view that is not pinned is in no zone, and holds no token of a zone that it has entered.
pinned_robots-free :
    (tokens : ZoneTokenManager) (views : Dict RobotView) (y : ℕ) (v : RobotView)
    → lookup y views ≡ some v
    → member y (pinned_robots tokens views) ≡ false
    → (is_empty v.zones ≡ true) × (is_empty (entered_by y tokens) ≡ true)
unfolding pinned_robots
pinned_robots-free tokens [] y v e loose = cc
pinned_robots-free tokens ((r, w) ∷ rest) y v e loose =
    let test : Bool = not (is_empty w.zones) || not (is_empty (entered_by r tokens)) in
    let more = pinned_robots-free tokens rest y v in
    elim (Bool-cases (y == r)) [
      | inl same ↦
          let y_is : y ≡ r = ground arith in
          let w_is : w ≡ v = ground arith in
          let not_pinned : test ≡ false = elim (Bool-cases test) [
            | inl pinned ↦
                let at_head : member y (r ∷ pinned_robots tokens rest) ≡ false =
                  rw pinned at loose in
                absurd (ground arith)
            | inr free ↦ free
          ] in
          rw (y_is, sym w_is) (ground (arith, not_pinned))
      | inr other ↦
          let in_rest : member y (pinned_robots tokens rest) ≡ false = elim (Bool-cases test) [
            | inl pinned ↦
                let at_head : member y (r ∷ pinned_robots tokens rest) ≡ false =
                  rw pinned at loose in
                ground arith
            | inr free ↦ rw free at loose
          ] in
          more (ground arith) in_rest
    ]

-- In the scene of a cycle no robot is told to yield at a crossing while it is in a zone or holds the token of a
-- zone that it has entered, not even one that has yielded there before.
pub crossing_holds-free :
    (g : Geometry) (params : CrossingParams) (now : ℤ) (views : Dict RobotView) (zm : ZoneMap)
    (on : Bool) (moving yielding : List ℕ) (waits : Dict TokenDecision) (tokens : ZoneTokenManager)
    (incidents : IncidentManager) (conflicts : List Conflict) (latches : List (List ℕ × CrossLatch))
    (y o : ℕ) (v : RobotView)
    → let s = scene_of g params now views zm on moving yielding waits tokens incidents in
      lookup y (crossing_holds s conflicts latches).0 ≡ some o
      → lookup y views ≡ some v
      → (v.zones ≡ []) × (entered_by y tokens ≡ [])
crossing_holds-free g params now views zm on moving yielding waits tokens incidents conflicts
      latches y o v e known =
    let s = scene_of g params now views zm on moving yielding waits tokens incidents in
    let (zones, entered) =
      pinned_robots-free tokens views y v known (holds-IsLoose s conflicts latches y o e) in
    (is_empty-nil v.zones zones, is_empty-nil (entered_by y tokens) entered)
