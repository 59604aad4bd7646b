-- ===== src/Traffic/Holding.antt =====
-- The holds of a cycle.
use amr_fleet_system.Prelude.{
  ℕ, ◌-ℤ◌, leb_ℤ, not, ◌&&◌, Option, none, some, List, [], ◌∷◌, member, arith, if_rule,
}
use amr_fleet_system.Prelude.Dict.{contains}
use amr_fleet_system.Resolution.{lookup_set, insert_set, erase_set}
use amr_fleet_system.Traffic.{
  Conflict, CrossLatch, leads_to, Scene, Holds, passed_over, pair_of, yielders, latch_for, hold_by,
  latched, with_latch, consider, consider_all, crossing_holds,
}
use amr_fleet_system.Traffic.Chains.{IsAcyclic, insert-IsAcyclic}

-- The holds close no cycle.
abbrev HasNoCycle : Holds → Type 0
HasNoCycle h = IsAcyclic h.out

hold_by-HasNoCycle :
    (s : Scene) (pair : List ℕ) (l : CrossLatch) (h : Holds)
    → HasNoCycle h
    → HasNoCycle (hold_by s pair l h)
hold_by-HasNoCycle s pair l h acyclic =
    if_rule HasNoCycle
      (leb_ℤ (s.now -ℤ l.since) s.params.crossing_max_hold_s
        && not (contains l.yielder h.out)
        && not (leads_to h.out l.other l.yielder))
      _ _ (λ e. insert-IsAcyclic h.out l.yielder l.other acyclic (ground arith) (ground arith))
      (λ e. acyclic)

latched-HasNoCycle :
    (s : Scene) (pair : List ℕ) (o : Option CrossLatch) (h : Holds)
    → HasNoCycle h
    → HasNoCycle (latched s pair o h)
latched-HasNoCycle s pair none h acyclic = acyclic
latched-HasNoCycle s pair (some l) h acyclic =
    hold_by-HasNoCycle s pair l (record h { latches = insert_set pair l h.latches }) acyclic

with_latch-HasNoCycle :
    (s : Scene) (c : Conflict) (o : Option CrossLatch) (h : Holds)
    → HasNoCycle h
    → HasNoCycle (with_latch s c o h)
with_latch-HasNoCycle s c none h acyclic = latched-HasNoCycle s (pair_of c) _ h acyclic
with_latch-HasNoCycle s c (some l) h acyclic =
    if_rule HasNoCycle (member l.yielder s.pinned) _ _
      (λ e.
        latched-HasNoCycle s (pair_of c) (latch_for s c h.out (yielders s c))
          (record h { latches = erase_set (pair_of c) h.latches }) acyclic)
      (λ e. hold_by-HasNoCycle s (pair_of c) l h acyclic)

consider_all-HasNoCycle :
    (s : Scene) (cs : List Conflict) (h : Holds) → HasNoCycle h → HasNoCycle (consider_all s cs h)
unfolding consider_all consider
consider_all-HasNoCycle s [] h acyclic = acyclic
consider_all-HasNoCycle s (c ∷ rest) h acyclic = consider_all-HasNoCycle s rest (consider s c h) (
    if_rule HasNoCycle (passed_over s c) _ _ (λ e. acyclic)
      (λ e. with_latch-HasNoCycle s c (lookup_set (pair_of c) h.latches) h acyclic))

-- The robots that yield at crossings never wait for each other in a circle, whatever conflicts are
-- predicted and whatever latches are left from the cycles before.
pub crossing_holds-IsAcyclic :
    (s : Scene) (conflicts : List Conflict) (latches : List (List ℕ × CrossLatch))
    → IsAcyclic (crossing_holds s conflicts latches).0
unfolding crossing_holds
crossing_holds-IsAcyclic s conflicts latches =
    consider_all-HasNoCycle s conflicts (record { out = []; latches = latches; seen = [] })
      (λ a b e l. absurd cc)
