-- ===== src/Resolution/Runs.antt =====
-- All that can come of a new manager.
use amr_fleet_system.Prelude.{
  ℕ, suc, ◌+◌, ◌≤◌, ◌==◌, leb, ltb, ◌&&◌, ◌≡◌, sym, ap, ◌∙◌, some, List, [], ◌++◌, if◌then◌else◌,
  arith,
}
use amr_fleet_system.Resolution.{
  DeadlockKind, ResolutionEvent, ResolutionConfig, IncidentManager, Cycle, new_manager,
  open_incident, step,
}
use amr_fleet_system.Resolution.Settling.{endings, present}
use amr_fleet_system.Resolution.Sweeping.{IsValid, endings-append}
use amr_fleet_system.Resolution.Steps.{step-keeps_IsValid, step-counted, step-next_id}
use amr_fleet_system.Resolution.Opens.{open_incident-Opens}

-- What a manager and its events can come to: incidents are opened and cycles are made, and none raises.
pub data Reach (cfg : ResolutionConfig) : IncidentManager → List ResolutionEvent → Type 0 where
  start : Reach cfg (new_manager cfg) []
  opens :
      {m m' : IncidentManager} {es new : List ResolutionEvent} (c : Cycle) (robots : List ℕ)
      (kind : DeadlockKind) (zones : List ℕ)
      → Reach cfg m es
      → open_incident c robots kind zones m ≡ some (m', new)
      → Reach cfg m' (es ++ new)
  steps :
      {m m' : IncidentManager} {es new : List ResolutionEvent} (c : Cycle)
      → Reach cfg m es
      → step c m ≡ some (m', new)
      → Reach cfg m' (es ++ new)

-- However incidents are opened and cycles are made from a new manager, every incident is kept under its number, has
-- a pocket if it gives way and a mask if it goes around, and has a victim that there is.
pub Reach-IsValid :
    {cfg : ResolutionConfig} {m : IncidentManager} {es : List ResolutionEvent}
    → Reach cfg m es
    → IsValid m
Reach-IsValid start = record { unique = tt; entries = tt }
Reach-IsValid (opens c robots kind zones h e) =
    (open_incident-Opens c robots kind zones _ _ (Reach-IsValid h) e).valid
Reach-IsValid (steps {m} {m'} {es} {new} c h e) =
    step-keeps_IsValid c m (m', new) (Reach-IsValid h) e

abbrev pub was_opened : ℕ → ℕ → ℕ
was_opened next k = if leb 1 k && ltb k next then 1 else 0

Reach-positive :
    {cfg : ResolutionConfig} {m : IncidentManager} {es : List ResolutionEvent}
    → Reach cfg m es
    → 1 ≤ m.next_id
Reach-positive start = omega arith
Reach-positive (opens c robots kind zones h e) =
    let o = open_incident-Opens c robots kind zones _ _ (Reach-IsValid h) e in
    omega (arith, o.next_id, Reach-positive h)
Reach-positive (steps {m} {m'} {es} {new} c h e) =
    let same = step-next_id c m (m', new) (Reach-IsValid h) e in
    omega (arith, same, Reach-positive h)

was_opened-suc :
    (n k : ℕ) → 1 ≤ n → (if k == n then 1 else 0) + was_opened n k ≡ was_opened (suc n) k
was_opened-suc n k h = ground arith

counted_on :
    (k : ℕ) (es new : List ResolutionEvent) (now before more all : ℕ)
    → endings k new + now ≡ more + before
    → endings k es + before ≡ all
    → endings k (es ++ new) + now ≡ more + all
counted_on k es new now before more all h h' = omega (arith, endings-append k es new, h, h')

-- However incidents are opened and cycles are made from a new manager, each number that has been given
-- out is that of an incident that is there or whose end has been told, once; a number that has not is neither.
pub Reach-counted :
    {cfg : ResolutionConfig} {m : IncidentManager} {es : List ResolutionEvent}
    → Reach cfg m es
    → (k : ℕ) → endings k es + present k m.active ≡ was_opened m.next_id k
Reach-counted start k = ground arith
Reach-counted (opens {m} {m'} {es} {new} c robots kind zones h e) k =
    let o = open_incident-Opens c robots kind zones m (m', new) (Reach-IsValid h) e in
    counted_on k es new _ _ _ _ (o.counted k) (Reach-counted h k)
    ∙ was_opened-suc m.next_id k (Reach-positive h)
    ∙ ap (λ n. was_opened n k) (sym o.next_id)
Reach-counted (steps {m} {m'} {es} {new} c h e) k =
    let moved = step-counted c m (m', new) (Reach-IsValid h) e k in
    let before = Reach-counted h k in
    let total : endings k (es ++ new) + present k m'.active ≡ was_opened m.next_id k =
      omega (arith, endings-append k es new, moved, before) in
    total ∙ ap (λ n. was_opened n k) (sym (step-next_id c m (m', new) (Reach-IsValid h) e))
