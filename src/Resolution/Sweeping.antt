-- ===== src/Resolution/Sweeping.antt =====
-- The loop of `step` over the incidents.
use amr_fleet_system.Prelude.{
  ℕ, ◌+◌, ℤ, ◌-ℤ◌, ◌≤ℤ◌, ltb_ℤ, ◌<◌, true, ◌≡◌, refl, sym, ap, ◌∙◌, subst, inl, inr, ◌≢◌, Option,
  none, some, List, [], ◌∷◌, ◌++◌, All, arith, Bool-cases, Option-cases,
}
use amr_fleet_system.Prelude.Dict.{
  Dict, lookup, contains, erase, IsUnique, Entries, Entries-lookup, lookup-erase_self,
}
use amr_fleet_system.Resolution.{
  Incident, ResolutionEvent, IncidentManager, Cycle, Outcome, store, stored, step_one, step_each,
  Stepped, after,
}
use amr_fleet_system.Resolution.Settling.{endings, present, fixed, Settled, IsKept, IsRunning}
use amr_fleet_system.Resolution.Ways.{HaveWays, step_one-IsTold}
use amr_fleet_system.Resolution.Stepping.{step_one-Steps}
use amr_fleet_system.Resolution.Storing.{
  IsEntry, same_id, store-replaces, store-counted, replaced-other, replaced-IsUnique,
  replaced-Entries, replaced_self, stored-erased,
}

-- Every incident is kept under its number, which has been given out, and has a plan and a victim.
pub record IsValid (m : IncidentManager) : Type 0 where
  pub unique : IsUnique m.active
  pub entries : Entries (IsEntry m.next_id) m.active

pub endings-append :
    (k : ℕ) (xs ys : List ResolutionEvent) → endings k (xs ++ ys) ≡ endings k xs + endings k ys
endings-append k [] ys = omega arith
endings-append k (x ∷ xs) ys = ground (arith, endings-append k xs ys)

-- The incidents of a list are the manager's.
abbrev pub AreKept : Dict Incident → List Incident → Type 0
AreKept d incs = All (λ i. lookup i.incident_id d ≡ some i) incs

abbrev pub OtherIds : ℕ → List Incident → Type 0
OtherIds id incs = All (λ i. i.incident_id ≢ id) incs

abbrev pub AreDistinct : List Incident → Type 0
AreDistinct [] = Unit
AreDistinct (i ∷ rest) = OtherIds i.incident_id rest × AreDistinct rest

-- An incident that is still there is the old one, further on, and it is in time.
abbrev pub IsInTime : Cycle → ℤ → Dict Incident → Incident → Type 0
IsInTime c limit d i =
    (found : Incident)
    → lookup i.incident_id d ≡ some found
    → (fixed found ≡ fixed i) × (c.now -ℤ i.detected_at ≤ℤ limit)

pub record Swept (c : Cycle) (incs : List Incident) (m : IncidentManager) (r : Stepped)
    : Type 0 where
  pub valid : IsValid r.0
  pub counted : (k : ℕ) → endings k r.1 + present k r.0.active ≡ present k m.active
  pub others : (k : ℕ) → OtherIds k incs → lookup k r.0.active ≡ lookup k m.active
  pub in_time : All (IsInTime c m.cfg.deadlock_max_s r.0.active) incs
  pub cfg : r.0.cfg ≡ m.cfg
  pub next_id : r.0.next_id ≡ m.next_id

-- What holds once the first incident has made its step.
record Moved (c : Cycle) (inc : Incident) (m : IncidentManager) (o : Outcome) : Type 0 where
  pub valid : IsValid (store o.incident o.manager)
  pub other :
      (k : ℕ)
      → k ≢ inc.incident_id
      → lookup k (store o.incident o.manager).active ≡ lookup k m.active
  pub in_time : IsInTime c m.cfg.deadlock_max_s (store o.incident o.manager).active inc

-- An incident that was given up is no longer there.
gone :
    (inc : Incident) (id : ℕ) (d d' : Dict Incident)
    → inc.incident_id ≡ id
    → IsUnique d
    → d' ≡ erase id d
    → lookup id (stored inc d') ≡ none
gone inc id d d' e u erased =
    rw erased (ap (lookup id) (stored-erased inc id d e u) ∙ lookup-erase_self id d u)

moved :
    (c : Cycle) (inc : Incident) (m : IncidentManager) (o : Outcome)
    → IsValid m
    → IsKept inc m
    → inc.incident_id < m.next_id
    → Settled (fixed inc) m o
    → (ltb_ℤ m.cfg.deadlock_max_s (c.now -ℤ inc.detected_at) ≡ true
        → o.manager.active ≡ erase inc.incident_id m.active)
    → Moved c inc m o
moved c inc m o valid kept below h late =
    let r = store-replaces inc m o h kept in
    let d' = (store o.incident o.manager).active in
    let other = replaced-other inc.incident_id m.next_id o.incident m.active d' r in
    record {
      valid = record {
        unique = replaced-IsUnique inc.incident_id m.next_id o.incident m.active d' r valid.unique;
        entries =
            subst (λ n. Entries (IsEntry n) d') (sym h.next_id)
              (replaced-Entries inc.incident_id m.next_id o.incident m.active d' r
                (same_id inc m o h kept) below valid.entries);
      };
      other = other;
      in_time = λ found e. (
        ap fixed (
              replaced_self inc.incident_id m.next_id o.incident m.active d' r valid.unique found e)
            ∙ h.same,
        elim (Bool-cases (ltb_ℤ m.cfg.deadlock_max_s (c.now -ℤ inc.detected_at))) [
          | inl over ↦
              let none_there =
                gone o.incident inc.incident_id m.active o.manager.active (same_id inc m o h kept)
                  valid.unique (late over) in
              absurd cc
          | inr not_over ↦ ground arith
        ],
      );
    }

pub AreKept-other :
    (id : ℕ) (d d' : Dict Incident) (incs : List Incident)
    → ((k : ℕ) → k ≢ id → lookup k d' ≡ lookup k d)
    → OtherIds id incs
    → AreKept d incs
    → AreKept d' incs
AreKept-other id d d' [] same others kept = tt
AreKept-other id d d' (i ∷ rest) same others kept =
    (same i.incident_id others.0 ∙ kept.0, AreKept-other id d d' rest same others.1 kept.1)

Swept-step :
    (c : Cycle) (inc : Incident) (rest : List Incident) (m : IncidentManager) (o : Outcome)
    (r : Stepped)
    → IsKept inc m
    → Settled (fixed inc) m o
    → OtherIds inc.incident_id rest
    → Moved c inc m o
    → Swept c rest (store o.incident o.manager) r
    → Swept c (inc ∷ rest) m (r.0, o.events ++ r.1)
Swept-step c inc rest m o r kept h others mv sw = record {
  valid = sw.valid;
  counted = λ k.
      omega (arith, endings-append k o.events r.1, sw.counted k, store-counted inc m o h kept k);
  others = λ k oth. sw.others k oth.1 ∙ mv.other k (λ e. oth.0 (sym e));
  in_time = (
    (λ found e. mv.in_time found (sym (sw.others inc.incident_id others) ∙ e)),
    subst (λ limit. All (IsInTime c limit r.0.active) rest) (ap (λ x. x.deadlock_max_s) h.cfg)
        sw.in_time,
  );
  cfg = sw.cfg ∙ h.cfg;
  next_id = sw.next_id ∙ h.next_id;
}

after-some :
    (first : Option Outcome) (k : Outcome → Option Stepped) (o : Outcome) (r : Stepped)
    → first ≡ some o
    → k o ≡ some r
    → after first k ≡ some (r.0, o.events ++ r.1)
after-some first k o r e e' = rw (e, e') refl

-- A sequence that does not raise has two parts that do not.
after-parts :
    (first : Option Outcome) (k : Outcome → Option Stepped) (r : Stepped)
    → after first k ≡ some r
    → (o : Outcome) × (first ≡ some o)
      × ((r' : Stepped) × (k o ≡ some r') × ((r'.0, o.events ++ r'.1) ≡ r))
after-parts none k r e = cc
after-parts (some o) k r e = elim (Option-cases (k o)) [
  | inl raised ↦ absurd cc
  | inr (r', told) ↦ (o, refl, (r', told, ground (arith, told, e)))
]

-- An incident of a valid manager, whose step may be taken.
known :
    (inc : Incident) (m : IncidentManager)
    → IsValid m
    → lookup inc.incident_id m.active ≡ some inc
    → IsRunning inc × (inc.incident_id < m.next_id) × IsKept inc m
known inc m valid e =
    let (id, run, below) =
      Entries-lookup (IsEntry m.next_id) inc.incident_id inc m.active valid.entries e in
    (run, below, (rw (e, contains) refl, valid.unique))

step_one-Moved :
    (c : Cycle) (inc : Incident) (m : IncidentManager) (o : Outcome)
    → IsValid m
    → lookup inc.incident_id m.active ≡ some inc
    → step_one c inc m ≡ some o
    → Settled (fixed inc) m o × Moved c inc m o
step_one-Moved c inc m o valid e stepped =
    let (run, below, kept) = known inc m valid e in
    let (h, late) = step_one-Steps c inc m o run kept stepped in
    (h, moved c inc m o valid kept below h late)

pub step_each-Swept :
    (c : Cycle) (incs : List Incident) (m : IncidentManager) (r : Stepped)
    → IsValid m
    → AreKept m.active incs
    → AreDistinct incs
    → step_each c incs m ≡ some r
    → Swept c incs m r
unfolding step_each
step_each-Swept c [] m r valid kept distinct e =
    let same : (m, []) ≡ r = cc in
    subst (Swept c [] m) same (record {
      valid = valid;
      counted = λ k. omega arith;
      others = λ k oth. refl;
      in_time = tt;
      cfg = refl;
      next_id = refl;
    })
step_each-Swept c (inc ∷ rest) m r valid kept distinct e =
    let (o, stepped, (r', swept, same)) = after-parts (step_one c inc m) _ r e in
    let (run, below, is_kept) = known inc m valid kept.0 in
    let (h, mv) = step_one-Moved c inc m o valid kept.0 stepped in
    let sw =
      step_each-Swept c rest (store o.incident o.manager) r' mv.valid
        (AreKept-other inc.incident_id m.active _ rest mv.other distinct.0 kept.1) distinct.1
        swept in
    subst (Swept c (inc ∷ rest) m) same (Swept-step c inc rest m o r' is_kept h distinct.0 mv sw)

-- With no empty way, the loop does not raise.
pub step_each-IsTold :
    (c : Cycle) (incs : List Incident) (m : IncidentManager)
    → HaveWays c
    → IsValid m
    → AreKept m.active incs
    → AreDistinct incs
    → (r : Stepped) × (step_each c incs m ≡ some r)
unfolding step_each
step_each-IsTold c [] m ways valid kept distinct = ((m, []), refl)
step_each-IsTold c (inc ∷ rest) m ways valid kept distinct =
    let (run, below, is_kept) = known inc m valid kept.0 in
    let (o, stepped) = step_one-IsTold c inc m run ways in
    let (h, mv) = step_one-Moved c inc m o valid kept.0 stepped in
    let (r, swept) =
      step_each-IsTold c rest (store o.incident o.manager) ways mv.valid
        (AreKept-other inc.incident_id m.active _ rest mv.other distinct.0 kept.1) distinct.1 in
    ((r.0, o.events ++ r.1), after-some (step_one c inc m) _ o r stepped swept)
