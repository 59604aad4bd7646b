-- ===== src/Resolution/Opens.antt =====
-- What `open` does to the dictionary of the incidents.
use amr_fleet_system.Prelude.{
  ℕ, suc, ◌+◌, ◌<◌, ◌≤◌, ℤ, ◌==◌, ltb, ◌≡◌, refl, ap, ◌∙◌, subst, inl, inr, Option, none, some,
  List, [], ◌∷◌, length, if◌then◌else◌, arith, if_rule,
}
use amr_fleet_system.Prelude.Dict.{
  Dict, lookup, contains, insert, erase, IsUnique, Entries, lookup-insert, lookup-insert_self,
  insert-IsUnique, erase-absent, erase-insert_new, insert-insert, Entries-insert,
}
use amr_fleet_system.Resolution.{
  DeadlockKind, Reason, no_mobile_victim, too_many_attempts, Incident, IncidentManager, Cycle,
  new_incident, anchored, remaining, attempts_of, count_attempts, most_tried, opened, refused,
  begun, refused_or_begun, open_for, open_incident, mobile_victims, or_members, known_members,
  give_up, next_victim, add_attempt, store, Stepped,
}
use amr_fleet_system.Resolution.Settling.{
  endings, present, fixed, IsKept, Settled, give_up-active, give_up-next_id, give_up-endings,
}
use amr_fleet_system.Resolution.Falling.{start_yield-Settled, next_victim-Settled}
use amr_fleet_system.Resolution.Storing.{
  IsEntry, IsReplaced, store-replaces, store-counted, same_id,
}
use amr_fleet_system.Resolution.Sweeping.{IsValid}

anchored-same :
    (r : ℕ) (rem : Option ℤ) (m : IncidentManager)
    → ((anchored r rem m).active ≡ m.active) × ((anchored r rem m).next_id ≡ m.next_id)
anchored-same r none m = (refl, refl)
anchored-same r (some rem) m = (refl, refl)

count_attempts-same :
    (c : Cycle) (rs : List ℕ) (m : IncidentManager)
    → ((count_attempts c rs m).active ≡ m.active) × ((count_attempts c rs m).next_id ≡ m.next_id)
unfolding count_attempts
count_attempts-same c [] m = (refl, refl)
count_attempts-same c (r ∷ rs) m =
    let rem = remaining c (lookup r c.world.robots) in
    let m₁ : IncidentManager = record m {
      robot_attempts = insert r (suc (attempts_of r m)) m.robot_attempts;
    } in
    let (a, n) = count_attempts-same c rs (anchored r rem m₁) in
    let (a', n') = anchored-same r rem m₁ in (a ∙ a', n ∙ n')

fresh-lookup :
    (next n : ℕ) (d : Dict Incident) → Entries (IsEntry next) d → next ≤ n → lookup n d ≡ none
fresh-lookup next n [] es le = refl
fresh-lookup next n ((k, inc) ∷ d) es le = ground (arith, es.0.2, fresh-lookup next n d es.1 le)

Entries-later :
    (next : ℕ) (d : Dict Incident) → Entries (IsEntry next) d → Entries (IsEntry (suc next)) d
Entries-later next [] es = tt
Entries-later next ((k, inc) ∷ d) ((e, run, lt), es) =
    ((e, run, omega arith), Entries-later next d es)

-- A new number has been given out, to an incident that is there or has had its end.
pub record Opens (m : IncidentManager) (r : Stepped) : Type 0 where
  pub valid : IsValid r.0
  pub counted :
      (k : ℕ)
      → endings k r.1 + present k r.0.active
        ≡ (if k == m.next_id then 1 else 0) + present k m.active
  pub next_id : r.0.next_id ≡ suc m.next_id

-- The manager that has counted the attempts.
abbrev IsCounted : IncidentManager → IncidentManager → Type 0
IsCounted m m₁ = (m₁.active ≡ m.active) × (m₁.next_id ≡ suc m.next_id)

refused-Opens :
    (c : Cycle) (inc : Incident) (why : Reason) (m m₁ : IncidentManager)
    → IsValid m
    → inc.incident_id ≡ m.next_id
    → IsCounted m m₁
    → Opens m (refused c inc why m₁)
refused-Opens c inc why m m₁ valid id (active, next) =
    let fresh = fresh-lookup m.next_id inc.incident_id m.active valid.entries (omega arith) in
    let same : (give_up c.now inc why m₁).manager.active ≡ m.active =
      give_up-active c.now inc why m₁
      ∙ ap (erase inc.incident_id) active
      ∙ erase-absent inc.incident_id m.active fresh in
    let next' = give_up-next_id c.now inc why m₁ ∙ next in
    record {
      valid = record {
        unique = rw same valid.unique;
        entries = rw (same, next') (Entries-later m.next_id m.active valid.entries);
      };
      counted = λ k. rw same (ground (arith, give_up-endings c.now inc why m₁ k));
      next_id = next';
    }

or_members-positive : (vs : List ℕ) (r : ℕ) (ms : List ℕ) → 0 < length (or_members vs (r ∷ ms))
or_members-positive [] r ms = omega arith
or_members-positive (v ∷ vs) r ms = omega arith

opened-Settled :
    (c : Cycle) (inc : Incident) (m : IncidentManager)
    → inc.victim_index ≡ 0
    → 0 < length inc.victims
    → IsKept inc (record m { active = insert inc.incident_id inc m.active })
    → Settled
        (fixed inc)
        (record m { active = insert inc.incident_id inc m.active })
        (opened c inc m)
opened-Settled c inc m first some_victim kept =
    start_yield-Settled (next_victim (length inc.victims) c) c inc _ (rw first some_victim)
      (λ a why.
        next_victim-Settled (length inc.victims) c (add_attempt a inc) _ _
          (rw first (some_victim, omega arith)) (λ e. absurd cc) kept)

present-new :
    (k id : ℕ) (inc : Incident) (d : Dict Incident)
    → lookup id d ≡ none
    → present k (insert id inc d) ≡ (if k == id then 1 else 0) + present k d
present-new k id inc d e = ground (arith, lookup-insert k id inc d)

-- A new incident that has gone at once leaves the dictionary as it was.
new_replaced :
    (id next : ℕ) (inc new : Incident) (d d' : Dict Incident)
    → lookup id d ≡ none
    → IsUnique d
    → Entries (IsEntry next) d
    → id ≡ next
    → new.incident_id ≡ id
    → IsReplaced id new (insert id inc d) d'
    → IsUnique d' × Entries (IsEntry (suc next)) d'
new_replaced id next inc new d d' fresh u es e e' (inl gone) =
    let same : d' ≡ d = gone ∙ erase-insert_new id inc d fresh in
    (rw same u, rw same (Entries-later next d es))
new_replaced id next inc new d d' fresh u es e e' (inr (put, run)) =
    let same : d' ≡ insert id new d = put ∙ insert-insert id inc new d in
    (
      rw same (insert-IsUnique id new d u),
      rw same (
          Entries-insert (IsEntry (suc next)) id new d (Entries-later next d es)
            (e', run, omega arith)),
    )

begun-Opens :
    (c : Cycle) (inc : Incident) (m m₁ : IncidentManager)
    → IsValid m
    → inc.incident_id ≡ m.next_id
    → inc.victim_index ≡ 0
    → 0 < length inc.victims
    → IsCounted m m₁
    → Opens m (begun c inc m₁)
begun-Opens c inc m m₁ valid id first some_victim (active, next) =
    let n = inc.incident_id in
    let d = m.active in
    let m₂ : IncidentManager = record m₁ { active = insert n inc m₁.active } in
    let fresh = fresh-lookup m.next_id n d valid.entries (omega arith) in
    let kept : IsKept inc m₂ = (
      rw (lookup-insert_self n inc m₁.active, contains) refl,
      insert-IsUnique n inc m₁.active (rw active valid.unique),
    ) in
    let o = opened c inc m₁ in
    let h = opened-Settled c inc m₁ first some_victim kept in
    let next' : o.manager.next_id ≡ suc m.next_id = h.next_id ∙ next in
    let d' = (store o.incident o.manager).active in
    let valid' : IsUnique d' × Entries (IsEntry (suc m.next_id)) d' =
      new_replaced n m.next_id inc o.incident d d' fresh valid.unique valid.entries id
        (same_id inc m₂ o h kept)
        (subst (λ x. IsReplaced n o.incident (insert n inc x) d') active
          (store-replaces inc m₂ o h kept)) in
    record {
      valid = record { unique = valid'.0; entries = rw next' valid'.1 };
      counted = λ k.
          store-counted inc m₂ o h kept k
          ∙ ap (λ x. present k (insert n inc x)) active
          ∙ present-new k n inc d fresh
          ∙ ap (λ j. (if k == j then 1 else 0) + present k d) id;
      next_id = next';
    }

refused_or_begun-Opens :
    (c : Cycle) (inc : Incident) (worst : ℕ) (m m₁ : IncidentManager) (vs : List ℕ)
    → IsValid m
    → inc.incident_id ≡ m.next_id
    → inc.victim_index ≡ 0
    → 0 < length inc.victims
    → IsCounted m m₁
    → Opens m (refused_or_begun c inc worst m₁ vs)
refused_or_begun-Opens c inc worst m m₁ [] valid id first some_victim counted =
    refused-Opens c inc no_mobile_victim m m₁ valid id counted
refused_or_begun-Opens c inc worst m m₁ (v ∷ vs) valid id first some_victim counted =
    if_rule (Opens m) (ltb m₁.cfg.max_attempts_per_robot (attempts_of worst m₁)) _ _
      (λ e. refused-Opens c inc (too_many_attempts worst) m m₁ valid id counted)
      (λ e. begun-Opens c inc m m₁ valid id first some_victim counted)

open_for-Opens :
    (c : Cycle) (kind : DeadlockKind) (zones : List ℕ) (m : IncidentManager) (ms : List ℕ)
    (r : Stepped)
    → IsValid m
    → open_for c kind zones m ms ≡ some r
    → Opens m r
open_for-Opens c kind zones m [] r valid e = cc
open_for-Opens c kind zones m (x ∷ rest) r valid e =
    let ms = x ∷ rest in
    let m₀ : IncidentManager = record m { next_id = suc m.next_id } in
    let m₁ = count_attempts c ms m₀ in
    let inc = new_incident c ms kind zones m.next_id in
    let o =
      refused_or_begun-Opens c inc (most_tried m₁ x rest) m m₁ (mobile_victims c ms) valid refl refl
        (or_members-positive (mobile_victims c ms) x rest) (count_attempts-same c ms m₀) in
    let same : refused_or_begun c inc (most_tried m₁ x rest) m₁ (mobile_victims c ms) ≡ r = cc in
    subst (Opens m) same o

pub open_incident-Opens :
    (c : Cycle) (robots : List ℕ) (kind : DeadlockKind) (zones : List ℕ) (m : IncidentManager)
    (r : Stepped)
    → IsValid m
    → open_incident c robots kind zones m ≡ some r
    → Opens m r
unfolding open_incident
open_incident-Opens c robots kind zones m r valid e =
    open_for-Opens c kind zones m (known_members c robots) r valid e
