-- ===== src/Resolution/Storing.antt =====
-- The dictionary of the incidents after one of them has made its step.
use amr_fleet_system.Prelude.{ℕ, ◌+◌, ◌<◌, true, ◌≡◌, sym, ap, ◌∙◌, ◌⊎◌, inl, inr, ◌≢◌, some, arith}
use amr_fleet_system.Prelude.Dict.{
  Dict, lookup, contains, erase, insert, IsUnique, Entries, lookup-erase_self, lookup-erase_ne,
  lookup-insert_self, lookup-insert_ne, lookup-insert, insert-IsUnique, erase-IsUnique,
  Entries-insert, Entries-erase,
}
use amr_fleet_system.Resolution.{Incident, IncidentManager, Outcome, stored, store}
use amr_fleet_system.Resolution.Settling.{endings, present, IsRunning, fixed, Settled, IsKept}

pub stored-erased :
    (inc : Incident) (id : ℕ) (d : Dict Incident)
    → inc.incident_id ≡ id
    → IsUnique d
    → stored inc (erase id d) ≡ erase id d
stored-erased inc id d e u = ground (arith, lookup-erase_self id d u)

stored-kept :
    (inc : Incident) (id : ℕ) (d : Dict Incident)
    → inc.incident_id ≡ id
    → contains id d ≡ true
    → stored inc d ≡ insert id inc d
stored-kept inc id d e there = ground arith

present-stored :
    (k : ℕ) (inc : Incident) (d : Dict Incident) → present k (stored inc d) ≡ present k d
present-stored k inc d = ground (arith, lookup-insert k inc.incident_id inc d)

-- The incident goes, or its new state takes the place of the old one.
abbrev pub IsReplaced : ℕ → Incident → Dict Incident → Dict Incident → Type 0
IsReplaced id inc d d' = (d' ≡ erase id d) ⊎ ((d' ≡ insert id inc d) × IsRunning inc)

module _ (inc : Incident) (m : IncidentManager) (o : Outcome) (h : Settled (fixed inc) m o)
    (kept : IsKept inc m) where
  pub same_id : o.incident.incident_id ≡ inc.incident_id
  same_id = ap (λ f. f.id) h.same

  pub store-replaces :
      IsReplaced inc.incident_id o.incident m.active (store o.incident o.manager).active
  store-replaces = elim h.goes_on [
    | inl gone ↦ inl (
        ap (stored o.incident) gone
        ∙ stored-erased o.incident inc.incident_id m.active same_id kept.1)
    | inr (stays, run) ↦ inr (
      ap (stored o.incident) stays ∙ stored-kept o.incident inc.incident_id m.active same_id kept.0,
      run,
    )
  ]

  pub store-counted :
      (k : ℕ)
      → endings k o.events + present k (store o.incident o.manager).active ≡ present k m.active
  store-counted k =
      ap (λ n. endings k o.events + n) (present-stored k o.incident o.manager.active) ∙ h.counted k

-- What every incident of the dictionary is.
abbrev pub IsEntry : ℕ → ℕ → Incident → Type 0
IsEntry next k inc = (inc.incident_id ≡ k) × IsRunning inc × (k < next)

module _ (id next : ℕ) (inc : Incident) (d d' : Dict Incident) (r : IsReplaced id inc d d') where
  pub replaced-other : (k : ℕ) → k ≢ id → lookup k d' ≡ lookup k d
  replaced-other k other = elim r [
    | inl gone ↦ rw gone (lookup-erase_ne id d {j = k} other)
    | inr (new, run) ↦ rw new (lookup-insert_ne k id inc d other)
  ]

  pub replaced-IsUnique : IsUnique d → IsUnique d'
  replaced-IsUnique u = elim r [
    | inl gone ↦ rw gone (erase-IsUnique id d u)
    | inr (new, run) ↦ rw new (insert-IsUnique id inc d u)
  ]

  pub replaced-Entries :
      inc.incident_id ≡ id → id < next → Entries (IsEntry next) d → Entries (IsEntry next) d'
  replaced-Entries e below es = elim r [
    | inl gone ↦ rw gone (Entries-erase (IsEntry next) id d es)
    | inr (new, run) ↦ rw new (Entries-insert (IsEntry next) id inc d es (e, run, below))
  ]

  -- What is found at its place is its new state.
  pub replaced_self : IsUnique d → (found : Incident) → lookup id d' ≡ some found → found ≡ inc
  replaced_self u found e = elim r [
    | inl gone ↦
        let erased = lookup-erase_self id d u in
        let there = ap (lookup id) (sym gone) ∙ e in absurd cc
    | inr (new, run) ↦
        let now = lookup-insert_self id inc d in let there = ap (lookup id) (sym new) ∙ e in cc
  ]
