-- ===== src/Allocation/Fairness.antt =====
-- What a round of `allocate` assigns, whatever the strategy proposes.
use amr_fleet_system.Prelude.{
  ℕ, ◌≡◌, refl, ◌≢◌, ap, inl, inr, ◌⊎◌, Bool, true, false, ◌==◌, List, [], ◌∷◌, member, All,
  All-imp, arith, if◌then◌else◌, Bool-cases,
}
use amr_fleet_system.Prelude.Dict.{Dict, contains, insert, values}
use native.Mathlib.Decide.{ℕ_discrete}
use amr_fleet_system.Task.{TaskSpec}
use amr_fleet_system.Allocation.{
  RobotInfo, free_ids, discard, Round, Strategy, pin, pin_all, accept, accept_all, opening,
  allocate,
}

-- No identifier stands twice.
abbrev pub Distinct : List ℕ → Type 0
Distinct [] = Unit
Distinct (x ∷ xs) = (member x xs ≡ false) × Distinct xs

pub member-discard :
    (j k : ℕ) (ids : List ℕ) → member j (discard k ids) ≡ (if j == k then false else member j ids)
member-discard j k [] = ground arith
member-discard j k (i ∷ ids) = ground (arith, member-discard j k ids)

pub All-values-insert :
    (P : ℕ → Type 0) (k v : ℕ) (d : Dict ℕ) → All P (values d) → P v → All P (values (insert k v d))
All-values-insert P k v [] h p = (p, tt)
All-values-insert P k v ((i, w) ∷ d) h p = ground (arith, All-values-insert P k v d h.1 p)

member-values-insert :
    (x k v : ℕ) (d : Dict ℕ)
    → member x (values d) ≡ false
    → x ≢ v
    → member x (values (insert k v d)) ≡ false
member-values-insert x k v [] h other = ground arith
member-values-insert x k v ((i, w) ∷ d) h other = ground (arith, member-values-insert x k v d)

pub Distinct-insert :
    (k v : ℕ) (d : Dict ℕ)
    → Distinct (values d)
    → member v (values d) ≡ false
    → Distinct (values (insert k v d))
Distinct-insert k v [] h fresh = (refl, tt)
Distinct-insert k v ((i, w) ∷ d) h fresh =
    ground (arith, Distinct-insert k v d h.1, member-values-insert w k v d h.0)

not-member_of_All :
    (f : ℕ → Bool) (v : ℕ) (xs : List ℕ)
    → All (λ x. f x ≡ false) xs
    → f v ≡ true
    → member v xs ≡ false
not-member_of_All f v [] h e = refl
not-member_of_All f v (x ∷ xs) h e = elim (ℕ_discrete v x) [
  | yes same ↦ cc (ap f same)
  | no other ↦ ground (arith, not-member_of_All f v xs h.1 e)
]

-- The invariant of a round: no robot is assigned twice or both assigned and free, and all come from
-- those that were available.
pub record IsFair (offered : List ℕ) (r : Round) : Type 0 where
  pub distinct : Distinct (values r.assignments)
  pub apart : All (λ x. member x r.free ≡ false) (values r.assignments)
  pub from_offer : All (λ x. member x offered ≡ true) (values r.assignments)
  pub free_offer : (k : ℕ) → member k r.free ≡ true → member k offered ≡ true

module _ (offered : List ℕ) where
  assign-IsFair :
      (task robot : ℕ) (r : Round)
      → member robot r.free ≡ true
      → IsFair offered r
      → IsFair offered
          (record r { assignments = insert task robot r.assignments; free = discard robot r.free })
  assign-IsFair task robot r is_free h = record {
    distinct =
        Distinct-insert task robot r.assignments h.distinct
          (not-member_of_All (λ x. member x r.free) robot (values r.assignments) h.apart is_free);
    apart =
        All-values-insert (λ x. member x (discard robot r.free) ≡ false) task robot r.assignments
          (All-imp (λ x. member x r.free ≡ false) (λ x. member x (discard robot r.free) ≡ false)
            (values r.assignments) (λ x e. ground (arith, member-discard x robot r.free)) h.apart)
          (ground (arith, member-discard robot robot r.free));
    from_offer =
        All-values-insert (λ x. member x offered ≡ true) task robot r.assignments h.from_offer
          (h.free_offer robot is_free);
    free_offer = λ k e. h.free_offer k (ground (arith, member-discard k robot r.free));
  }

  pin_all-IsFair :
      (ts : List TaskSpec) (r : Round) → IsFair offered r → IsFair offered (pin_all ts r)
  unfolding pin_all
  pin_all-IsFair [] r h = h
  pin_all-IsFair (t ∷ ts) r h =
      pin_all-IsFair ts (pin t r)
        (step (Bool-cases (t.robot_id == 0)) (Bool-cases (member t.robot_id r.free)))
    where
      step :
          ((t.robot_id == 0) ≡ true) ⊎ ((t.robot_id == 0) ≡ false)
          → (member t.robot_id r.free ≡ true) ⊎ (member t.robot_id r.free ≡ false)
          → IsFair offered (pin t r)
      step (inl e) _ = rw e (record {
        distinct = h.distinct;
        apart = h.apart;
        from_offer = h.from_offer;
        free_offer = h.free_offer;
      })
      step (inr e) (inl f) = rw (e, f) (assign-IsFair t.task_id t.robot_id r f h)
      step (inr e) (inr f) = rw (e, f) h

  accept_all-IsFair :
      (ps : Dict ℕ) (r : Round) → IsFair offered r → IsFair offered (accept_all ps r)
  unfolding accept_all
  accept_all-IsFair [] r h = h
  accept_all-IsFair ((task, robot) ∷ ps) r h =
      accept_all-IsFair ps (accept task robot r)
        (step (Bool-cases (member robot r.free)) (Bool-cases (contains task r.assignments)))
    where
      step :
          (member robot r.free ≡ true) ⊎ (member robot r.free ≡ false)
          → (contains task r.assignments ≡ true) ⊎ (contains task r.assignments ≡ false)
          → IsFair offered (accept task robot r)
      step (inl e) (inr f) = rw (e, f) (assign-IsFair task robot r e h)
      step (inl e) (inl f) = rw (e, f) h
      step (inr e) _ = rw e h

-- Whatever the strategy proposes, a round assigns no robot twice, only robots that were available, and
-- leaves no assigned robot in the free set.
pub allocate-IsFair :
    (strategy : Strategy) (tasks : List TaskSpec) (robots : List RobotInfo)
    → IsFair (free_ids robots) (allocate strategy tasks robots)
unfolding allocate opening
allocate-IsFair strategy tasks robots = accept_all-IsFair (free_ids robots) _ _ (
    pin_all-IsFair (free_ids robots) tasks (opening robots)
      (record { distinct = tt; apart = tt; from_offer = tt; free_offer = λ k e. e }))
