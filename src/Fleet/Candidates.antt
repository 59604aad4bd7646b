-- ===== src/Fleet/Candidates.antt =====
-- What all candidates have in common, the robots that a round chooses have too.
use amr_fleet_system.Prelude.{
  ℕ, ℤ, ◌≤ℤ◌, Bool, true, false, ◌≡◌, sym, subst, inl, inr, ◌⊎◌, none, some, List, [], ◌∷◌, member,
  All, All-imp, All-append, arith, Bool-cases,
}
use amr_fleet_system.Prelude.Dict.{Dict, lookup, values, IsUnique}
use amr_fleet_system.Allocation.{RobotInfo, free_ids, select_batch}
use amr_fleet_system.Allocation.Fairness.{Distinct, allocate-IsFair}
use amr_fleet_system.Fleet.State.{Robot, Fleet, World}
use amr_fleet_system.Fleet.Rounds.{
  is_none, candidate_of, candidates_in, candidates, waiting, chosen,
}
use amr_fleet_system.Fleet.Rest.{is_rested}

abbrev pub good_at : (Robot → Bool) → ℕ → Dict Robot → Bool
good_at good k d = elim (lookup k d) [ none ↦ false | some r ↦ good r ]

abbrev pub is_idle : Robot → Bool
is_idle r = is_none r.inflight

-- A candidate is rested, also at any later time, and called for nothing.
candidate_of-is_rested :
    (w : World) (f : Fleet) (last : ℤ) (k : ℕ) (r : Robot)
    → w.now ≤ℤ last
    → All (λ c. (c.robot_id ≡ k) × (is_rested last r ≡ true)) (candidate_of w f k r)
candidate_of-is_rested w f last k r early = ground arith

candidate_of-is_idle :
    (w : World) (f : Fleet) (k : ℕ) (r : Robot)
    → All (λ c. (c.robot_id ≡ k) × (is_idle r ≡ true)) (candidate_of w f k r)
candidate_of-is_idle w f k r = ground arith

module _ (w : World) (f : Fleet) (good : Robot → Bool) where
  abbrev Good : Dict Robot → RobotInfo → Type 0
  Good d c = good_at good c.robot_id d ≡ true

  elsewhere :
      (j k : ℕ) (r : Robot) (d : Dict Robot)
      → lookup k d ≡ none
      → good_at good j d ≡ true
      → good_at good j ((k, r) ∷ d) ≡ true
  elsewhere j k r d absent h = ground arith

  candidates_in-Good :
      (d : Dict Robot)
      → IsUnique d
      → ((k : ℕ) (r : Robot) → All (λ c. (c.robot_id ≡ k) × (good r ≡ true)) (candidate_of w f k r))
      → All (Good d) (candidates_in w f d)
  candidates_in-Good [] u each = tt
  candidates_in-Good ((k, r) ∷ d) u each =
      All-append (Good ((k, r) ∷ d)) (candidate_of w f k r) (candidates_in w f d)
        (All-imp (λ c. (c.robot_id ≡ k) × (good r ≡ true)) (Good ((k, r) ∷ d))
          (candidate_of w f k r) (λ c h. ground (arith, h)) (each k r))
        (All-imp (Good d) (Good ((k, r) ∷ d)) (candidates_in w f d)
          (λ c h. elsewhere c.robot_id k r d u.0 h) (candidates_in-Good d u.1 each))

  free_ids-cases :
      (x : ℕ) (c : RobotInfo) (cs : List RobotInfo)
      → member x (free_ids (c ∷ cs)) ≡ true
      → (x ≡ c.robot_id) ⊎ (member x (free_ids cs) ≡ true)
  free_ids-cases x c cs e = elim (Bool-cases (member x (free_ids cs))) [
    | inl there ↦ inr there
    | inr absent ↦ inl (ground arith)
  ]

  free_ids-Good :
      (d : Dict Robot) (x : ℕ) (cs : List RobotInfo)
      → All (Good d) cs
      → member x (free_ids cs) ≡ true
      → good_at good x d ≡ true
  free_ids-Good d x [] h e = cc
  free_ids-Good d x (c ∷ cs) h e = elim (free_ids-cases x c cs e) [
    | inl same ↦ subst (λ y. good_at good y d ≡ true) (sym same) h.0
    | inr there ↦ free_ids-Good d x cs h.1 there
  ]

  chosen-Good :
      IsUnique f.robots
      → ((k : ℕ) (r : Robot) → All (λ c. (c.robot_id ≡ k) × (good r ≡ true)) (candidate_of w f k r))
      → All (λ x. good_at good x f.robots ≡ true) (values (chosen w f))
  unfolding candidates
  chosen-Good u each =
      let cs = candidates_in w f f.robots in
      let fair =
        allocate-IsFair w.strategy (select_batch (waiting w f) cs f.params.allocation_batch_size)
          cs in
      All-imp (λ x. member x (free_ids cs) ≡ true) (λ x. good_at good x f.robots ≡ true) _
        (λ x h. free_ids-Good f.robots x cs (candidates_in-Good f.robots u each) h) fair.from_offer

module _ (w : World) (f : Fleet) where
  pub chosen-is_rested :
      (last : ℤ)
      → w.now ≤ℤ last
      → IsUnique f.robots
      → All (λ x. good_at (is_rested last) x f.robots ≡ true) (values (chosen w f))
  chosen-is_rested last early u =
      chosen-Good w f (is_rested last) u (λ k r. candidate_of-is_rested w f last k r early)

  pub chosen-is_idle :
      IsUnique f.robots → All (λ x. good_at is_idle x f.robots ≡ true) (values (chosen w f))
  chosen-is_idle u = chosen-Good w f is_idle u (candidate_of-is_idle w f)

  pub chosen-Distinct : Distinct (values (chosen w f))
  chosen-Distinct =
      (allocate-IsFair w.strategy
        (select_batch (waiting w f) (candidates w f) f.params.allocation_batch_size)
        (candidates w f)).distinct
