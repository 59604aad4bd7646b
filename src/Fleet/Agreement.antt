-- ===== src/Fleet/Agreement.antt =====
-- Rounds of allocation call only robots that are not called yet.
use amr_fleet_system.Prelude.{
  ℕ, zero, suc, ℤ, true, false, not, ◌≡◌, ◌≢◌, refl, inl, inr, Option, none, some, List, [], ◌∷◌,
  member, All, arith, Bool-cases, Option-cases,
}
use amr_fleet_system.Prelude.Dict.{Dict, lookup, contains, values}
use amr_fleet_system.Allocation.Fairness.{Distinct}
use amr_fleet_system.Fleet.State.{Robot, Fleet, World, Do, bind_rule, ◌>>◌, set_robot, modify}
use amr_fleet_system.Fleet.Rounds.{
  new_dispatch, drawn, reserve, deliver, dispatch, dispatch_all, chosen, allocate_once, rounds,
  at_round, allocate_round,
}
use amr_fleet_system.Fleet.Candidates.{good_at, is_idle, chosen-is_idle, chosen-Distinct}
use amr_fleet_system.Fleet.Calls.{
  Property, Closed, Agree, Agree-Closed, Agree-Admits, Idle, Idle-Closed, Idle-Admits, Admits,
}
use amr_fleet_system.Fleet.Keeping.{
  Holds, Keeps, bind-Keeps, if-Keeps, gets-Keeps, pure-Keeps, keeping, deliver-Keeps,
}

idle-found :
    (k : ℕ) (rs : Dict Robot)
    → good_at is_idle k rs ≡ true
    → (r : Robot) × (lookup k rs ≡ some r) × (r.inflight ≡ none)
idle-found k rs h = elim (Option-cases (lookup k rs)) [
  | inl gone ↦ cc
  | inr (r, at) ↦ (r, at, ground arith)
]

module _ (Q : Property) (c : Closed Q) (w : World) where
  reserve-Holds :
      (task robot : ℕ) (delay : Option ℤ) (f : Fleet)
      → Admits Q robot
      → Holds (Idle robot) f
      → Holds Q f
      → Holds Q (reserve w task robot delay f).1
  unfolding reserve
  reserve-Holds task robot delay f admits (agree, idle) h =
      let (r, at, uncalled) = idle-found robot f.robots idle in
      rw (at, set_robot)
        (admits task (new_dispatch w f robot delay) r f.robots f.inflight refl at uncalled agree h)

  dispatch-Holds :
      (task robot : ℕ) (f : Fleet)
      → Admits Q robot
      → Holds (Idle robot) f
      → Holds Q f
      → Holds Q (dispatch w task robot f).1
  unfolding dispatch
  dispatch-Holds task robot f admits idle h = elim (Bool-cases (contains task f.scheduler.tasks)) [
    | inr missing ↦ rw missing h
    | inl queued ↦
        let delay = (drawn w f).0 in
        let f' : Fleet = record f { latency = (drawn w f).1 } in
        let after = reserve-Holds task robot delay f' admits idle h in
        rw queued (
          bind_rule (Holds Q) (reserve w task robot delay) (λ _. deliver w task robot delay) f'
            (λ e. after) (λ u e. (deliver-Keeps c w task robot delay).kept _ after))
  ]

module _ (w : World) where
  abbrev AllIdle : Fleet → List ℕ → Type 0
  AllIdle f robots = All (λ x. good_at is_idle x f.robots ≡ true) robots

  -- The other robots of a round are still idle after a call.
  others-Idle :
      (task robot : ℕ) (f : Fleet) (xs : List ℕ)
      → Holds (Idle robot) f
      → member robot xs ≡ false
      → AllIdle f xs
      → AllIdle (dispatch w task robot f).1 xs
  others-Idle task robot f [] idle apart all = tt
  others-Idle task robot f (x ∷ xs) idle apart all =
      let other : x ≢ robot = ground arith in
      (
        (dispatch-Holds (Idle x) (Idle-Closed x) w task robot f (Idle-Admits robot x other) idle
            (idle.0, all.0)).1,
        others-Idle task robot f xs idle (ground arith) all.1,
      )

  dispatch_all-Agree :
      (calls : Dict ℕ) (f : Fleet)
      → Distinct (values calls)
      → AllIdle f (values calls)
      → Holds Agree f
      → Holds Agree (dispatch_all w calls f).1
  unfolding dispatch_all
  dispatch_all-Agree [] f distinct all h = h
  dispatch_all-Agree ((task, robot) ∷ calls) f distinct all h =
      let after =
        dispatch-Holds Agree Agree-Closed w task robot f (Agree-Admits robot) (h, all.0) h in
      bind_rule (Holds Agree) (dispatch w task robot) (λ _. dispatch_all w calls) f (λ e. after)
        (λ u e.
          dispatch_all-Agree calls (dispatch w task robot f).1 distinct.1
            (others-Idle task robot f (values calls) (h, all.0) distinct.0 all.1) after)

  allocate_once-Keeps : Keeps Agree (allocate_once w)
  unfolding allocate_once
  allocate_once-Keeps = record {
    kept = λ f h.
        dispatch_all-Agree (chosen (at_round w f) f) f (chosen-Distinct (at_round w f) f)
          (chosen-is_idle (at_round w f) f h.robots_unique) h;
  }

  rounds-Keeps : (n : ℕ) → Keeps Agree (rounds n w)
  unfolding rounds
  rounds-Keeps zero = search keeping
  rounds-Keeps (suc n) =
      bind-Keeps (gets-Keeps _)
        (λ asked. if-Keeps (not asked) (pure-Keeps tt) (round-Keeps (rounds n w) (rounds-Keeps n)))
    where
      round-Keeps :
          (rest : Do (Unit {0}))
          → Keeps Agree rest
          → Keeps Agree
              (do modify (λ f. record f { realloc_requested = false }); allocate_once w; rest)
      round-Keeps rest k = search (keeping, allocate_once-Keeps)

  pub allocate_round-Keeps : Keeps Agree (allocate_round w)
  unfolding allocate_round
  allocate_round-Keeps = record {
    kept = λ f h. elim (Bool-cases f.allocating) [
      | inl busy ↦ simp busy h
      | inr free ↦ simp free (
          (rounds-Keeps w.max_rounds).kept
            (record f { allocating = true; realloc_requested = true }) h)
    ];
  }
