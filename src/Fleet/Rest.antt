-- ===== src/Fleet/Rest.antt =====
-- The robots that a round may still call: those that are not left out for a while.
use amr_fleet_system.Prelude.{
  ℕ, suc, ◌≤◌, ◌<◌, ℤ, ltb_ℤ, Bool, true, false, not, ◌≡◌, refl, ◌∙◌, inl, inr, none, some, [], ◌∷◌,
  length, arith, Option-cases, if◌then◌else◌,
}
use amr_fleet_system.Prelude.Dict.{
  Dict, lookup, insert, erase, keys, IsUnique, lookup-insert, insert-IsUnique,
}
use amr_fleet_system.Fleet.State.{Robot, Fleet, set_robot}
use amr_fleet_system.Fleet.Tasks.{freed, clear_inflight}

abbrev pub is_rested : ℤ → Robot → Bool
is_rested now r = not (ltb_ℤ now r.backoff_until)

abbrev pub rested_at : ℤ → ℕ → Dict Robot → Bool
rested_at now k d = elim (lookup k d) [ none ↦ false | some r ↦ is_rested now r ]

abbrev pub count : ℤ → Dict Robot → ℕ
count now [] = 0
count now ((k, r) ∷ d) = if is_rested now r then suc (count now d) else count now d

pub count-keys : (now : ℤ) (d : Dict Robot) → count now d ≤ length (keys d)
count-keys now [] = omega arith
count-keys now ((k, r) ∷ d) = ground (arith, count-keys now d)

module _ (now : ℤ) (k : ℕ) (r r' : Robot) where
  count-insert_same :
      (d : Dict Robot)
      → lookup k d ≡ some r
      → r'.backoff_until ≡ r.backoff_until
      → count now (insert k r' d) ≡ count now d
  count-insert_same [] found same = cc
  count-insert_same ((j, x) ∷ d) found same = ground (arith, count-insert_same d)

  pub count-insert_le :
      (d : Dict Robot)
      → lookup k d ≡ some r
      → is_rested now r' ≡ false
      → count now (insert k r' d) ≤ count now d
  count-insert_le [] found tired = cc
  count-insert_le ((j, x) ∷ d) found tired = ground (arith, count-insert_le d)

  pub count-insert_lt :
      (d : Dict Robot)
      → lookup k d ≡ some r
      → is_rested now r' ≡ false
      → is_rested now r ≡ true
      → count now (insert k r' d) < count now d
  count-insert_lt [] found tired rested = cc
  count-insert_lt ((j, x) ∷ d) found tired rested = ground (arith, count-insert_lt d)

-- Nothing that a round looks at has changed but calls and the queue.
pub record Kept (now : ℤ) (f f' : Fleet) : Type 0 where
  pub params : f'.params ≡ f.params
  pub requested : f'.realloc_requested ≡ f.realloc_requested
  pub rested : (k : ℕ) → rested_at now k f'.robots ≡ rested_at now k f.robots
  pub counted : count now f'.robots ≡ count now f.robots
  pub unique : IsUnique f.robots → IsUnique f'.robots

-- A call was given up: another round is asked for, and one robot the less is rested if it was.
pub record Tired (now : ℤ) (robot : ℕ) (f f' : Fleet) : Type 0 where
  pub params : f'.params ≡ f.params
  pub requested : f'.realloc_requested ≡ true
  pub fewer : count now f'.robots ≤ count now f.robots
  pub left_out : rested_at now robot f.robots ≡ true → count now f'.robots < count now f.robots
  pub unique : IsUnique f.robots → IsUnique f'.robots

module _ (now : ℤ) where
  pub Kept-refl : (f : Fleet) → Kept now f f
  Kept-refl f = record {
    params = refl;
    requested = refl;
    rested = λ k. refl;
    counted = refl;
    unique = λ u. u;
  }

  pub Kept-trans : (f g h : Fleet) → Kept now f g → Kept now g h → Kept now f h
  Kept-trans f g h a b = record {
    params = b.params ∙ a.params;
    requested = b.requested ∙ a.requested;
    rested = λ k. b.rested k ∙ a.rested k;
    counted = b.counted ∙ a.counted;
    unique = λ u. b.unique (a.unique u);
  }

  pub Kept-Tired :
      (robot : ℕ) (f g h : Fleet) → Kept now f g → Tired now robot g h → Tired now robot f h
  Kept-Tired robot f g h a b = record {
    params = b.params ∙ a.params;
    requested = b.requested;
    fewer = omega (arith, a.counted, b.fewer);
    left_out = λ e. (let l = b.left_out (a.rested robot ∙ e) in omega (arith, a.counted));
    unique = λ u. b.unique (a.unique u);
  }

  -- A robot is written, and its rest is left alone.
  pub write-Kept :
      (k : ℕ) (r r' : Robot) (f : Fleet)
      → lookup k f.robots ≡ some r
      → r'.backoff_until ≡ r.backoff_until
      → Kept now f (record f { robots = insert k r' f.robots })
  write-Kept k r r' f found same = record {
    params = refl;
    requested = refl;
    rested = λ j. ground (arith, lookup-insert j k r' f.robots);
    counted = count-insert_same now k r r' f.robots found same;
    unique = insert-IsUnique k r' f.robots;
  }

  pub set_robot-Kept :
      (k : ℕ) (g : Robot → Robot) (f : Fleet)
      → ((r : Robot) → (g r).backoff_until ≡ r.backoff_until)
      → Kept now f (set_robot k g f).1
  set_robot-Kept k g f same = elim (Option-cases (lookup k f.robots)) [
    | inl e ↦ rw (e, set_robot) (Kept-refl f)
    | inr (r, e) ↦ rw (e, set_robot) (write-Kept k r (g r) f e (same r))
  ]

  freed-backoff : (task : ℕ) (r : Robot) → (freed task r).backoff_until ≡ r.backoff_until
  freed-backoff task r = ground arith

  pub clear_inflight-Kept : (task : ℕ) (f : Fleet) → Kept now f (clear_inflight task f).1
  unfolding clear_inflight
  clear_inflight-Kept task f = elim (Option-cases (lookup task f.inflight)) [
    | inl e ↦ rw (e, clear_inflight) (Kept-refl f)
    | inr (d, e) ↦
        let g = record f { inflight = erase task f.inflight } in
        rw (e, clear_inflight)
          (Kept-trans f g _
            (record {
              params = refl;
              requested = refl;
              rested = λ k. refl;
              counted = refl;
              unique = λ u. u;
            })
            (set_robot-Kept d.robot_id (freed task) g (freed-backoff task)))
  ]
