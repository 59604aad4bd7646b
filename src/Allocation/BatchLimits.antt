-- ===== src/Allocation/BatchLimits.antt =====
-- What `select_batch` lets through.
use amr_fleet_system.Prelude.{
  ℕ, ◌+◌, ◌≤◌, ◌<◌, ltb, leb, ◌≡◌, refl, sym, ap, ◌∙◌, inl, inr, ◌⊎◌, true, false, not, ◌&&◌, ◌||◌,
  ◌==◌, List, [], ◌∷◌, ◌++◌, length, length-append, member, All, All-append, All-imp, arith,
  if◌then◌else◌, Bool-cases,
}
use mathlib.Core.List.{Sublistᴰ, Sublist, append-nil, append_assoc, nil-sublist}
use amr_fleet_system.Task.{TaskSpec}
use amr_fleet_system.Allocation.{RobotInfo, free_ids, fill_batch, select_batch}
use amr_fleet_system.Allocation.Fairness.{Distinct}

-- The robots that tasks are pinned to, in order; and how many tasks are pinned to none.
abbrev pub pinned_robots : List TaskSpec → List ℕ
pinned_robots [] = []
pinned_robots (t ∷ ts) = if t.robot_id == 0 then pinned_robots ts else t.robot_id ∷ pinned_robots ts

abbrev pub unpinned_count : List TaskSpec → ℕ
unpinned_count [] = 0
unpinned_count (t ∷ ts) = if t.robot_id == 0 then unpinned_count ts + 1 else unpinned_count ts

pinned_robots-snoc :
    (ts : List TaskSpec) (t : TaskSpec)
    → pinned_robots (ts ++ t ∷ [])
      ≡ (if t.robot_id == 0 then pinned_robots ts else pinned_robots ts ++ t.robot_id ∷ [])
pinned_robots-snoc [] t = refl
pinned_robots-snoc (x ∷ ts) t = ground (arith, pinned_robots-snoc ts t)

unpinned_count-snoc :
    (ts : List TaskSpec) (t : TaskSpec)
    → unpinned_count (ts ++ t ∷ [])
      ≡ (if t.robot_id == 0 then unpinned_count ts + 1 else unpinned_count ts)
unpinned_count-snoc [] t = refl
unpinned_count-snoc (x ∷ ts) t = ground (arith, unpinned_count-snoc ts t)

member-snoc : (x y : ℕ) (xs : List ℕ) → member x (xs ++ y ∷ []) ≡ (member x xs || x == y)
member-snoc x y [] = ground arith
member-snoc x y (z ∷ xs) = ground (arith, member-snoc x y xs)

Distinct-snoc : (y : ℕ) (xs : List ℕ) → Distinct xs → member y xs ≡ false → Distinct (xs ++ y ∷ [])
Distinct-snoc y [] d fresh = (refl, tt)
Distinct-snoc y (x ∷ xs) d fresh = ground (arith, Distinct-snoc y xs d.1, member-snoc x y xs)

member-All :
    (taken : List ℕ) (y : ℕ) (xs : List ℕ)
    → All (λ x. member x taken ≡ true) xs
    → member y taken ≡ false
    → member y xs ≡ false
member-All taken y [] h fresh = refl
member-All taken y (x ∷ xs) h fresh = elim (Bool-cases (y == x)) [
  | inl e ↦ let same : y ≡ x = ground arith in cc (ap (λ (z : ℕ). member z taken) same)
  | inr e ↦ ground (arith, member-All taken y xs h.1)
]

-- What holds of the batch while it is filled: the pinned robots are free ones, each taken once.
pub record IsBatch (free taken : List ℕ) (limit : ℕ) (batch : List TaskSpec) : Type 0 where
  pub small_enough : length batch ≤ limit
  pub distinct : Distinct (pinned_robots batch)
  pub from_free : All (λ x. member x free ≡ true) (pinned_robots batch)
  pub recorded : All (λ x. member x taken ≡ true) (pinned_robots batch)

total_unpinned :
    (batch : List TaskSpec) (t : TaskSpec) (ts : List TaskSpec)
    → (t.robot_id == 0) ≡ true
    → unpinned_count (batch ++ t ∷ []) + unpinned_count ts
      ≡ unpinned_count batch + (unpinned_count ts + 1)
total_unpinned batch t ts e = ground (arith, unpinned_count-snoc batch t)

same_unpinned :
    (batch : List TaskSpec) (t : TaskSpec)
    → (t.robot_id == 0) ≡ false
    → unpinned_count (batch ++ t ∷ []) ≡ unpinned_count batch
same_unpinned batch t e = ground (arith, unpinned_count-snoc batch t)

nil-Sublistᴰ : (ts : List TaskSpec) → Sublistᴰ [] ts
nil-Sublistᴰ [] = Sublistᴰ.slnil
nil-Sublistᴰ (t ∷ ts) = Sublistᴰ.cons (nil-Sublistᴰ ts)

module _ (free : List ℕ) (limit : ℕ) where
  add_unpinned :
      (taken : List ℕ) (batch : List TaskSpec) (t : TaskSpec)
      → IsBatch free taken limit batch
      → length batch < limit
      → (t.robot_id == 0) ≡ true
      → IsBatch free taken limit (batch ++ t ∷ [])
  add_unpinned taken batch t h room e = record {
    small_enough = omega (arith, length-append batch (t ∷ []));
    distinct = ground (arith, pinned_robots-snoc batch t, h.distinct);
    from_free = ground (arith, pinned_robots-snoc batch t, h.from_free);
    recorded = ground (arith, pinned_robots-snoc batch t, h.recorded);
  }

  add_pinned :
      (taken : List ℕ) (batch : List TaskSpec) (t : TaskSpec)
      → IsBatch free taken limit batch
      → length batch < limit
      → (t.robot_id == 0) ≡ false
      → member t.robot_id free ≡ true
      → member t.robot_id taken ≡ false
      → IsBatch free (t.robot_id ∷ taken) limit (batch ++ t ∷ [])
  add_pinned taken batch t h room e is_free fresh =
      let robots = pinned_robots batch in
      record {
        small_enough = omega (arith, length-append batch (t ∷ []));
        distinct = ground (
          arith,
          pinned_robots-snoc batch t,
          Distinct-snoc t.robot_id robots h.distinct
              (member-All taken t.robot_id robots h.recorded fresh),
        );
        from_free =
            rw (pinned_robots-snoc batch t, e)
              (All-append (λ x. member x free ≡ true) robots (t.robot_id ∷ []) h.from_free
                (is_free, tt));
        recorded =
            rw (pinned_robots-snoc batch t, e)
              (All-append (λ x. member x (t.robot_id ∷ taken) ≡ true) robots (t.robot_id ∷ [])
                (All-imp (λ x. member x taken ≡ true) (λ x. member x (t.robot_id ∷ taken) ≡ true)
                  robots (λ x m. ground arith) h.recorded)
                (ground arith, tt));
      }

  -- The final batch, with the pinned robots that it took; and it is full or holds every unpinned task.
  abbrev Filled : ℕ → List TaskSpec → Type 0
  Filled wanted result =
      ((taken : List ℕ) × IsBatch free taken limit result)
      × ((limit ≤ length result) ⊎ (wanted ≤ unpinned_count result))

  fill_batch-Filled :
      (ts : List TaskSpec) (taken : List ℕ) (batch : List TaskSpec)
      → IsBatch free taken limit batch
      → Filled (unpinned_count batch + unpinned_count ts) (fill_batch free limit taken batch ts)
  unfolding fill_batch
  fill_batch-Filled [] taken batch h = ((taken, h), inr (omega arith))
  fill_batch-Filled (t ∷ ts) taken batch h = elim (Bool-cases (leb limit (length batch))) [
    | inl full ↦ rw full ((taken, h), inl (ground arith))
    | inr open_left ↦ elim (Bool-cases (t.robot_id == 0)) [
      | inl e ↦
          rw (open_left, e)
            (rw (← total_unpinned batch t ts e) (
              fill_batch-Filled ts taken (batch ++ t ∷ [])
                (add_unpinned taken batch t h (ground arith) e)))
      | inr e ↦ elim (Bool-cases (member t.robot_id free)) [
        | inr busy ↦ rw (open_left, e, busy) (fill_batch-Filled ts taken batch h)
        | inl is_free ↦ elim (Bool-cases (member t.robot_id taken)) [
          | inl twice ↦ rw (open_left, e, is_free, twice) (fill_batch-Filled ts taken batch h)
          | inr fresh ↦
              rw (open_left, e, is_free, fresh)
                (rw (← same_unpinned batch t e) (
                  fill_batch-Filled ts (t.robot_id ∷ taken) (batch ++ t ∷ [])
                    (add_pinned taken batch t h (ground arith) e is_free fresh)))
        ]
      ]
    ]
  ]

  -- The loop adds tasks in their order, each at most once.
  fill_batch-Sublistᴰ :
      (ts : List TaskSpec) (taken : List ℕ) (batch : List TaskSpec)
      → (more : List TaskSpec) × (fill_batch free limit taken batch ts ≡ batch ++ more)
        × Sublistᴰ more ts
  unfolding fill_batch
  fill_batch-Sublistᴰ [] taken batch = ([], sym (append-nil batch), Sublistᴰ.slnil)
  fill_batch-Sublistᴰ (t ∷ ts) taken batch =
      let pinned = not (t.robot_id == 0) in
      let fits = member t.robot_id free && not (member t.robot_id taken) in
      let taken' = if pinned && fits then t.robot_id ∷ taken else taken in
      elim (Bool-cases (leb limit (length batch))) [
        | inl full ↦ rw full ([], sym (append-nil batch), nil-Sublistᴰ (t ∷ ts))
        | inr open_left ↦ elim (Bool-cases (not pinned || fits)) [
          | inl goes ↦
              let (more, e, sub) = fill_batch-Sublistᴰ ts taken' (batch ++ t ∷ []) in
              rw (open_left, goes)
                (t ∷ more, e ∙ append_assoc batch (t ∷ []) more, Sublistᴰ.cons-cons refl sub)
          | inr stays ↦
              let (more, e, sub) = fill_batch-Sublistᴰ ts taken' batch in
              rw (open_left, stays) (more, e, Sublistᴰ.cons sub)
        ]
      ]

-- The batch of `select_batch`: the given tasks in their order, each at most once; at most `k` of them,
-- or with no `k` as many as there are free robots; those that are pinned are pinned to free robots,
-- no two to the same; and unless no robot is free, the batch is full or leaves out no unpinned task,
-- so that a task pinned to a busy robot holds up no other.
pub select_batch_lem :
    (tasks : List TaskSpec) (robots : List RobotInfo) (k : ℕ)
    → let free = free_ids robots in
      let limit = if ltb 0 k then k else length free in
      let batch = select_batch tasks robots k in
      Sublist batch tasks
      × (length batch ≤ limit)
      × Distinct (pinned_robots batch)
      × All (λ x. member x free ≡ true) (pinned_robots batch)
      × ((length free ≡ 0)
          ⊎ ((limit ≤ length batch) ⊎ (unpinned_count tasks ≤ unpinned_count batch)))
unfolding select_batch
select_batch_lem tasks robots k =
    let free = free_ids robots in
    let limit = if ltb 0 k then k else length free in
    elim (Bool-cases (length free == 0)) [
      | inl none_free ↦ rw none_free (nil-sublist tasks, omega arith, tt, tt, inl (ground arith))
      | inr some_free ↦ elim (Bool-cases (limit == 0)) [
        | inl no_room ↦ absurd (ground arith)
        | inr room ↦
            let start : IsBatch free [] limit [] = record {
              small_enough = omega arith;
              distinct = tt;
              from_free = tt;
              recorded = tt;
            } in
            let ((taken, h), whole) = fill_batch-Filled free limit tasks [] [] start in
            let (more, e, sub) = fill_batch-Sublistᴰ free limit tasks [] [] in
            rw (some_free, room)
              (
                ∣ rw e sub ∣₁,
                h.small_enough,
                h.distinct,
                h.from_free,
                inr (elim whole [ inl f ↦ inl f | inr w ↦ inr (omega arith) ]),
              )
      ]
    ]
