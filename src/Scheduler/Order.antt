-- ===== src/Scheduler/Order.antt =====
-- What the sort key of `TaskScheduler` puts first.
use amr_fleet_system.Prelude.{
  ℕ, suc, ◌+◌, ◌*◌, ◌≤◌, ◌<◌, ℤ, pos, negsuc, max_ℤ, min_ℤ, pos_part, neg_part, ◌+ℤ◌, ◌-ℤ◌, ◌*ℤ◌,
  floor_div, ◌≤ℤ◌, ◌<ℤ◌, int_laws, eq_of_parts, +ℤ_parts, -ℤ_parts, lex_lt, ◌≡◌, subst, Bool, true,
  none, some, Option, Option-cases, ltb_ℤ, inl, inr, arith,
}
use amr_fleet_system.Task.{TaskSpec}
use amr_fleet_system.Scheduler.{SchedulerConfig, accepts, effective_priority, band, sort_key}

*ℤ_parts :
    (a b : ℤ)
    → pos_part (a *ℤ b) + (pos_part a * neg_part b + neg_part a * pos_part b)
      ≡ neg_part (a *ℤ b) + (pos_part a * pos_part b + neg_part a * neg_part b)
unfolding ◌*ℤ◌
*ℤ_parts a b = ground arith

mul_le : (w x y : ℕ) → x ≤ y → w * x ≤ w * y
mul_le w x y h = grind arith

-- A product with a natural number keeps orders, and strictly so if the number is positive.
scale_le : (w : ℕ) (a b : ℤ) → a ≤ℤ b → pos w *ℤ a ≤ℤ pos w *ℤ b
scale_le w a b h = omega (
  arith,
  *ℤ_parts (pos w) a,
  *ℤ_parts (pos w) b,
  mul_le w (pos_part a + neg_part b) (pos_part b + neg_part a) h,
)

scale_lt : (w : ℕ) (a b : ℤ) → 0 < w → a <ℤ b → pos w *ℤ a <ℤ pos w *ℤ b
scale_lt w a b p h = omega (
  arith,
  *ℤ_parts (pos w) a,
  *ℤ_parts (pos w) b,
  mul_le w (suc (pos_part a + neg_part b)) (pos_part b + neg_part a) h,
)

floor_div_gap : (a b : ℤ) (w : ℕ) → 0 < w → a +ℤ pos w ≤ℤ b → floor_div a w <ℤ floor_div b w
unfolding floor_div ◌+ℤ◌
floor_div_gap (pos a) (pos b) w p h = grind arith
floor_div_gap (pos a) (negsuc b) w p h = grind arith
floor_div_gap (negsuc a) (pos b) w p h = grind arith
floor_div_gap (negsuc a) (negsuc b) w p h = grind arith

floor_div_mono : (a b : ℤ) (w : ℕ) → 0 < w → a ≤ℤ b → floor_div a w ≤ℤ floor_div b w
unfolding floor_div
floor_div_mono (pos a) (pos b) w p h = grind arith
floor_div_mono (pos a) (negsuc b) w p h = grind arith
floor_div_mono (negsuc a) (pos b) w p h = grind arith
floor_div_mono (negsuc a) (negsuc b) w p h = grind arith

module _ (c : SchedulerConfig) (fine : accepts c ≡ true) where
  accepted :
      (1 ≤ c.band_width)
      × (pos 0 ≤ℤ c.age_boost_rate)
      × (pos 0 ≤ℤ c.age_boost_max)
      × (pos 0 ≤ℤ c.deadline_weight)
      × (pos 0 ≤ℤ c.fifo_weight)
  unfolding accepts
  accepted = ground arith

scaled_le : (w a b : ℤ) → pos 0 ≤ℤ w → a ≤ℤ b → w *ℤ a ≤ℤ w *ℤ b
scaled_le (pos w) a b p h = scale_le w a b h
scaled_le (negsuc w) a b p h = absurd (omega arith)

scaled_lt : (w a b : ℤ) → pos 0 <ℤ w → a <ℤ b → w *ℤ a <ℤ w *ℤ b
scaled_lt (pos w) a b p h = scale_lt w a b (omega arith) h
scaled_lt (negsuc w) a b p h = absurd (omega arith)

scaled_nonneg : (w a : ℤ) → pos 0 ≤ℤ w → pos 0 ≤ℤ a → pos 0 ≤ℤ w *ℤ a
scaled_nonneg (pos w) (pos a) p h = omega (arith, *ℤ_parts (pos w) (pos a))
scaled_nonneg (pos w) (negsuc a) p h = absurd (omega arith)
scaled_nonneg (negsuc w) a p h = absurd (omega arith)

boost_bounds :
    (c : SchedulerConfig) (t : TaskSpec) (now later : ℤ)
    → pos 0 ≤ℤ c.age_boost_rate
    → pos 0 ≤ℤ c.age_boost_max
    → now ≤ℤ later
    → (t.priority ≤ℤ effective_priority c now t)
      × (effective_priority c now t ≤ℤ t.priority +ℤ c.age_boost_max)
      × (effective_priority c now t ≤ℤ effective_priority c later t)
unfolding effective_priority
boost_bounds c t now later rate most h =
    let age : ℤ → ℤ = λ n. max_ℤ (pos 0) (n -ℤ t.created) in
    let older : age now ≤ℤ age later =
      ground (arith, -ℤ_parts now t.created, -ℤ_parts later t.created) in
    let product = scaled_le c.age_boost_rate (age now) (age later) rate older in
    let nonneg : pos 0 ≤ℤ c.age_boost_rate *ℤ age now =
      scaled_nonneg c.age_boost_rate (age now) rate (ground arith) in
    let boost : ℤ → ℤ = λ n. min_ℤ c.age_boost_max (c.age_boost_rate *ℤ age n) in
    (
      ground (arith, +ℤ_parts t.priority (boost now)),
      ground (arith, +ℤ_parts t.priority (boost now), +ℤ_parts t.priority c.age_boost_max),
      ground (arith, +ℤ_parts t.priority (boost now), +ℤ_parts t.priority (boost later)),
    )

-- For an accepted config, the age raises a priority by 0 at the least and by `age_boost_max` at the
-- most, and the effective priority and the band of a task never fall as time goes on.
pub effective_priority_grows :
    (c : SchedulerConfig) (t : TaskSpec) (now later : ℤ)
    → accepts c ≡ true
    → now ≤ℤ later
    → (t.priority ≤ℤ effective_priority c now t)
      × (effective_priority c now t ≤ℤ t.priority +ℤ c.age_boost_max)
      × (effective_priority c now t ≤ℤ effective_priority c later t)
      × (band c now t ≤ℤ band c later t)
unfolding band
effective_priority_grows c t now later fine h =
    let (wide, rate, most, _, _) = accepted c fine in
    let (lo, hi, up) = boost_bounds c t now later rate most h in
    (lo, hi, up, floor_div_mono _ _ c.band_width wide up)

times-zero : (w : ℤ) → w *ℤ pos 0 ≡ pos 0
times-zero w = eq_of_parts _ _ (omega (arith, *ℤ_parts w (pos 0)))

zero-times : (a : ℤ) → pos 0 *ℤ a ≡ pos 0
zero-times a = eq_of_parts _ _ (omega (arith, *ℤ_parts (pos 0) a))

max_of_nonneg : (a : ℤ) → pos 0 ≤ℤ a → max_ℤ (pos 0) a ≡ a
max_of_nonneg a h = ground arith

max_of_nonpos : (a : ℤ) → a ≤ℤ pos 0 → max_ℤ (pos 0) a ≡ pos 0
max_of_nonpos a h = ground arith

min_of_le : (a b : ℤ) → a ≤ℤ b → min_ℤ a b ≡ a
min_of_le a b h = ground arith

-- The full boost, and the boost of a newcomer.
full_boost :
    (c : SchedulerConfig) (t : TaskSpec) (now : ℤ)
    → pos 0 ≤ℤ now -ℤ t.created
    → c.age_boost_max ≤ℤ c.age_boost_rate *ℤ (now -ℤ t.created)
    → t.priority +ℤ c.age_boost_max ≤ℤ effective_priority c now t
unfolding effective_priority
full_boost c t now aged full = rw (max_of_nonneg _ aged) (rw (min_of_le _ _ full) (omega arith))

no_boost :
    (c : SchedulerConfig) (u : TaskSpec) (now : ℤ)
    → pos 0 ≤ℤ c.age_boost_max
    → now ≤ℤ u.created
    → effective_priority c now u ≡ u.priority +ℤ pos 0
unfolding effective_priority
no_boost c u now most fresh =
    rw (max_of_nonpos (now -ℤ u.created) (omega int_laws), times-zero c.age_boost_rate)
      (ground arith)

higher_band_first :
    (c : SchedulerConfig) (t u : TaskSpec) (now : ℤ)
    → band c now u <ℤ band c now t
    → lex_lt (sort_key c now t) (sort_key c now u) ≡ true
unfolding sort_key
higher_band_first c t u now h = ground arith

-- The starvation guard. For an accepted config: a task that has waited until its boost is full comes
-- before every task that has just arrived, if the newcomer's priority is at least a band's width
-- below the waiting task's priority with the full boost.
pub waiting_task_first :
    (c : SchedulerConfig) (t u : TaskSpec) (now : ℤ)
    → accepts c ≡ true
    → pos 0 ≤ℤ now -ℤ t.created
    → c.age_boost_max ≤ℤ c.age_boost_rate *ℤ (now -ℤ t.created)
    → now ≤ℤ u.created
    → u.priority +ℤ pos c.band_width ≤ℤ t.priority +ℤ c.age_boost_max
    → lex_lt (sort_key c now t) (sort_key c now u) ≡ true
unfolding band
waiting_task_first c t u now fine aged full fresh below =
    let (wide, _, most, _, _) = accepted c fine in
    let apart : effective_priority c now u +ℤ pos c.band_width ≤ℤ effective_priority c now t =
      rw (no_boost c u now most fresh) (omega (int_laws, full_boost c t now aged full)) in
    higher_band_first c t u now (floor_div_gap _ _ c.band_width wide apart)

-- The two cases of the order by deadline: the other task has a deadline, or none.
deadline_order :
    (c : SchedulerConfig) (t u : TaskSpec) (now d : ℤ)
    → pos 0 <ℤ c.deadline_weight
    → c.fifo_weight ≡ pos 0
    → band c now t ≡ band c now u
    → t.deadline ≡ some d
    → ((e : ℤ) → u.deadline ≡ some e → d <ℤ e → lex_lt (sort_key c now t) (sort_key c now u) ≡ true)
      × (u.deadline ≡ none → lex_lt (sort_key c now t) (sort_key c now u) ≡ true)
unfolding sort_key
deadline_order c t u now d weight fifo same due =
    let w = c.deadline_weight in
    let none_t : c.fifo_weight *ℤ (t.created -ℤ now) ≡ pos 0 = rw fifo (zero-times _) in
    let none_u : c.fifo_weight *ℤ (u.created -ℤ now) ≡ pos 0 = rw fifo (zero-times _) in
    (
      λ e due' sooner. ground (
        arith,
        scaled_lt w (d -ℤ now) (e -ℤ now) weight,
        -ℤ_parts d now,
        -ℤ_parts e now,
        +ℤ_parts (pos 0) (w *ℤ (d -ℤ now)),
        +ℤ_parts (pos 0) (w *ℤ (e -ℤ now)),
      ),
      λ never. ground arith,
    )

-- Whether a deadline, or none, is later than `d`.
abbrev pub due_after : ℤ → Option ℤ → Bool
due_after d none = true
due_after d (some e) = ltb_ℤ d e

-- Earliest deadline first. With a positive deadline weight and no weight for the order of arrival, a
-- task with a deadline, however late, comes before each task of its band whose deadline is later, and
-- before each that has none.
earlier_deadline_first :
    (c : SchedulerConfig) (t u : TaskSpec) (now d : ℤ)
    → pos 0 <ℤ c.deadline_weight
    → c.fifo_weight ≡ pos 0
    → band c now t ≡ band c now u
    → t.deadline ≡ some d
    → due_after d u.deadline ≡ true
    → lex_lt (sort_key c now t) (sort_key c now u) ≡ true
earlier_deadline_first c t u now d weight fifo same due after =
    let (before, without) = deadline_order c t u now d weight fifo same due in
    elim (Option-cases u.deadline) [
      | inl absent ↦ without absent
      | inr (e, present) ↦
          let test : ltb_ℤ d e ≡ true = subst (λ x. due_after d x ≡ true) present after in
          before e present (ground arith)
    ]

-- First come, first served. With no deadline weight and a positive weight for
-- the order of arrival, of two tasks in one band the one that came first is first, whatever the
-- deadlines.
earlier_arrival_first :
    (c : SchedulerConfig) (t u : TaskSpec) (now : ℤ)
    → c.deadline_weight ≡ pos 0
    → pos 0 <ℤ c.fifo_weight
    → band c now t ≡ band c now u
    → t.created <ℤ u.created
    → lex_lt (sort_key c now t) (sort_key c now u) ≡ true
unfolding sort_key
earlier_arrival_first c t u now weight fifo same first = ground (
  arith,
  scaled_lt c.fifo_weight (t.created -ℤ now) (u.created -ℤ now) fifo,
  -ℤ_parts t.created now,
  -ℤ_parts u.created now,
)
