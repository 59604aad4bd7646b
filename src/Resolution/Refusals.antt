-- ===== src/Resolution/Refusals.antt =====
-- The victim that `open` chooses, the limit on attempts, and the cooldown after a failure.
use amr_fleet_system.Prelude.{
  ℕ, ℤ, ◌+ℤ◌, ◌<ℤ◌, neg_ℤ, compare_ℤ, true, false, ◌≡◌, refl, sym, subst, ◌∙◌, Option, none, some,
  List, [], ◌∷◌, length, map, filter, All, All-imp, lex_lt, arith, if_rule,
}
use amr_fleet_system.Prelude.Dict.{lookup, erase}
use amr_fleet_system.Prelude.Sorting.{IsSorted, sorted_by-IsSorted}
use amr_fleet_system.Resolution.{
  Reason, RobotView, rank, Incident, at_time, forever, IncidentManager, Cycle, signature, same_ids,
  lookup_set, insert_set, cool_down, cool_down_for, reset_robot, reset_robots, give_up, in_cooldown,
  before_end, is_mobile, reverse_rank, reverse_rank_of, rank_at, mobile_victims,
}

same_ids_refl : (xs : List ℕ) → same_ids xs xs ≡ true
same_ids_refl [] = refl
same_ids_refl (x ∷ xs) = ground (arith, same_ids_refl xs)

lookup_set-insert_set :
    {V : Type 0} (sig : List ℕ) (v : V) (d : List (List ℕ × V))
    → lookup_set sig (insert_set sig v d) ≡ some v
lookup_set-insert_set sig v [] = rw (same_ids_refl sig) refl
lookup_set-insert_set sig v ((s, w) ∷ d) =
    if_rule (λ x. lookup_set sig x ≡ some v) (same_ids sig s) _ _ (λ e. rw e refl)
      (λ e. rw e (lookup_set-insert_set sig v d))

reset_robots-cooldown :
    (rs : List ℕ) (m : IncidentManager) → (reset_robots rs m).cooldown ≡ m.cooldown
unfolding reset_robots reset_robot
reset_robots-cooldown [] m = refl
reset_robots-cooldown (r ∷ rs) m = reset_robots-cooldown rs (reset_robot r m)

-- A time before the end of the cooldown, if there is an end.
abbrev pub IsCooling : ℤ → List ℕ → ℤ → Type 0
IsCooling until [] later = later <ℤ until
IsCooling until (r ∷ rs) later = Unit

cool_down_for-before_end :
    (now later : ℤ) (sig immobile : List ℕ) (m : IncidentManager)
    → IsCooling (now +ℤ m.cfg.cooldown_s) immobile later
    → before_end later (lookup_set sig (cool_down_for now sig immobile m).cooldown) ≡ true
cool_down_for-before_end now later sig [] m h =
    rw (lookup_set-insert_set sig (at_time (now +ℤ m.cfg.cooldown_s)) m.cooldown) (ground arith)
cool_down_for-before_end now later sig (r ∷ rs) m h =
    rw (lookup_set-insert_set sig forever m.cooldown) refl

-- Once an incident has been given up its robots are in cooldown, together, for `cooldown_s`, and if one
-- of them cannot move by itself at every later time.
pub give_up-in_cooldown :
    (now later : ℤ) (inc : Incident) (why : Reason) (m : IncidentManager)
    → IsCooling (now +ℤ m.cfg.cooldown_s) inc.immobile later
    → in_cooldown inc.robots later (give_up now inc why m).manager ≡ true
unfolding give_up in_cooldown
give_up-in_cooldown now later inc why m h =
    let m' : IncidentManager = record m { active = erase inc.incident_id m.active } in
    let same = reset_robots-cooldown inc.robots (cool_down now inc m') in
    subst (λ d. before_end later (lookup_set (signature inc) d) ≡ true) (sym same)
      (cool_down_for-before_end now later (signature inc) inc.immobile m' h)

-- The order of tuples is turned around by the change of sign.
compare_ℤ-neg : (a b : ℤ) → compare_ℤ (neg_ℤ a) (neg_ℤ b) ≡ compare_ℤ b a
compare_ℤ-neg a b = ground arith

lex_lt-neg :
    (xs ys : List ℤ) → length xs ≡ length ys → lex_lt (map neg_ℤ xs) (map neg_ℤ ys) ≡ lex_lt ys xs
lex_lt-neg [] [] e = refl
lex_lt-neg [] (y ∷ ys) e = ground arith
lex_lt-neg (x ∷ xs) [] e = ground arith
lex_lt-neg (x ∷ xs) (y ∷ ys) e = ground (arith, compare_ℤ-neg x y, lex_lt-neg xs ys)

rank_at-length : (p : ℤ) (d : Option ℤ) (id : ℕ) → length (rank_at p d id) ≡ 4
rank_at-length p none id = refl
rank_at-length p (some t) id = refl

rank-length : (v : RobotView) → length (rank v) ≡ 4
rank-length v = rank_at-length v.priority v.deadline v.robot_id

-- No other mobile member of the deadlock is less important than the first victim: none has a rank
-- beyond its rank, which goes by the priority, then the deadline, then the number.
mobile_victims-first :
    (c : Cycle) (ms : List ℕ) (v : ℕ) (vs : List ℕ) (a : RobotView)
    → mobile_victims c ms ≡ v ∷ vs
    → lookup v c.world.robots ≡ some a
    → All
        (λ r. (b : RobotView) → lookup r c.world.robots ≡ some b → lex_lt (rank a) (rank b) ≡ false)
        vs
unfolding mobile_victims
mobile_victims-first c ms v vs a e known =
    let sorted : IsSorted (reverse_rank c) (v ∷ vs) = subst (IsSorted (reverse_rank c)) e (
      sorted_by-IsSorted (reverse_rank c) (filter (λ r. is_mobile (lookup r c.world.robots)) ms)) in
    All-imp _ _ vs
      (λ r below b there.
        let turned : lex_lt (reverse_rank_of (some b)) (reverse_rank_of (some a)) ≡ false =
          rw (there, known) at below in
        sym (lex_lt-neg (rank b) (rank a) (rank-length b ∙ sym (rank-length a))) ∙ turned)
      sorted.0
