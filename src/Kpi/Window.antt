-- ===== src/Kpi/Window.antt =====
-- The completions that `throughput` counts.
use amr_fleet_system.Prelude.{
  ℕ, ◌*◌, ℤ, pos, ◌-ℤ◌, ◌≤ℤ◌, leb_ℤ, ltb_ℤ, -ℤ_parts, ◌≡◌, refl, sym, ap, subst, ◌∙◌, ◌≢◌, inl, inr,
  Bool, Option, none, some, List, [], ◌∷◌, ◌++◌, length, length-append, filter, All, All-imp,
  All-append, arith, Bool-cases, Option-cases,
}
use mathlib.Core.List.{append-nil, append_assoc}
use amr_fleet_system.Kpi.{
  Mode, KpiTracker, fresh, start, started, drop_until, trim, record_completion, record_failure,
  record_deadlock, update_robot, throughput, Event, completion, failure, deadlocks, robot_state,
  query, run,
}

-- The completions that arrive in a run, one event after another.
abbrev pub completion_of : Event → List ℤ
completion_of (completion now duration) = now ∷ []
completion_of (failure now) = []
completion_of (deadlocks n) = []
completion_of (robot_state robot status now has_task) = []
completion_of (query now) = []

abbrev pub completion_times : List Event → List ℤ
completion_times [] = []
completion_times (e ∷ es) = completion_of e ++ completion_times es

-- The time of the events that look at the window.
abbrev pub window_time : Event → Option ℤ
window_time (completion now duration) = some now
window_time (failure now) = none
window_time (deadlocks n) = none
window_time (robot_state robot status now has_task) = none
window_time (query now) = some now

-- They come in the order of their times, from `t` on and up to `now`.
abbrev pub InOrder : ℤ → ℤ → List Event → Type 0
InOrder t now [] = t ≤ℤ now
InOrder t now (e ∷ es) = elim (window_time e) [
  | none ↦ InOrder t now es
  | some u ↦ (t ≤ℤ u) × InOrder u now es
]

-- Whether a completion is in the window that ends at `now`.
abbrev pub inside : ℤ → ℤ → ℤ → Bool
inside window now t = ltb_ℤ (now -ℤ window) t

pub record Kept (window t : ℤ) (all : List ℤ) (k : KpiTracker) : Type 0 where
  pub same_window : k.window_s ≡ window
  pub latest : All (λ c. c ≤ℤ t) k.completions
  pub kept :
      (now : ℤ)
      → t ≤ℤ now
      → drop_until (now -ℤ window) k.completions ≡ filter (inside window now) all
  pub idle : k.start_time ≡ none → all ≡ []
  pub counted : k.completed ≡ length all

drop_until-All {κ} :
    (P : ℤ → Type κ) (cutoff : ℤ) (xs : List ℤ) → All P xs → All P (drop_until cutoff xs)
unfolding drop_until
drop_until-All P cutoff [] h = tt
drop_until-All P cutoff (x ∷ xs) h = elim (Bool-cases (leb_ℤ x cutoff)) [
  | inl old ↦ rw old (drop_until-All P cutoff xs h.1)
  | inr new ↦ rw new h
]

-- To drop up to an earlier time first makes no difference.
drop_until-twice :
    (early late : ℤ) (xs : List ℤ)
    → early ≤ℤ late
    → drop_until late (drop_until early xs) ≡ drop_until late xs
unfolding drop_until
drop_until-twice early late [] le = refl
drop_until-twice early late (x ∷ xs) le = ground (arith, drop_until-twice early late xs le)

drop_until-snoc :
    (cutoff u : ℤ) (xs : List ℤ)
    → All (λ c. c ≤ℤ u) xs
    → drop_until cutoff (xs ++ u ∷ []) ≡ drop_until cutoff xs ++ drop_until cutoff (u ∷ [])
unfolding drop_until
drop_until-snoc cutoff u [] h = refl
drop_until-snoc cutoff u (x ∷ xs) h = ground (arith, drop_until-snoc cutoff u xs h.1)

drop_until-single :
    (window now u : ℤ) → drop_until (now -ℤ window) (u ∷ []) ≡ filter (inside window now) (u ∷ [])
unfolding drop_until
drop_until-single window now u = ground arith

filter-append : (p : ℤ → Bool) (xs ys : List ℤ) → filter p (xs ++ ys) ≡ filter p xs ++ filter p ys
filter-append p [] ys = refl
filter-append p (x ∷ xs) ys = ground (arith, filter-append p xs ys)

cutoff-mono : (window t u : ℤ) → t ≤ℤ u → t -ℤ window ≤ℤ u -ℤ window
cutoff-mono window t u h = omega (arith, -ℤ_parts t window, -ℤ_parts u window)

earlier : (t u : ℤ) (xs : List ℤ) → t ≤ℤ u → All (λ c. c ≤ℤ t) xs → All (λ c. c ≤ℤ u) xs
earlier t u xs le h = All-imp (λ c. c ≤ℤ t) (λ c. c ≤ℤ u) xs (λ x below. omega arith) h

module _ (window t : ℤ) (all : List ℤ) (k : KpiTracker) (h : Kept window t all k) where
  trim-Kept : (u : ℤ) → t ≤ℤ u → Kept window u all (trim u k)
  unfolding trim
  trim-Kept u le = record {
    same_window = h.same_window;
    latest = drop_until-All _ _ _ (earlier t u k.completions le h.latest);
    kept = λ now after. rw h.same_window (
        drop_until-twice (u -ℤ window) (now -ℤ window) k.completions
          (cutoff-mono window u now after)
        ∙ h.kept now (omega arith));
    idle = h.idle;
    counted = h.counted;
  }

  started-some : (now : ℤ) → started now k.start_time ≢ none
  started-some now e = ground arith

  completion-Kept :
      (u duration : ℤ) → t ≤ℤ u → Kept window u (all ++ u ∷ []) (record_completion u duration k)
  unfolding record_completion start trim
  completion-Kept u duration le = record {
    same_window = h.same_window;
    latest = drop_until-All _ _ _ (
        All-append _ k.completions (u ∷ []) (earlier t u k.completions le h.latest)
          (omega arith, tt));
    kept = λ now after.
        let late = cutoff-mono window u now after in
        let seen = earlier t u k.completions le h.latest in
        rw h.same_window (
          drop_until-twice (u -ℤ window) (now -ℤ window) (k.completions ++ u ∷ []) late
          ∙ drop_until-snoc (now -ℤ window) u k.completions seen
          ∙ ap (λ l. l ++ drop_until (now -ℤ window) (u ∷ [])) (h.kept now (omega arith))
          ∙ ap (λ l. filter (inside window now) all ++ l) (drop_until-single window now u)
          ∙ sym (filter-append (inside window now) all (u ∷ [])));
    idle = λ e. absurd (started-some u e);
    counted = omega (arith, h.counted, length-append all (u ∷ []));
  }

  -- What does not touch the completions and starts the clock, if anything.
  other-Kept :
      (k' : KpiTracker)
      → k'.window_s ≡ k.window_s
      → k'.completions ≡ k.completions
      → (k'.start_time ≡ none → k.start_time ≡ none)
      → k'.completed ≡ k.completed
      → Kept window t all k'
  other-Kept k' same_window same_list same_start same_count = record {
    same_window = same_window ∙ h.same_window;
    latest = subst (All (λ c. c ≤ℤ t)) (sym same_list) h.latest;
    kept = λ now after. ap (drop_until (now -ℤ window)) same_list ∙ h.kept now after;
    idle = λ e. h.idle (same_start e);
    counted = same_count ∙ h.counted;
  }

  later-Kept : (u : ℤ) → t ≤ℤ u → Kept window u all k
  later-Kept u le = record {
    same_window = h.same_window;
    latest = earlier t u k.completions le h.latest;
    kept = λ now after. h.kept now (omega arith);
    idle = h.idle;
    counted = h.counted;
  }

run-Kept :
    (window t now : ℤ) (all : List ℤ) (es : List Event) (k : KpiTracker)
    → InOrder t now es
    → Kept window t all k
    → Kept window now (all ++ completion_times es) (run es k)
unfolding record_failure record_deadlock update_robot throughput start
run-Kept window t now all [] k o h = rw (append-nil all) (later-Kept window t all k h now o)
run-Kept window t now all (completion u duration ∷ es) k o h =
    subst (λ l. Kept window now l (run es (record_completion u duration k)))
      (append_assoc all (u ∷ []) (completion_times es))
      (run-Kept window u now (all ++ u ∷ []) es _ o.1
        (completion-Kept window t all k h u duration o.0))
run-Kept window t now all (failure u ∷ es) k o h =
    run-Kept window t now all es _ o
      (other-Kept window t all k h (record_failure u k) refl refl (λ e. ground arith) refl)
run-Kept window t now all (deadlocks n ∷ es) k o h =
    run-Kept window t now all es _ o
      (other-Kept window t all k h (record_deadlock n k) refl refl (λ e. e) refl)
run-Kept window t now all (robot_state robot status u has_task ∷ es) k o h =
    run-Kept window t now all es _ o (
      other-Kept window t all k h (update_robot robot status u has_task k) refl refl
        (λ e. ground arith) refl)
run-Kept window t now all (query u ∷ es) k o h =
    run-Kept window u now all es _ o.1 (trim-Kept window t all k h u o.0)

fresh-Kept :
    (window min_window t : ℤ) (statuses : List ℕ) (mode : Mode)
    → Kept window t [] (fresh window min_window statuses mode)
unfolding drop_until
fresh-Kept window min_window t statuses mode = record {
  same_window = refl;
  latest = tt;
  kept = λ now after. refl;
  idle = λ e. refl;
  counted = refl;
}

rate-amount :
    (window now : ℤ) (all : List ℤ) (k : KpiTracker)
    → Kept window now all k
    → (throughput now k).0.amount ≡ pos (length (filter (inside window now) all) * 3600)
unfolding throughput trim
rate-amount window now all k h =
    let listed : drop_until (now -ℤ k.window_s) k.completions ≡ filter (inside window now) all =
      rw h.same_window (h.kept now (omega arith)) in
    elim (Option-cases k.start_time) [
      | inl idle ↦ rw (idle, h.idle idle) refl
      | inr (t, running) ↦ rw (running, listed) refl
    ]

-- The sliding window. For a new tracker and events whose completions and queries come in the order of
-- their times, up to `now`: the throughput at `now` counts, per hour, just the completions that are later than
-- `now` less the window, however often the list was trimmed before; and `completed` counts them all.
pub throughput-window :
    (window min_window t now : ℤ) (statuses : List ℕ) (mode : Mode) (es : List Event)
    → InOrder t now es
    → let k = run es (fresh window min_window statuses mode) in
      ((throughput now k).0.amount
        ≡ pos (length (filter (inside window now) (completion_times es)) * 3600))
      × (k.completed ≡ length (completion_times es))
throughput-window window min_window t now statuses mode es o =
    let kept = run-Kept window t now [] es _ o (fresh-Kept window min_window t statuses mode) in
    (rate-amount window now (completion_times es) _ kept, kept.counted)
