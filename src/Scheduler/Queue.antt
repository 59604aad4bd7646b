-- ===== src/Scheduler/Queue.antt =====
-- `TaskScheduler` as a priority queue: each task once, and the least key first.
use amr_fleet_system.Prelude.{
  ℕ, ℤ, lex_lt_irrefl, All-imp, ◌≡◌, refl, ◌≢◌, sym, subst, Option, none, some, List, [], ◌∷◌,
  arith, inl, inr, Option-cases, All, Perm,
}
use amr_fleet_system.Prelude.Dict.{
  Dict, lookup, insert, erase, values, IsUnique, Entries, insert-IsUnique, erase-IsUnique,
  lookup-erase_self, lookup-erase_ne, Entries-insert, Entries-erase,
}
use amr_fleet_system.Prelude.Sorting.{
  sorted_by, IsSorted, NotBelow, sorted_by-IsSorted, sorted_by-perm, All-sorted_by, sorted_by-All,
  sorted_by-eq-nil,
}
use amr_fleet_system.Task.{TaskSpec}
use amr_fleet_system.Scheduler.{TaskScheduler, push, sort_key, ordered, peek, pop, first, take_out}

-- Each task stands under its own id, once.
pub record IsQueue (q : TaskScheduler) : Type 0 where
  pub unique : IsUnique q.tasks
  pub keyed : Entries (λ k t. t.task_id ≡ k) q.tasks

abbrev pub Stored : Dict TaskSpec → TaskSpec → Type 0
Stored d t = lookup t.task_id d ≡ some t

-- Every value is found under its id.
values-Stored :
    (d : Dict TaskSpec) → IsUnique d → Entries (λ k t. t.task_id ≡ k) d → All (Stored d) (values d)
values-Stored [] u h = tt
values-Stored ((k, t) ∷ d) u h = (
  ground arith,
  All-imp (Stored d) (Stored ((k, t) ∷ d)) (values d) (λ x found. ground arith)
      (values-Stored d u.1 h.1),
)

pub push-IsQueue :
    (t : TaskSpec) (q q' : TaskScheduler) → push t q ≡ some q' → IsQueue q → IsQueue q'
unfolding push
push-IsQueue t q q' e h = elim (Option-cases (lookup t.task_id q.tasks)) [
  | inr (x, found) ↦ ground arith
  | inl absent ↦
      let same : record q { tasks = insert t.task_id t q.tasks } ≡ q' = ground arith in
      subst IsQueue same (record {
        unique = insert-IsUnique t.task_id t q.tasks h.unique;
        keyed = Entries-insert (λ k x. x.task_id ≡ k) t.task_id t q.tasks h.keyed refl;
      })
]

erase-IsQueue :
    (task : ℕ) (q : TaskScheduler) → IsQueue q → IsQueue (record q { tasks = erase task q.tasks })
erase-IsQueue task q h = record {
  unique = erase-IsUnique task q.tasks h.unique;
  keyed = Entries-erase (λ k x. x.task_id ≡ k) task q.tasks h.keyed;
}

values-eq-nil : (d : Dict TaskSpec) → values d ≡ [] → d ≡ []
values-eq-nil [] e = refl
values-eq-nil ((k, t) ∷ d) e = cc

-- What a `pop` gives: nothing from an empty queue only; or else a queued task such that no queued task
-- has a smaller key, and the queue without it.
abbrev pub Pops : ℤ → TaskScheduler → Option TaskSpec × TaskScheduler → Type 0
Pops now q (none, q') = (q.tasks ≡ []) × (q' ≡ q)
Pops now q (some t, q') =
    (lookup t.task_id q.tasks ≡ some t)
    × All (NotBelow (sort_key q.config now) t) (values q.tasks)
    × (lookup t.task_id q'.tasks ≡ none)
    × ((task : ℕ) → task ≢ t.task_id → lookup task q'.tasks ≡ lookup task q.tasks)
    × IsQueue q'

ordered_cases :
    (now : ℤ) (q : TaskScheduler) (l : List TaskSpec)
    → ordered now q ≡ l
    → IsQueue q
    → Pops now q (pop now q)
unfolding ordered peek pop
ordered_cases now q [] e h =
    let empty =
      values-eq-nil q.tasks (sorted_by-eq-nil (sort_key q.config now) (values q.tasks) e) in
    subst (λ l. Pops now q (take_out (first l) q)) (sym e) (empty, refl)
ordered_cases now q (t ∷ ts) e h =
    let key = sort_key q.config now in
    let stored =
      sorted_by-All key (Stored q.tasks) (values q.tasks)
        (values-Stored q.tasks h.unique h.keyed) in
    let sorted = sorted_by-IsSorted key (values q.tasks) in
    let stored' : All (Stored q.tasks) (t ∷ ts) = rw e at stored in
    let sorted' : IsSorted key (t ∷ ts) = rw e at sorted in
    let least : All (NotBelow key t) (sorted_by key (values q.tasks)) =
      rw e (lex_lt_irrefl (key t), sorted'.0) in
    subst (λ l. Pops now q (take_out (first l) q)) (sym e)
      (
        stored'.0,
        All-sorted_by key (NotBelow key t) (values q.tasks) least,
        lookup-erase_self t.task_id q.tasks h.unique,
        λ task other. lookup-erase_ne t.task_id q.tasks other,
        erase-IsQueue t.task_id q h,
      )

-- On a queue that holds each task once under its id, `pop` gives nothing only if the queue is empty;
-- what it gives was queued, no queued task has a smaller sort key at this time, it is gone from the
-- queue, and every other task is still there.
pub pop-Pops : (now : ℤ) (q : TaskScheduler) → IsQueue q → Pops now q (pop now q)
pop-Pops now q h = ordered_cases now q (ordered now q) refl h

-- `ordered` lists exactly the queued tasks, in an order in which no later key is below an earlier one.
ordered-perm-IsSorted :
    (now : ℤ) (q : TaskScheduler)
    → Perm (ordered now q) (values q.tasks) × IsSorted (sort_key q.config now) (ordered now q)
unfolding ordered
ordered-perm-IsSorted now q = (
  sorted_by-perm (sort_key q.config now) (values q.tasks),
  sorted_by-IsSorted (sort_key q.config now) (values q.tasks),
)
