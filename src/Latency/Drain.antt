-- ===== src/Latency/Drain.antt =====
-- What `pop_ready` takes out of a `DelayQueue`, and what it leaves.
use amr_fleet_system.Prelude.{
  ℕ, ℤ, ◌+ℤ◌, ◌≤ℤ◌, ◌<ℤ◌, leb_ℤ, lex_lt, ◌≡◌, refl, ◌≢◌, ap, subst, inl, inr, false, Option, none,
  some, List, [], ◌∷◌, ◌++◌, map, All, All-imp, arith, Bool-cases, Perm,
}
use amr_fleet_system.Prelude.Dict.{Dict}
use amr_fleet_system.Prelude.Sorting.{
  IsSorted, insert_sorted-IsSorted, insert_sorted-perm, insert_sorted-ne-nil,
}
use amr_fleet_system.Latency.{
  release_time, Entry, DelayQueue, entry_key, push, pop_ready, pop_ready_from, next_release,
  empty_queue, Event, send, release_all, step, steps,
}

module _ {A : Type 0} where
  abbrev pub IsHeap : DelayQueue A → Type 0
  IsHeap q = IsSorted entry_key q.heap

  later_or_equal :
      (now : ℤ) (x y : Entry A)
      → lex_lt (entry_key y) (entry_key x) ≡ false
      → now <ℤ x.release
      → now <ℤ y.release
  later_or_equal now x y h lt = ground arith

  -- The entries that are taken, and what holds of them and of the rest.
  pub record Drains (now : ℤ) (heap : List (Entry A)) (r : List A × List (Entry A)) : Type 0 where
    pub taken : List (Entry A)
    pub split : heap ≡ taken ++ r.1
    pub items : r.0 ≡ map (λ e. e.item) taken
    pub due : All (λ e. e.release ≤ℤ now) taken
    pub not_due : All (λ e. now <ℤ e.release) r.1

  pop_ready_from-Drains :
      (now : ℤ) (heap : List (Entry A))
      → IsSorted entry_key heap
      → Drains now heap (pop_ready_from now heap)
  unfolding pop_ready_from
  pop_ready_from-Drains now [] h = record {
    taken = [];
    split = refl;
    items = refl;
    due = tt;
    not_due = tt;
  }
  pop_ready_from-Drains now (e ∷ es) h = elim (Bool-cases (leb_ℤ e.release now)) [
    | inl due ↦
        let later = pop_ready_from-Drains now es h.1 in
        rw due (record {
          taken = e ∷ later.taken;
          split = ap (λ l. e ∷ l) later.split;
          items = ap (λ l. e.item ∷ l) later.items;
          due = (ground arith, later.due);
          not_due = later.not_due;
        })
    | inr early ↦
        let lt : now <ℤ e.release = ground arith in
        rw early (record {
          taken = [];
          split = refl;
          items = refl;
          due = tt;
          not_due = (
            lt,
            All-imp (λ x. lex_lt (entry_key x) (entry_key e) ≡ false) (λ x. now <ℤ x.release) es
                (λ x below. later_or_equal now e x below lt) h.0,
          );
        })
  ]

  pub rest-IsSorted :
      (taken rest : List (Entry A)) → IsSorted entry_key (taken ++ rest) → IsSorted entry_key rest
  rest-IsSorted [] rest h = h
  rest-IsSorted (e ∷ taken) rest h = rest-IsSorted taken rest h.1

  pub step-IsHeap : (e : Event A) (q : DelayQueue A) → IsHeap q → IsHeap (step e q)
  unfolding push pop_ready
  step-IsHeap (send item now delay key) q h = insert_sorted-IsSorted entry_key _ q.heap h
  step-IsHeap (release_all now) q h =
      let d = pop_ready_from-Drains now q.heap h in
      rest-IsSorted d.taken _ (subst (IsSorted entry_key) d.split h)

  pub steps-IsHeap : (es : List (Event A)) (q : DelayQueue A) → IsHeap q → IsHeap (steps es q)
  steps-IsHeap [] q h = h
  steps-IsHeap (e ∷ es) q h = steps-IsHeap es (step e q) (step-IsHeap e q h)

-- After any calls on a new queue, `pop_ready now` returns the items of a first part of the heap, all
-- due at `now`; what it leaves is the rest of the heap, and none of it is due.
pub pop_ready-Drains :
    {A : Type 0} (now : ℤ) (es : List (Event A))
    → let q = steps es empty_queue in
      let (ready, q') = pop_ready now q in Drains now q.heap (ready, q'.heap)
unfolding pop_ready
pop_ready-Drains now es = pop_ready_from-Drains now _ (steps-IsHeap es empty_queue tt)

release_time-after :
    (now delay : ℤ) (key : Option ℕ) (last : Dict ℤ) → now ≤ℤ release_time now delay key last
unfolding ◌+ℤ◌
release_time-after now delay none last = ground arith
release_time-after now delay (some k) last = ground arith

-- The head of a heap with an element is a release that no other is before.
head-least :
    {A : Type 0} (heap : List (Entry A))
    → IsSorted entry_key heap
    → heap ≢ []
    → (t : ℤ) × (elim heap [ [] ↦ none | e ∷ es ↦ some e.release ] ≡ some t)
      × All (λ e. t ≤ℤ e.release) heap
head-least [] h some_entry = absurd (some_entry refl)
head-least (e ∷ es) h some_entry = (
  e.release,
  refl,
  (
    omega arith,
    All-imp (λ x. lex_lt (entry_key x) (entry_key e) ≡ false) (λ x. e.release ≤ℤ x.release) es
        (λ x below. ground arith) h.0,
  ),
)

-- After any calls on a new queue, a message that is sent is released at `now` at the earliest and is
-- added to the heap, which stays in order; `next_release` is then a time that no release in the heap
-- is before.
pub push-Keeps :
    {A : Type 0} (item : A) (now delay : ℤ) (key : Option ℕ) (es : List (Event A))
    → let q = steps es empty_queue in
      let (release, q') = push item now delay key q in
      (now ≤ℤ release)
      × Perm q'.heap (record { release = release; seq = q.seq; item = item } ∷ q.heap)
      × IsSorted entry_key q'.heap
      × ((t : ℤ) × (next_release q' ≡ some t) × All (λ e. t ≤ℤ e.release) q'.heap)
unfolding push next_release
push-Keeps item now delay key es =
    let q = steps es empty_queue in
    let e : Entry _ = record {
      release = release_time now delay key q.last;
      seq = q.seq;
      item = item;
    } in
    let sorted = insert_sorted-IsSorted entry_key e q.heap (steps-IsHeap es empty_queue tt) in
    (
      release_time-after now delay key q.last,
      insert_sorted-perm entry_key e q.heap,
      sorted,
      head-least _ sorted (insert_sorted-ne-nil entry_key e q.heap),
    )
