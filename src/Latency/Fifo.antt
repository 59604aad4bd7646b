-- ===== src/Latency/Fifo.antt =====
-- What leaves a `DelayQueue`, when, and in which order.
use amr_fleet_system.Prelude.{
  ℕ, ◌≤◌, ◌<◌, ℤ, ◌≤ℤ◌, ◌≡◌, ◌≢◌, refl, ap, subst, inl, inr, true, false, Option, none, some, List,
  [], ◌∷◌, ◌++◌, All, All-imp, arith, Bool-cases, ◌==◌, lex_lt,
}
use amr_fleet_system.Prelude.Sorting.{IsSorted, insert_sorted, insert_sorted-IsSorted}
use amr_fleet_system.Prelude.Dict.{Dict, lookup, lookup-insert}
use amr_fleet_system.Latency.{
  DelayQueue, Entry, entry_key, release_time, push, pop_ready, Event, send, release_all, step,
  steps,
}
use amr_fleet_system.Latency.Drain.{rest-IsSorted, step-IsHeap, steps-IsHeap}

-- The release time of the last message on a link, once there is one.
abbrev NotBefore : ℕ → ℤ → Dict ℤ → Type 0
NotBefore k t last = (u : ℤ) × (lookup k last ≡ some u) × (t ≤ℤ u)

module _ {A : Type 0} where
  step-NotBefore :
      (k : ℕ) (t : ℤ) (e : Event A) (q : DelayQueue A)
      → NotBefore k t q.last
      → NotBefore k t (step e q).last
  unfolding push pop_ready
  step-NotBefore k t (send item now delay none) q h = h
  step-NotBefore k t (send item now delay (some j)) q (u, e, le) = elim (Bool-cases (k == j)) [
    | inl same ↦ (
      release_time now delay (some j) q.last,
      ground (arith, lookup-insert k j (release_time now delay (some j) q.last) q.last),
      ground arith,
    )
    | inr other ↦
        (u, ground (arith, lookup-insert k j (release_time now delay (some j) q.last) q.last), le)
  ]
  step-NotBefore k t (release_all now) q h = h

  steps-NotBefore :
      (k : ℕ) (t : ℤ) (es : List (Event A)) (q : DelayQueue A)
      → NotBefore k t q.last
      → NotBefore k t (steps es q).last
  steps-NotBefore k t [] q h = h
  steps-NotBefore k t (e ∷ es) q h = steps-NotBefore k t es (step e q) (step-NotBefore k t e q h)

  push-NotBefore :
      (item : A) (now delay : ℤ) (k : ℕ) (q : DelayQueue A)
      → NotBefore k (push item now delay (some k) q).0 (push item now delay (some k) q).1.last
  unfolding push
  push-NotBefore item now delay k q =
      let r = release_time now delay (some k) q.last in
      (r, ground (arith, lookup-insert k k r q.last), omega arith)

  push-after :
      (item : A) (now delay t : ℤ) (k : ℕ) (q : DelayQueue A)
      → NotBefore k t q.last
      → t ≤ℤ (push item now delay (some k) q).0
  unfolding push
  push-after item now delay t k q (u, e, le) = ground arith

  step-seq : (e : Event A) (q : DelayQueue A) → q.seq ≤ (step e q).seq
  unfolding push pop_ready
  step-seq (send item now delay key) q = omega arith
  step-seq (release_all now) q = omega arith

  steps-seq : (es : List (Event A)) (q : DelayQueue A) → q.seq ≤ (steps es q).seq
  steps-seq [] q = omega arith
  steps-seq (e ∷ es) q = omega (arith, step-seq e q, steps-seq es (step e q))

  push-seq :
      (item : A) (now delay : ℤ) (key : Option ℕ) (q : DelayQueue A)
      → q.seq < (push item now delay key q).1.seq
  unfolding push
  push-seq item now delay key q = omega arith

  -- The entry that a message gets.
  abbrev pub entry_of : A → ℤ → ℤ → ℕ → DelayQueue A → Entry A
  entry_of item now delay k q = record {
    release = release_time now delay (some k) q.last;
    seq = q.seq;
    item = item;
  }

  -- The first entry comes out before the second: its key is less, and in the heap, which is the order of
  -- `pop_ready`, it does not stand behind the second.
  abbrev pub IsBefore : Entry A → Entry A → List (Entry A) → Type 0
  IsBefore first second heap =
      (first.release ≤ℤ second.release)
      × (lex_lt (entry_key first) (entry_key second) ≡ true)
      × ((sooner : List (Entry A)) × (later : List (Entry A)) × (heap ≡ sooner ++ second ∷ later)
          × All (λ e. lex_lt (entry_key e) (entry_key second) ≡ true) sooner
          × All (λ e. e ≢ first) later)

  insert_sorted-split :
      (x : Entry A) (ys : List (Entry A))
      → (sooner : List (Entry A)) × (later : List (Entry A)) × (insert_sorted entry_key x ys
          ≡ sooner ++ x ∷ later)
        × All (λ e. lex_lt (entry_key e) (entry_key x) ≡ true) sooner
  unfolding insert_sorted
  insert_sorted-split x [] = ([], [], refl, tt)
  insert_sorted-split x (y ∷ ys) = elim (Bool-cases (lex_lt (entry_key y) (entry_key x))) [
    | inl e ↦
        let (sooner, later, split, less) = insert_sorted-split x ys in
        rw e (y ∷ sooner, later, ap (λ l. y ∷ l) split, (e, less))
    | inr e ↦ rw e ([], y ∷ ys, refl, tt)
  ]

  push-IsBefore :
      (first second : Entry A) (heap : List (Entry A))
      → IsSorted entry_key heap
      → first.release ≤ℤ second.release
      → first.seq < second.seq
      → IsBefore first second (insert_sorted entry_key second heap)
  push-IsBefore first second heap sorted release seq =
      let (sooner, later, split, less) = insert_sorted-split second heap in
      let below : lex_lt (entry_key first) (entry_key second) ≡ true = ground arith in
      let rest =
        rest-IsSorted sooner (second ∷ later) (
          subst (IsSorted entry_key) split (insert_sorted-IsSorted entry_key second heap sorted)) in
      (
        release,
        below,
        (
          sooner,
          later,
          split,
          less,
          All-imp (λ e. lex_lt (entry_key e) (entry_key second) ≡ false) (λ e. e ≢ first) later
              (λ e above same. cc (above, below, ap entry_key same)) rest.0,
        ),
      )

-- First in, first out on a link, on a queue whose heap is in order: of two messages with one key, whatever is
-- sent on any link and released in between, and whatever the two delays, the later one is not released before
-- the earlier one, its key in the heap is greater, also when both are released at one time, and when it is in
-- the heap the earlier one does not stand behind it.
pub link-fifo :
    {A : Type 0} (a b : A) (k : ℕ) (now later delay delay' : ℤ) (between : List (Event A))
    (q : DelayQueue A)
    → IsSorted entry_key q.heap
    → let q₂ = steps between (push a now delay (some k) q).1 in
      IsBefore
        (entry_of a now delay k q)
        (entry_of b later delay' k q₂)
        (push b later delay' (some k) q₂).1.heap
unfolding push
link-fifo a b k now later delay delay' between q sorted =
    let p = push a now delay (some k) q in
    let q₂ = steps between p.1 in
    push-IsBefore (entry_of a now delay k q) (entry_of b later delay' k q₂) q₂.heap
      (steps-IsHeap between p.1 (step-IsHeap (send a now delay (some k)) q sorted))
      (push-after b later delay' p.0 k q₂
        (steps-NotBefore k p.0 between p.1 (push-NotBefore a now delay k q)))
      (omega (arith, push-seq a now delay (some k) q, steps-seq between p.1))
