-- ===== src/Latency/Queue.antt =====
-- `DelayQueue`. The heap is the list of its entries in the order in which `heappop` gives them: by
-- release time, then by sequence number.
use amr_fleet_system.Prelude.{
  ℕ, ◌+◌, ℤ, pos, ◌+ℤ◌, max_ℤ, leb_ℤ, Option, none, some, List, [], ◌∷◌, if◌then◌else◌,
}
use amr_fleet_system.Prelude.Dict.{Dict, lookup, insert}
use amr_fleet_system.Prelude.Sorting.{insert_sorted}

pub record Entry (A : Type 0) : Type 0 where
  pub release : ℤ
  pub seq : ℕ
  pub item : A

pub record DelayQueue (A : Type 0) : Type 0 where
  pub heap : List (Entry A)
  pub seq : ℕ
  pub last : Dict ℤ

-- `DelayQueue()`
abbrev pub empty_queue : {A : Type 0} → DelayQueue A
empty_queue = record { heap = []; seq = 0; last = [] }

-- The release time that `push` chooses: with a key, not before the last one of that link.
abbrev pub release_time : ℤ → ℤ → Option ℕ → Dict ℤ → ℤ
release_time now delay none last = now +ℤ max_ℤ (pos 0) delay
release_time now delay (some k) last =
    let release = now +ℤ max_ℤ (pos 0) delay in
    max_ℤ release (elim (lookup k last) [ none ↦ release | some t ↦ t ])

abbrev pub remember : Option ℕ → ℤ → Dict ℤ → Dict ℤ
remember none release last = last
remember (some k) release last = insert k release last

module _ {A : Type 0} where
  abbrev pub entry_key : Entry A → List ℤ
  entry_key e = e.release ∷ pos e.seq ∷ []

  -- `heappush`
  abbrev pub heap_push : Entry A → List (Entry A) → List (Entry A)
  heap_push e heap = insert_sorted entry_key e heap

  unfoldable pub push : A → ℤ → ℤ → Option ℕ → DelayQueue A → ℤ × DelayQueue A
  push item now delay key q =
      let release = release_time now delay key q.last in
      (
        release,
        record q {
          heap = heap_push (record { release = release; seq = q.seq; item = item }) q.heap;
          seq = q.seq + 1;
          last = remember key release q.last;
        },
      )

  unfoldable pub pop_ready_from : ℤ → List (Entry A) → List A × List (Entry A)
  pop_ready_from now [] = ([], [])
  pop_ready_from now (e ∷ es) =
      let later = pop_ready_from now es in
      if leb_ℤ e.release now then (e.item ∷ later.0, later.1) else ([], e ∷ es)

  unfoldable pub pop_ready : ℤ → DelayQueue A → List A × DelayQueue A
  unfolding pop_ready_from
  pop_ready now q =
      let (ready, rest) = pop_ready_from now q.heap in (ready, record q { heap = rest })

  unfoldable pub next_release : DelayQueue A → Option ℤ
  next_release q = elim q.heap [ [] ↦ none | e ∷ es ↦ some e.release ]

  unfoldable pub clear : DelayQueue A → DelayQueue A
  clear q = record q { heap = []; last = [] }

-- The calls that send and release messages, in any order.
pub data Event (A : Type 0) : Type 0 where
  send : (item : A) (now delay : ℤ) (key : Option ℕ) → Event A
  release_all : (now : ℤ) → Event A

abbrev pub step : {A : Type 0} → Event A → DelayQueue A → DelayQueue A
step (send item now delay key) q = (push item now delay key q).1
step (release_all now) q = (pop_ready now q).1

abbrev pub steps : {A : Type 0} → List (Event A) → DelayQueue A → DelayQueue A
steps [] q = q
steps (e ∷ es) q = steps es (step e q)
