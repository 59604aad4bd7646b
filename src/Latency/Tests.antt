-- ===== src/Latency/Tests.antt =====
-- Delays and queues at concrete inputs, and the theorems there.
use amr_fleet_system.Prelude.{
  ℕ, ℤ, pos, ◌+ℤ◌, ◌≤ℤ◌, ◌≡◌, refl, true, none, some, List, [], ◌∷◌, All, Perm, arith,
}
use amr_fleet_system.Prelude.Sorting.{IsSorted, insert_sorted}
use amr_fleet_system.Latency.{
  numbers, parse_latency_range, LatencyModel, new_model, start_model, sample, sample_latency,
  append_bounded, entry_key, push, pop_ready, pop_ready_from, next_release, empty_queue, Event,
  send, steps,
}
use amr_fleet_system.Latency.Fifo.{entry_of, IsBefore, link-fifo}
use amr_fleet_system.Latency.Drain.{Drains, pop_ready-Drains, push-Keeps}
use amr_fleet_system.Latency.Delays.{Within, sample_all}

program : Unit {0}
unfolding parse_latency_range new_model sample sample_latency append_bounded push pop_ready
    pop_ready_from next_release insert_sorted ◌+ℤ◌
program = tt

-- Link 1 sends twice, the second time with the smaller delay; link 2 sends once.
abbrev sent : List (Event ℕ)
sent =
    send 10 (pos 0) (pos 90) (some 1)
    ∷ send 20 (pos 5) (pos 40) (some 2)
    ∷ send 11 (pos 20) (pos 3) (some 1)
    ∷ []

pop_ready-sent : (pop_ready (pos 60) (steps sent empty_queue)).0 ≡ 20 ∷ []
unfolding program
pop_ready-sent = refl

pop_ready-late : (pop_ready (pos 90) (steps sent empty_queue)).0 ≡ 20 ∷ 10 ∷ 11 ∷ []
unfolding program
pop_ready-late = refl

parse_latency_range-swapped : parse_latency_range (numbers (pos 100 ∷ pos 20 ∷ [])) ≡ none
unfolding program
parse_latency_range-swapped = refl

-- A generator that always gives the lower bound.
abbrev lowest : ℤ → ℤ → ℤ → ℤ
lowest draw lo hi = lo

abbrev model : LatencyModel
model = start_model true (pos 20) (pos 100) (pos 10) 2

new_model-model : new_model (pos 100) true (numbers (pos 20 ∷ pos 100 ∷ [])) (pos 10) 2 ≡ some model
unfolding program
new_model-model = refl

abbrev draws : List (ℤ × ℤ)
draws = (pos 50, pos 0) ∷ (pos 5, pos 0) ∷ (pos 60, pos 1) ∷ (pos 70, pos 2) ∷ []

sample_all-draws : (sample_all lowest draws model).history ≡ pos 20 ∷ pos 20 ∷ []
unfolding program
sample_all-draws = refl

lowest-Within : Within lowest
lowest-Within draw lo hi h = (omega arith, h)

link-fifo_example :
    let q₂ = steps sent (push {A = ℕ} 7 (pos 0) (pos 90) (some 1) empty_queue).1 in
    IsBefore
      (entry_of 7 (pos 0) (pos 90) 1 empty_queue)
      (entry_of 8 (pos 20) (pos 3) 1 q₂)
      (push 8 (pos 20) (pos 3) (some 1) q₂).1.heap
link-fifo_example = link-fifo 7 8 1 (pos 0) (pos 20) (pos 90) (pos 3) sent empty_queue tt

pop_ready-Drains_example :
    let q = steps sent empty_queue in
    let (ready, q') = pop_ready (pos 60) q in Drains (pos 60) q.heap (ready, q'.heap)
pop_ready-Drains_example = pop_ready-Drains (pos 60) sent

push-Keeps_example :
    let q = steps sent empty_queue in
    let (release, q') = push {A = ℕ} 12 (pos 21) (pos 1) (some 2) q in
    (pos 21 ≤ℤ release)
    × Perm q'.heap (record { release = release; seq = q.seq; item = 12 } ∷ q.heap)
    × IsSorted entry_key q'.heap
    × ((t : ℤ) × (next_release q' ≡ some t) × All (λ e. t ≤ℤ e.release) q'.heap)
push-Keeps_example = push-Keeps 12 (pos 21) (pos 1) (some 2) sent
