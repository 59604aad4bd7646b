-- ===== src/Latency/Delays.antt =====
-- The delays that a `LatencyModel` draws, and its counters.
use amr_fleet_system.Prelude.{
  ℕ, ◌+◌, ◌≤◌, ℤ, pos, ◌≤ℤ◌, ltb_ℤ, leb_ℤ, ltb, ◌≡◌, refl, ◌≢◌, subst, inl, inr, Bool, not, ◌&&◌,
  Option, none, some, List, [], ◌∷◌, ◌++◌, length, length-append, All, All-append, arith,
  Bool-cases,
}
use amr_fleet_system.Latency.{
  LatencyParam, flag, number, numbers, parse_latency_range, LatencyModel, start_model, model_of,
  new_model, sample_latency, sample, append_bounded,
}

module _ (uniform : ℤ → ℤ → ℤ → ℤ) where
  -- One message after another, each with the generator's two draws for it.
  abbrev pub sample_all : List (ℤ × ℤ) → LatencyModel → LatencyModel
  sample_all [] l = l
  sample_all (draws ∷ rest) l = sample_all rest (sample uniform draws.0 draws.1 l).1

-- The range is one, the delays kept are in it and no more than the bound, and each message is counted.
pub record IsModel (n : ℕ) (l : LatencyModel) : Type 0 where
  pub low : pos 0 ≤ℤ l.min_ms
  pub high : l.min_ms ≤ℤ l.max_ms
  pub kept : All (λ d. (l.min_ms ≤ℤ d) × (d ≤ℤ l.max_ms)) l.history
  pub bounded : length l.history ≤ l.history_len
  pub counted : l.sent + l.dropped ≡ n

append_bounded-length :
    (n : ℕ) (xs : List ℤ) (x : ℤ) → length xs ≤ n → length (append_bounded n xs x) ≤ n
unfolding append_bounded
append_bounded-length n [] x h = ground arith
append_bounded-length n (y ∷ xs) x h = ground (arith, length-append xs (x ∷ []))

append_bounded-All {κ} :
    (P : ℤ → Type κ) (n : ℕ) (xs : List ℤ) (x : ℤ) → All P xs → P x → All P (append_bounded n xs x)
unfolding append_bounded
append_bounded-All P n [] x h p = elim (Bool-cases (ltb n 1)) [
  | inl e ↦ rw e tt
  | inr e ↦ rw e (p, tt)
]
append_bounded-All P n (y ∷ xs) x h p =
    let longer = All-append P xs (x ∷ []) h.1 (p, tt) in
    elim (Bool-cases (ltb n (length (y ∷ xs ++ x ∷ [])))) [
      | inl e ↦ rw e longer
      | inr e ↦ rw e (h.0, longer)
    ]

parse_latency_range_lem :
    (p : LatencyParam) (lo hi : ℤ)
    → parse_latency_range p ≡ some (lo, hi)
    → (pos 0 ≤ℤ lo) × (lo ≤ℤ hi)
unfolding parse_latency_range
parse_latency_range_lem (flag b) lo hi e = cc
parse_latency_range_lem (number x) lo hi e = ground arith
parse_latency_range_lem (numbers []) lo hi e = cc
parse_latency_range_lem (numbers (x ∷ [])) lo hi e = ground arith
parse_latency_range_lem (numbers (x ∷ y ∷ [])) lo hi e = ground arith
parse_latency_range_lem (numbers (x ∷ y ∷ z ∷ rest)) lo hi e = cc

none_model : {l : LatencyModel} → none ≢ some l
none_model e = cc

some_model : {l m : LatencyModel} → some l ≡ some m → l ≡ m
some_model e = cc

model_of-IsModel :
    (one : ℤ) (simulate : Bool) (p : LatencyParam) (drop_rate : ℤ) (history : ℕ) (l : LatencyModel)
    (range : Option (ℤ × ℤ))
    → parse_latency_range p ≡ range
    → model_of one simulate drop_rate history range ≡ some l
    → IsModel 0 l
model_of-IsModel one simulate p drop_rate history l none parsed e = absurd (none_model e)
model_of-IsModel one simulate p drop_rate history l (some (lo, hi)) parsed e =
    elim (Bool-cases (leb_ℤ (pos 0) drop_rate && ltb_ℤ drop_rate one)) [
      | inr outside ↦ absurd (none_model (rw outside at e))
      | inl inside ↦
          let same : start_model simulate lo hi drop_rate history ≡ l =
            some_model (rw inside at e) in
          let range = parse_latency_range_lem p lo hi parsed in
          subst (IsModel 0) same (record {
            low = range.0;
            high = range.1;
            kept = tt;
            bounded = omega arith;
            counted = refl;
          })
    ]

new_model-IsModel :
    (one : ℤ) (simulate : Bool) (p : LatencyParam) (drop_rate : ℤ) (history : ℕ) (l : LatencyModel)
    → new_model one simulate p drop_rate history ≡ some l
    → IsModel 0 l
unfolding new_model
new_model-IsModel one simulate p drop_rate history l e =
    model_of-IsModel one simulate p drop_rate history l _ refl e

abbrev pub Within : (ℤ → ℤ → ℤ → ℤ) → Type 0
Within uniform =
    (draw lo hi : ℤ) → lo ≤ℤ hi → (lo ≤ℤ uniform draw lo hi) × (uniform draw lo hi ≤ℤ hi)

sample_latency_lem :
    (uniform : ℤ → ℤ → ℤ → ℤ) (draw hi lo : ℤ)
    → Within uniform
    → pos 0 ≤ℤ lo
    → lo ≤ℤ hi
    → (lo ≤ℤ sample_latency uniform draw hi lo) × (sample_latency uniform draw hi lo ≤ℤ hi)
unfolding sample_latency
sample_latency_lem uniform draw hi lo w h k = ground (arith, w draw lo hi)

sample-IsModel :
    (uniform : ℤ → ℤ → ℤ → ℤ) (draws : ℤ × ℤ) (n : ℕ) (l : LatencyModel)
    → Within uniform
    → IsModel n l
    → IsModel (n + 1) (sample uniform draws.0 draws.1 l).1
unfolding sample
sample-IsModel uniform draws n l w h = elim (Bool-cases (not l.simulate)) [
  | inl off ↦ rw off (record {
    low = h.low;
    high = h.high;
    kept = h.kept;
    bounded = h.bounded;
    counted = omega (arith, h.counted);
  })
  | inr on ↦ elim (Bool-cases (ltb_ℤ (pos 0) l.drop_rate && ltb_ℤ draws.0 l.drop_rate)) [
    | inl lost ↦
        rw (on, lost)
          (record {
            low = h.low;
            high = h.high;
            kept = h.kept;
            bounded = h.bounded;
            counted = omega (arith, h.counted);
          })
    | inr kept ↦
        let delay = sample_latency uniform draws.1 l.max_ms l.min_ms in
        rw (on, kept)
          (record {
            low = h.low;
            high = h.high;
            kept =
                append_bounded-All (λ d. (l.min_ms ≤ℤ d) × (d ≤ℤ l.max_ms)) l.history_len l.history
                  delay h.kept
                  (sample_latency_lem uniform draws.1 l.max_ms l.min_ms w h.low h.high);
            bounded = append_bounded-length l.history_len l.history delay h.bounded;
            counted = omega (arith, h.counted);
          })
  ]
]

sample_all-IsModel :
    (uniform : ℤ → ℤ → ℤ → ℤ) (draws : List (ℤ × ℤ)) (n : ℕ) (l : LatencyModel)
    → Within uniform
    → IsModel n l
    → IsModel (length draws + n) (sample_all uniform draws l)
sample_all-IsModel uniform [] n l w h = subst (λ m. IsModel m l) (omega arith) h
sample_all-IsModel uniform (d ∷ draws) n l w h =
    subst (λ m. IsModel m (sample_all uniform (d ∷ draws) l)) (omega arith)
      (sample_all-IsModel uniform draws (n + 1) _ w (sample-IsModel uniform d n l w h))

-- Where the generator's `uniform` stays between its bounds, a model made by `LatencyModel(...)` keeps,
-- whatever it draws, only delays from its range, which starts at 0 or above, and no more of them than
-- the history holds; and it has counted each message once, as sent or as dropped.
sample_all_lem :
    (uniform : ℤ → ℤ → ℤ → ℤ) (one : ℤ) (simulate : Bool) (p : LatencyParam) (drop_rate : ℤ)
    (history : ℕ) (l : LatencyModel) (draws : List (ℤ × ℤ))
    → Within uniform
    → new_model one simulate p drop_rate history ≡ some l
    → IsModel (length draws) (sample_all uniform draws l)
sample_all_lem uniform one simulate p drop_rate history l draws w made =
    subst (λ m. IsModel m (sample_all uniform draws l)) (omega arith)
      (sample_all-IsModel uniform draws 0 l w
        (new_model-IsModel one simulate p drop_rate history l made))
