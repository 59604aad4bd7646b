-- ===== src/Latency/Range.antt =====
-- `parse_latency_range`, `sample_latency_s` and `LatencyModel`. Delays stay in milliseconds.
use amr_fleet_system.Prelude.{
  ℕ, ◌+◌, ℤ, pos, ltb_ℤ, leb_ℤ, min_ℤ, max_ℤ, Bool, not, ◌&&◌, ◌||◌, Option, none, some, List, [],
  ◌∷◌, ◌++◌, length, ltb, if◌then◌else◌,
}

-- The parameter: a flag, one number, or a list of numbers.
pub data LatencyParam : Type 0 where
  flag : Bool → LatencyParam
  number : ℤ → LatencyParam
  numbers : List ℤ → LatencyParam

abbrev pub check_range : ℤ → ℤ → Option (ℤ × ℤ)
check_range lo hi =
    if ltb_ℤ lo (pos 0) || ltb_ℤ hi (pos 0)
    then none
    else if ltb_ℤ hi lo
    then none
    else some (lo, hi)

-- `parse_latency_range`; `none` is the `ValueError`.
unfoldable pub parse_latency_range : LatencyParam → Option (ℤ × ℤ)
parse_latency_range (flag b) = none
parse_latency_range (number hi) = check_range (pos 0) hi
parse_latency_range (numbers []) = none
parse_latency_range (numbers (hi ∷ [])) = check_range (pos 0) hi
parse_latency_range (numbers (lo ∷ hi ∷ [])) = check_range lo hi
parse_latency_range (numbers (a ∷ b ∷ c ∷ rest)) = none

-- `sample_latency_s`; `uniform` is the random generator's, with the number that it draws.
unfoldable pub sample_latency : (uniform : ℤ → ℤ → ℤ → ℤ) (draw : ℤ) (max_ms min_ms : ℤ) → ℤ
sample_latency uniform draw max_ms min_ms =
    if leb_ℤ max_ms (pos 0)
    then pos 0
    else uniform draw (max_ℤ (pos 0) (min_ℤ min_ms max_ms)) max_ms

pub record LatencyModel : Type 0 where
  pub simulate : Bool
  pub min_ms : ℤ
  pub max_ms : ℤ
  pub drop_rate : ℤ
  pub sent : ℕ
  pub dropped : ℕ
  pub history : List ℤ
  pub history_len : ℕ

-- `SPEC_MAX_LATENCY_MS`
abbrev pub spec_max_latency_ms : ℤ
spec_max_latency_ms = pos 100

-- The model with no message sent yet.
abbrev pub start_model : Bool → ℤ → ℤ → ℤ → ℕ → LatencyModel
start_model simulate lo hi drop_rate history = record {
  simulate = simulate;
  min_ms = lo;
  max_ms = hi;
  drop_rate = drop_rate;
  sent = 0;
  dropped = 0;
  history = [];
  history_len = history;
}

abbrev pub model_of : (one : ℤ) → Bool → ℤ → ℕ → Option (ℤ × ℤ) → Option LatencyModel
model_of one simulate drop_rate history none = none
model_of one simulate drop_rate history (some (lo, hi)) =
    if leb_ℤ (pos 0) drop_rate && ltb_ℤ drop_rate one
    then some (start_model simulate lo hi drop_rate history)
    else none

-- `__init__`; a drop rate counts parts of which `one` are all messages.
unfoldable pub new_model :
    (one : ℤ) (simulate : Bool) (comm_latency_ms : LatencyParam) (drop_rate : ℤ) (history : ℕ)
    → Option LatencyModel
new_model one simulate comm_latency_ms drop_rate history =
    model_of one simulate drop_rate history (parse_latency_range comm_latency_ms)

unfoldable pub enabled : LatencyModel → Bool
enabled l = l.simulate && (ltb_ℤ (pos 0) l.max_ms || ltb_ℤ (pos 0) l.drop_rate)

unfoldable pub exceeds_spec : LatencyModel → Bool
exceeds_spec l = ltb_ℤ spec_max_latency_ms l.max_ms

-- `append` of a deque with a bound: the oldest element leaves a full one.
unfoldable pub append_bounded : ℕ → List ℤ → ℤ → List ℤ
append_bounded maxlen xs x =
    let longer = xs ++ x ∷ [] in
    if ltb maxlen (length longer) then elim longer [ [] ↦ [] | oldest ∷ rest ↦ rest ] else longer

-- `sample`, with the generator's two draws.
unfoldable pub sample :
    (uniform : ℤ → ℤ → ℤ → ℤ) (drop_draw delay_draw : ℤ) → LatencyModel → Option ℤ × LatencyModel
sample uniform drop_draw delay_draw l =
    if not l.simulate
    then (some (pos 0), record l { sent = l.sent + 1 })
    else if ltb_ℤ (pos 0) l.drop_rate && ltb_ℤ drop_draw l.drop_rate
    then (none, record l { dropped = l.dropped + 1 })
    else let delay = sample_latency uniform delay_draw l.max_ms l.min_ms in
      (
        some delay,
        record l { sent = l.sent + 1; history = append_bounded l.history_len l.history delay },
      )
