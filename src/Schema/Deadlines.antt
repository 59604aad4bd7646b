-- ===== src/Schema/Deadlines.antt =====
-- The deadlines that `parse_deadline` accepts.
use amr_fleet_system.Prelude.{
  ℕ, ℤ, ◌+ℤ◌, ◌-ℤ◌, ◌≤ℤ◌, -ℤ_parts, +ℤ_parts, eq_of_parts, ◌≡◌, sym, subst, Option, none, some,
  arith,
}
use amr_fleet_system.Schema.{
  abs_ℤ, or_same, DeadlineValue, missing, truth_value, too_large, seconds, text, parse_deadline,
}
use amr_fleet_system.Schema.Rules.{IsNear}

shifted : (now r : ℤ) → (now +ℤ r) -ℤ now ≡ r
shifted now r =
    eq_of_parts ((now +ℤ r) -ℤ now) r (omega (arith, +ℤ_parts now r, -ℤ_parts (now +ℤ r) now))

after-IsNear : (horizon now r : ℤ) → abs_ℤ r ≤ℤ horizon → IsNear horizon now (some (now +ℤ r))
after-IsNear horizon now r h = rw (shifted now r) h

parse_seconds :
    (now s horizon : ℤ) (t : Option ℤ) (wall_now : Option ℤ)
    → parse_deadline (seconds (some s)) now wall_now horizon ≡ some t
    → (t ≡ some (now +ℤ s)) × (abs_ℤ s ≤ℤ horizon)
unfolding parse_deadline
parse_seconds now s horizon t wall_now e = ground arith

parse_text :
    (length : ℕ) (epoch now horizon : ℤ) (wall_now t : Option ℤ)
    → parse_deadline (text length (some epoch)) now wall_now horizon ≡ some t
    → (t ≡ some (now +ℤ (epoch -ℤ or_same wall_now now)))
      × (abs_ℤ (epoch -ℤ or_same wall_now now) ≤ℤ horizon)
unfolding parse_deadline
parse_text length epoch now horizon wall_now t e = ground arith

-- A deadline in JSON that is accepted, be it a number of seconds or a date on another clock, is at most
-- the horizon from now on the node's clock.
parse_deadline-IsNear :
    (v : DeadlineValue) (now : ℤ) (wall_now : Option ℤ) (horizon : ℤ) (t : Option ℤ)
    → parse_deadline v now wall_now horizon ≡ some t
    → IsNear horizon now t
unfolding parse_deadline
parse_deadline-IsNear missing now wall_now horizon t e = ground arith
parse_deadline-IsNear truth_value now wall_now horizon t e = cc
parse_deadline-IsNear too_large now wall_now horizon t e = cc
parse_deadline-IsNear (seconds none) now wall_now horizon t e = cc
parse_deadline-IsNear (seconds (some s)) now wall_now horizon t e =
    let (same, small) = parse_seconds now s horizon t wall_now e in
    subst (IsNear horizon now) (sym same) (after-IsNear horizon now s small)
parse_deadline-IsNear (text length none) now wall_now horizon t e = cc
parse_deadline-IsNear (text length (some epoch)) now wall_now horizon t e =
    let (same, small) = parse_text length epoch now horizon wall_now t e in
    subst (IsNear horizon now) (sym same)
      (after-IsNear horizon now (epoch -ℤ or_same wall_now now) small)
