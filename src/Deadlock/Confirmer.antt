-- ===== src/Deadlock/Confirmer.antt =====
-- `CycleConfirmer` of deadlock.py. A set of robots is a number, in the order of the sorted sets.
use amr_fleet_system.Prelude.{
  ℕ, ltb, ◌==◌, ℤ, ◌-ℤ◌, leb_ℤ, Bool, not, ◌&&◌, Option, none, some, List, [], ◌∷◌, member,
  if◌then◌else◌,
}
use amr_fleet_system.Prelude.Dict.{Dict, lookup, insert, erase, keys}

pub record CycleConfirmer : Type 0 where
  pub confirm_s : ℤ
  pub first_seen : Dict ℤ
  pub reported : List ℕ

abbrev pub new_confirmer : ℤ → CycleConfirmer
new_confirmer confirm_s = record { confirm_s = confirm_s; first_seen = []; reported = [] }

-- `sorted({frozenset(c) for c in components})`
unfoldable pub set_insert : ℕ → List ℕ → List ℕ
set_insert x [] = x ∷ []
set_insert x (y ∷ ys) =
    if x == y then y ∷ ys else if ltb x y then x ∷ y ∷ ys else y ∷ set_insert x ys

unfoldable pub sorted_set : List ℕ → List ℕ
unfolding set_insert
sorted_set [] = []
sorted_set (x ∷ xs) = set_insert x (sorted_set xs)

-- `set.discard`; the list has no element twice.
abbrev pub discarded : ℕ → List ℕ → List ℕ
discarded x [] = []
discarded x (y ∷ ys) = if x == y then ys else y ∷ discarded x ys

-- The first loop: what is no longer there is forgotten.
abbrev pub forget_one : List ℕ → ℕ → CycleConfirmer → CycleConfirmer
forget_one current sig c =
    if member sig current
    then c
    else record c { first_seen = erase sig c.first_seen; reported = discarded sig c.reported }

unfoldable pub forget_gone : List ℕ → List ℕ → CycleConfirmer → CycleConfirmer
forget_gone current [] c = c
forget_gone current (sig ∷ sigs) c = forget_gone current sigs (forget_one current sig c)

-- `setdefault(sig, now)`
abbrev pub first_of : Option ℤ → ℤ → ℤ
first_of none now = now
first_of (some t) now = t

abbrev pub noted : ℕ → ℤ → CycleConfirmer → CycleConfirmer
noted sig now c = record c {
  first_seen = insert sig (first_of (lookup sig c.first_seen) now) c.first_seen;
}

abbrev pub is_due : ℕ → ℤ → CycleConfirmer → Bool
is_due sig now c =
    not (member sig c.reported) && leb_ℤ c.confirm_s (now -ℤ first_of (lookup sig c.first_seen) now)

-- The second loop
unfoldable pub confirm_each : ℤ → List ℕ → CycleConfirmer → List ℕ × CycleConfirmer
confirm_each now [] c = ([], c)
confirm_each now (sig ∷ sigs) c =
    let c' = noted sig now c in
    let (more, after) = confirm_each now sigs (record c' { reported = sig ∷ c.reported }) in
    let (others, left) = confirm_each now sigs c' in
    if is_due sig now c then (sig ∷ more, after) else (others, left)

unfoldable pub update : ℤ → List ℕ → CycleConfirmer → List ℕ × CycleConfirmer
unfolding sorted_set forget_gone confirm_each
update now components c =
    confirm_each now (sorted_set components) (forget_gone components (keys c.first_seen) c)

-- `pending`: how long the sets that are not reported have been there
abbrev pub waiting_in : ℤ → List ℕ → Dict ℤ → Dict ℤ
waiting_in now reported [] = []
waiting_in now reported ((sig, t) ∷ rest) =
    if member sig reported
    then waiting_in now reported rest
    else (sig, now -ℤ t) ∷ waiting_in now reported rest

unfoldable pub pending : ℤ → CycleConfirmer → Dict ℤ
pending now c = waiting_in now c.reported c.first_seen
