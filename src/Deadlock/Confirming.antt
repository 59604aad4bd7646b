-- ===== src/Deadlock/Confirming.antt =====
-- When a candidate that stays is confirmed.
use amr_fleet_system.Prelude.{
  ℕ, ◌<◌, ◌==◌, ℤ, ◌-ℤ◌, leb_ℤ, true, false, ◌||◌, ◌≡◌, ◌≢◌, refl, ap, ◌∙◌, inl, inr, none, some,
  List, [], ◌∷◌, member, All, arith, Bool-cases, if◌then◌else◌,
}
use amr_fleet_system.Prelude.Dict.{lookup, keys, lookup-insert, lookup-erase_ne}
use amr_fleet_system.Deadlock.Confirmer.{
  CycleConfirmer, set_insert, sorted_set, discarded, forget_one, forget_gone, first_of, noted,
  is_due, confirm_each, update,
}

-- A list in strictly ascending order.
abbrev Ascending : List ℕ → Type 0
Ascending [] = Unit
Ascending (x ∷ xs) = All (λ y. x < y) xs × Ascending xs

abbrev Above : ℕ → List ℕ → Type 0
Above x ys = All (λ y. x < y) ys

Above-trans : (x y : ℕ) (ys : List ℕ) → x < y → Above y ys → Above x ys
Above-trans x y [] less h = tt
Above-trans x y (z ∷ zs) less h = (omega arith, Above-trans x y zs less h.1)

set_insert-Above : (x y : ℕ) (ys : List ℕ) → x < y → Above x ys → Above x (set_insert y ys)
unfolding set_insert
set_insert-Above x y [] less h = (less, tt)
set_insert-Above x y (z ∷ zs) less h = ground (arith, set_insert-Above x y zs less h.1)

set_insert-Ascending : (x : ℕ) (ys : List ℕ) → Ascending ys → Ascending (set_insert x ys)
unfolding set_insert
set_insert-Ascending x [] h = (tt, tt)
set_insert-Ascending x (y ∷ ys) h =
    ground (arith, set_insert-Ascending x ys h.1, set_insert-Above y x ys, Above-trans x y ys)

sorted_set-Ascending : (xs : List ℕ) → Ascending (sorted_set xs)
unfolding sorted_set
sorted_set-Ascending [] = tt
sorted_set-Ascending (x ∷ xs) = set_insert-Ascending x (sorted_set xs) (sorted_set-Ascending xs)

member-set_insert : (s x : ℕ) (ys : List ℕ) → member s (set_insert x ys) ≡ (s == x || member s ys)
unfolding set_insert
member-set_insert s x [] = ground arith
member-set_insert s x (y ∷ ys) = ground (arith, member-set_insert s x ys)

member-sorted_set : (s : ℕ) (xs : List ℕ) → member s (sorted_set xs) ≡ member s xs
unfolding sorted_set
member-sorted_set s [] = refl
member-sorted_set s (x ∷ xs) =
    ground (arith, member-sorted_set s xs, member-set_insert s x (sorted_set xs))

Above-absent : (x : ℕ) (ys : List ℕ) → Above x ys → member x ys ≡ false
Above-absent x [] h = refl
Above-absent x (y ∷ ys) h = ground (arith, Above-absent x ys h.1)

member-discarded : (s x : ℕ) (ys : List ℕ) → s ≢ x → member s (discarded x ys) ≡ member s ys
member-discarded s x [] other = refl
member-discarded s x (y ∷ ys) other = ground (arith, member-discarded s x ys other)

-- A set that is still there is not forgotten.
forget_one-keeps :
    (s : ℕ) (current : List ℕ) (sig : ℕ) (c : CycleConfirmer)
    → member s current ≡ true
    → (lookup s (forget_one current sig c).first_seen ≡ lookup s c.first_seen)
      × (member s (forget_one current sig c).reported ≡ member s c.reported)
      × ((forget_one current sig c).confirm_s ≡ c.confirm_s)
forget_one-keeps s current sig c here = elim (Bool-cases (member sig current)) [
  | inl there ↦ rw there (refl, refl, refl)
  | inr gone ↦
      let other : s ≢ sig = λ same. cc (ap (λ x. member x current) same) in
      rw gone
        (lookup-erase_ne sig c.first_seen other, member-discarded s sig c.reported other, refl)
]

forget_gone-keeps :
    (s : ℕ) (current sigs : List ℕ) (c : CycleConfirmer)
    → member s current ≡ true
    → (lookup s (forget_gone current sigs c).first_seen ≡ lookup s c.first_seen)
      × (member s (forget_gone current sigs c).reported ≡ member s c.reported)
      × ((forget_gone current sigs c).confirm_s ≡ c.confirm_s)
unfolding forget_gone
forget_gone-keeps s current [] c here = (refl, refl, refl)
forget_gone-keeps s current (sig ∷ sigs) c here =
    let (seen, told, time) = forget_one-keeps s current sig c here in
    let (seen', told', time') = forget_gone-keeps s current sigs (forget_one current sig c) here in
    (seen' ∙ seen, told' ∙ told, time' ∙ time)

-- The other sets of a cycle do not matter.
confirm_each-others :
    (s : ℕ) (now : ℤ) (sigs : List ℕ) (c : CycleConfirmer)
    → member s sigs ≡ false
    → let (confirmed, after) = confirm_each now sigs c in
      (member s confirmed ≡ false)
      × (lookup s after.first_seen ≡ lookup s c.first_seen)
      × (member s after.reported ≡ member s c.reported)
      × (after.confirm_s ≡ c.confirm_s)
unfolding confirm_each
confirm_each-others s now [] c absent = (refl, refl, refl, refl)
confirm_each-others s now (sig ∷ sigs) c absent =
    let c' = noted sig now c in
    ground (
      arith,
      confirm_each-others s now sigs (record c' { reported = sig ∷ c.reported }),
      confirm_each-others s now sigs c',
      lookup-insert s sig (first_of (lookup sig c.first_seen) now) c.first_seen,
    )

-- What a cycle makes of a set that is there.
confirm_each-of :
    (s : ℕ) (now : ℤ) (sigs : List ℕ) (c : CycleConfirmer)
    → Ascending sigs
    → member s sigs ≡ true
    → let (confirmed, after) = confirm_each now sigs c in
      (member s confirmed ≡ is_due s now c)
      × (lookup s after.first_seen ≡ some (first_of (lookup s c.first_seen) now))
      × (member s after.reported ≡ (is_due s now c || member s c.reported))
      × (after.confirm_s ≡ c.confirm_s)
unfolding confirm_each
confirm_each-of s now [] c h here = cc
confirm_each-of s now (sig ∷ sigs) c h here =
    let c' = noted sig now c in
    ground (
      arith,
      confirm_each-of s now sigs (record c' { reported = sig ∷ c.reported }) h.1,
      confirm_each-of s now sigs c' h.1,
      confirm_each-others s now sigs (record c' { reported = sig ∷ c.reported }),
      confirm_each-others s now sigs c',
      Above-absent sig sigs h.0,
      lookup-insert s sig (first_of (lookup sig c.first_seen) now) c.first_seen,
    )

is_due-same :
    (s : ℕ) (now : ℤ) (c c' : CycleConfirmer)
    → lookup s c'.first_seen ≡ lookup s c.first_seen
    → member s c'.reported ≡ member s c.reported
    → c'.confirm_s ≡ c.confirm_s
    → is_due s now c' ≡ is_due s now c
is_due-same s now c c' seen told time = cc

update-of :
    (s : ℕ) (now : ℤ) (components : List ℕ) (c : CycleConfirmer)
    → member s components ≡ true
    → let (confirmed, after) = update now components c in
      (member s confirmed ≡ is_due s now c)
      × (lookup s after.first_seen ≡ some (first_of (lookup s c.first_seen) now))
      × (member s after.reported ≡ (is_due s now c || member s c.reported))
      × (after.confirm_s ≡ c.confirm_s)
unfolding update
update-of s now components c here =
    let left = forget_gone components (keys c.first_seen) c in
    let (seen, told, time) = forget_gone-keeps s components (keys c.first_seen) c here in
    let same = is_due-same s now c left seen told time in
    let (out, first, kept, wait) =
      confirm_each-of s now (sorted_set components) left (sorted_set-Ascending components)
        (member-sorted_set s components ∙ here) in
    (out ∙ same, cc (first, seen), cc (kept, same, told), wait ∙ time)

-- The candidates of each cycle, with its time.
abbrev pub Cycles : Type 0
Cycles = List (ℤ × List ℕ)

abbrev pub times : Cycles → List ℤ
times [] = []
times ((now, components) ∷ cycles) = now ∷ times cycles

abbrev pub IsThere : ℕ → Cycles → Type 0
IsThere s [] = Unit
IsThere s ((now, components) ∷ cycles) = (member s components ≡ true) × IsThere s cycles

-- The times at which a set is confirmed.
abbrev pub confirmed_at : ℕ → Cycles → CycleConfirmer → List ℤ
confirmed_at s [] c = []
confirmed_at s ((now, components) ∷ cycles) c =
    let (confirmed, after) = update now components c in
    let rest = confirmed_at s cycles after in if member s confirmed then now ∷ rest else rest

-- The first of these times that is late enough, if there is one.
abbrev pub first_due : ℤ → ℤ → List ℤ → List ℤ
first_due confirm_s start [] = []
first_due confirm_s start (t ∷ ts) =
    if leb_ℤ confirm_s (t -ℤ start) then t ∷ [] else first_due confirm_s start ts

confirmed_at-told :
    (s : ℕ) (cycles : Cycles) (c : CycleConfirmer)
    → IsThere s cycles
    → member s c.reported ≡ true
    → confirmed_at s cycles c ≡ []
confirmed_at-told s [] c there told = refl
confirmed_at-told s ((now, components) ∷ cycles) c there told =
    let (out, first, kept, wait) = update-of s now components c there.0 in
    ground (arith, confirmed_at-told s cycles (update now components c).1 there.1)

confirmed_at-waiting :
    (s : ℕ) (start : ℤ) (cycles : Cycles) (c : CycleConfirmer)
    → IsThere s cycles
    → lookup s c.first_seen ≡ some start
    → member s c.reported ≡ false
    → confirmed_at s cycles c ≡ first_due c.confirm_s start (times cycles)
confirmed_at-waiting s start [] c there seen told = refl
confirmed_at-waiting s start ((now, components) ∷ cycles) c there seen told =
    let c' = (update now components c).1 in
    let (out, first, kept, wait) = update-of s now components c there.0 in
    ground
      (arith, confirmed_at-told s cycles c' there.1, confirmed_at-waiting s start cycles c' there.1)

-- A candidate that the confirmer has neither seen nor reported, and that is there in each of the next
-- cycles, is confirmed exactly once: at the first of them that is at least `confirm_s` after the first
-- one. If none is, it is not confirmed. Whatever other candidates come and go.
pub confirmed_once :
    (s : ℕ) (now : ℤ) (components : List ℕ) (cycles : Cycles) (c : CycleConfirmer)
    → lookup s c.first_seen ≡ none
    → member s c.reported ≡ false
    → IsThere s ((now, components) ∷ cycles)
    → confirmed_at s ((now, components) ∷ cycles) c ≡ first_due c.confirm_s now (now ∷ times cycles)
confirmed_once s now components cycles c seen told there =
    let c' = (update now components c).1 in
    let (out, first, kept, wait) = update-of s now components c there.0 in
    ground
      (arith, confirmed_at-told s cycles c' there.1, confirmed_at-waiting s now cycles c' there.1)
