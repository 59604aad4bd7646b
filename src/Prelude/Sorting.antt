-- ===== src/Prelude/Sorting.antt =====
-- `sorted(xs, key=...)` and `min(xs, key=...)`, for keys that are tuples of integers.
use mathlib.Core.Path.{◌≡◌, refl}
use mathlib.Core.Bool.{false}
use mathlib.Core.List.{List, [], ◌∷◌, Perm}
use mathlib.Core.List.Perm
use mathlib.Core.Logic.{inl, inr, ◌≢◌}
use native.Mathlib.Omega.{arith}
use amr_fleet_system.Prelude.Tests.{if◌then◌else◌, Bool-cases}
use amr_fleet_system.Prelude.Lists.{All, All-imp}
use amr_fleet_system.Prelude.Int.{ℤ}
use amr_fleet_system.Prelude.Lex.{lex_lt, lex_lt_asymm, lex_lt_irrefl, lex_le_trans}

module _ {ℓ} {A : Type ℓ} (key : A → List ℤ) where
  -- Among equal keys `x`, which stood first, stays first.
  unfoldable pub insert_sorted : A → List A → List A
  insert_sorted x [] = x ∷ []
  insert_sorted x (y ∷ ys) = if lex_lt (key y) (key x) then y ∷ insert_sorted x ys else x ∷ y ∷ ys

  unfoldable pub sorted_by : List A → List A
  unfolding insert_sorted
  sorted_by [] = []
  sorted_by (x ∷ xs) = insert_sorted x (sorted_by xs)

  -- No later key is below an earlier one.
  abbrev pub IsSorted : List A → Type 0
  IsSorted [] = Unit
  IsSorted (x ∷ xs) = All (λ y. lex_lt (key y) (key x) ≡ false) xs × IsSorted xs

  pub insert_sorted-perm : (x : A) (xs : List A) → Perm (insert_sorted x xs) (x ∷ xs)
  unfolding insert_sorted
  insert_sorted-perm x [] = Perm.rfl
  insert_sorted-perm x (y ∷ ys) = elim (Bool-cases (lex_lt (key y) (key x))) [
    | inl e ↦ rw e (Perm.trans (Perm.cons y (insert_sorted-perm x ys)) (Perm.swap x y ys))
    | inr e ↦ rw e Perm.rfl
  ]

  pub sorted_by-perm : (xs : List A) → Perm (sorted_by xs) xs
  unfolding sorted_by
  sorted_by-perm [] = Perm.rfl
  sorted_by-perm (x ∷ xs) =
      Perm.trans (insert_sorted-perm x (sorted_by xs)) (Perm.cons x (sorted_by-perm xs))

  abbrev pub NotBelow : A → A → Type 0
  NotBelow x y = lex_lt (key y) (key x) ≡ false

  NotBelow-insert :
      (x z : A) (ys : List A)
      → NotBelow z x
      → All (NotBelow z) ys
      → All (NotBelow z) (insert_sorted x ys)
  unfolding insert_sorted
  NotBelow-insert x z [] hx h = (hx, tt)
  NotBelow-insert x z (y ∷ ys) hx h = ground (arith, NotBelow-insert x z ys hx h.1)

  pub insert_sorted-IsSorted : (x : A) (ys : List A) → IsSorted ys → IsSorted (insert_sorted x ys)
  unfolding insert_sorted
  insert_sorted-IsSorted x [] h = (tt, tt)
  insert_sorted-IsSorted x (y ∷ ys) h = elim (Bool-cases (lex_lt (key y) (key x))) [
    | inl e ↦ rw e (
      NotBelow-insert x y ys (lex_lt_asymm (key y) (key x) e) h.0,
      insert_sorted-IsSorted x ys h.1,
    )
    | inr e ↦
        rw e
          ((e, All-imp (NotBelow y) (NotBelow x) ys (λ z hz. lex_le_trans _ (key y) _ e hz) h.0), h)
  ]

  pub sorted_by-IsSorted : (xs : List A) → IsSorted (sorted_by xs)
  unfolding sorted_by
  sorted_by-IsSorted [] = tt
  sorted_by-IsSorted (x ∷ xs) = insert_sorted-IsSorted x (sorted_by xs) (sorted_by-IsSorted xs)

  All-insert_sorted {κ} :
      (P : A → Type κ) (x : A) (ys : List A) → All P (insert_sorted x ys) → P x × All P ys
  unfolding insert_sorted
  All-insert_sorted P x [] h = h
  All-insert_sorted P x (y ∷ ys) h = elim (Bool-cases (lex_lt (key y) (key x))) [
    | inl e ↦
        let h' : P y × All P (insert_sorted x ys) = rw e at h in
        let r = All-insert_sorted P x ys h'.1 in (r.0, (h'.0, r.1))
    | inr e ↦ rw e at h
  ]

  -- What holds of the sorted elements holds of the elements.
  pub All-sorted_by {κ} : (P : A → Type κ) (xs : List A) → All P (sorted_by xs) → All P xs
  unfolding sorted_by
  All-sorted_by P [] h = tt
  All-sorted_by P (x ∷ xs) h =
      let r = All-insert_sorted P x (sorted_by xs) h in (r.0, All-sorted_by P xs r.1)

  pub insert_sorted-All {κ} :
      (P : A → Type κ) (x : A) (ys : List A) → P x → All P ys → All P (insert_sorted x ys)
  unfolding insert_sorted
  insert_sorted-All P x [] p h = (p, tt)
  insert_sorted-All P x (y ∷ ys) p h = elim (Bool-cases (lex_lt (key y) (key x))) [
    | inl e ↦ rw e (h.0, insert_sorted-All P x ys p h.1)
    | inr e ↦ rw e (p, h)
  ]

  pub sorted_by-All {κ} : (P : A → Type κ) (xs : List A) → All P xs → All P (sorted_by xs)
  unfolding sorted_by
  sorted_by-All P [] h = tt
  sorted_by-All P (x ∷ xs) h = insert_sorted-All P x (sorted_by xs) h.0 (sorted_by-All P xs h.1)

  pub insert_sorted-ne-nil : (x : A) (ys : List A) → insert_sorted x ys ≢ []
  unfolding insert_sorted
  insert_sorted-ne-nil x [] e = cc
  insert_sorted-ne-nil x (y ∷ ys) e = ground arith

  pub sorted_by-eq-nil : (xs : List A) → sorted_by xs ≡ [] → xs ≡ []
  unfolding sorted_by
  sorted_by-eq-nil [] e = refl
  sorted_by-eq-nil (x ∷ xs) e = absurd (insert_sorted-ne-nil x (sorted_by xs) e)

  -- `min(x ∷ xs)`: the first of the elements whose key no other key is below.
  unfoldable pub min_by : A → List A → A
  min_by x [] = x
  min_by x (y ∷ ys) = min_by (if lex_lt (key y) (key x) then y else x) ys

  chosen-NotBelow : (x y : A) → NotBelow (if lex_lt (key y) (key x) then y else x) y
  chosen-NotBelow x y = elim (Bool-cases (lex_lt (key y) (key x))) [
    | inl e ↦ rw e (lex_lt_irrefl (key y))
    | inr e ↦ rw e e
  ]

  min_by-NotBelow_start : (x : A) (xs : List A) → NotBelow (min_by x xs) x
  unfolding min_by
  min_by-NotBelow_start x [] = lex_lt_irrefl (key x)
  min_by-NotBelow_start x (y ∷ ys) = elim (Bool-cases (lex_lt (key y) (key x))) [
    | inl e ↦
        rw e
          (lex_le_trans _ (key y) _ (min_by-NotBelow_start y ys) (lex_lt_asymm (key y) (key x) e))
    | inr e ↦ rw e (min_by-NotBelow_start x ys)
  ]

  min_by-NotBelow_rest : (x : A) (xs : List A) → All (NotBelow (min_by x xs)) xs
  unfolding min_by
  min_by-NotBelow_rest x [] = tt
  min_by-NotBelow_rest x (y ∷ ys) =
      let z : A = if lex_lt (key y) (key x) then y else x in
      (
        lex_le_trans _ (key z) _ (min_by-NotBelow_start z ys) (chosen-NotBelow x y),
        min_by-NotBelow_rest z ys,
      )

  -- The minimum's key is below or at every key.
  pub min_by-least : (x : A) (xs : List A) → All (NotBelow (min_by x xs)) (x ∷ xs)
  min_by-least x xs = (min_by-NotBelow_start x xs, min_by-NotBelow_rest x xs)
