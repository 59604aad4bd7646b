-- ===== src/Prelude/Lex.antt =====
-- Tuples that Python compares entry by entry, as lists of integers.
use Prim.Native.Nat.{Ordering}
use mathlib.Core.Path.{◌≡◌, refl}
use mathlib.Core.Bool.{Bool, true, false}
use mathlib.Core.List.{List, [], ◌∷◌}
use native.Mathlib.Omega.{arith}
use amr_fleet_system.Prelude.Int.{ℤ, compare_ℤ}

-- `a < b` on tuples.
abbrev pub lex_lt : List ℤ → List ℤ → Bool
lex_lt [] [] = false
lex_lt [] (y ∷ ys) = true
lex_lt (x ∷ xs) [] = false
lex_lt (x ∷ xs) (y ∷ ys) = elim (compare_ℤ x y) [
  | Ordering.lt ↦ true
  | Ordering.eq ↦ lex_lt xs ys
  | Ordering.gt ↦ false
]

pub lex_lt_irrefl : (a : List ℤ) → lex_lt a a ≡ false
lex_lt_irrefl [] = refl
lex_lt_irrefl (x ∷ xs) = ground (arith, lex_lt_irrefl xs)

pub lex_lt_trans : (a b c : List ℤ) → lex_lt a b ≡ true → lex_lt b c ≡ true → lex_lt a c ≡ true
lex_lt_trans [] [] c h k = cc
lex_lt_trans [] (y ∷ ys) [] h k = cc
lex_lt_trans [] (y ∷ ys) (z ∷ zs) h k = refl
lex_lt_trans (x ∷ xs) [] c h k = cc
lex_lt_trans (x ∷ xs) (y ∷ ys) [] h k = cc
lex_lt_trans (x ∷ xs) (y ∷ ys) (z ∷ zs) h k = ground (arith, lex_lt_trans xs ys zs)

-- Not below is transitive as well: the order is total.
pub lex_le_trans : (a b c : List ℤ) → lex_lt b a ≡ false → lex_lt c b ≡ false → lex_lt c a ≡ false
lex_le_trans [] b [] h k = refl
lex_le_trans [] [] (z ∷ zs) h k = refl
lex_le_trans [] (y ∷ ys) (z ∷ zs) h k = refl
lex_le_trans (x ∷ xs) [] c h k = cc
lex_le_trans (x ∷ xs) (y ∷ ys) [] h k = cc
lex_le_trans (x ∷ xs) (y ∷ ys) (z ∷ zs) h k = ground (arith, lex_le_trans xs ys zs)

pub lex_lt_asymm : (a b : List ℤ) → lex_lt a b ≡ true → lex_lt b a ≡ false
lex_lt_asymm [] [] h = refl
lex_lt_asymm [] (y ∷ ys) h = refl
lex_lt_asymm (x ∷ xs) [] h = cc
lex_lt_asymm (x ∷ xs) (y ∷ ys) h = ground (arith, lex_lt_asymm xs ys)
