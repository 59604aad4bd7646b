-- ===== src/Prelude/Dict.antt =====
-- A dict keyed by identifiers, in insertion order.
use amr_fleet_system.Prelude.Tests.{◌==◌, if◌then◌else◌, Bool-cases}
use amr_fleet_system.Prelude.Lists.{length}
use Prim.Native.Nat.{ℕ, suc}
use mathlib.Core.Path.{◌≡◌, refl, ◌∙◌}
use mathlib.Core.Logic.{◌≢◌, inl, inr}
use mathlib.Core.Bool.{Bool, true, false}
use mathlib.Core.Option.{Option, none, some}
use mathlib.Core.List.{List, [], ◌∷◌}
use native.Mathlib.Omega.{arith}

abbrev pub Dict {ℓ} : Type ℓ → Type ℓ
Dict V = List (ℕ × V)

module _ {ℓ} {V : Type ℓ} where
  -- `list(d)`
  abbrev pub keys : Dict V → List ℕ
  keys [] = []
  keys ((i, x) ∷ rest) = i ∷ keys rest

  -- `list(d.values())`
  abbrev pub values : Dict V → List V
  values [] = []
  values ((i, x) ∷ rest) = x ∷ values rest

  -- `d.get(i)`
  abbrev pub lookup : (i : ℕ) → Dict V → Option V
  lookup i [] = none
  lookup i ((j, x) ∷ rest) = if i == j then some x else lookup i rest

  -- `d[i] = x`: an old key keeps its place, a new one goes to the end.
  abbrev pub insert : (i : ℕ) (x : V) → Dict V → Dict V
  insert i x [] = (i, x) ∷ []
  insert i x ((j, y) ∷ rest) = if i == j then (i, x) ∷ rest else (j, y) ∷ insert i x rest

  -- `d.pop(i, None)`
  abbrev pub erase : (i : ℕ) → Dict V → Dict V
  erase i [] = []
  erase i ((j, y) ∷ rest) = if i == j then rest else (j, y) ∷ erase i rest

  -- `i in d`
  abbrev pub contains : (i : ℕ) → Dict V → Bool
  contains i rest = elim (lookup i rest) [ some x ↦ true | none ↦ false ]

  -- No key stands twice.
  abbrev pub IsUnique : Dict V → Type ℓ
  IsUnique [] = Unit
  IsUnique ((k, v) ∷ d) = (lookup k d ≡ none) × IsUnique d

  -- A predicate of every entry.
  abbrev pub Entries {κ} : (ℕ → V → Type κ) → Dict V → Type κ
  Entries P [] = Unit
  Entries P ((k, v) ∷ d) = P k v × Entries P d

module _ {ℓ} {V : Type ℓ} where
  pub lookup-insert :
      (j k : ℕ) (v : V) (d : Dict V)
      → lookup j (insert k v d) ≡ (if j == k then some v else lookup j d)
  lookup-insert j k v [] = refl
  lookup-insert j k v ((i, w) ∷ d) = ground (arith, lookup-insert j k v d)

  pub lookup-insert_ne :
      (i n : ℕ) (x : V) (rest : Dict V) → i ≢ n → lookup i (insert n x rest) ≡ lookup i rest
  lookup-insert_ne i n x rest other = ground (arith, lookup-insert i n x rest)

  pub lookup-insert_self : (n : ℕ) (x : V) (rest : Dict V) → lookup n (insert n x rest) ≡ some x
  lookup-insert_self n x rest = ground (arith, lookup-insert n n x rest)

  pub lookup-erase_self : (k : ℕ) (d : Dict V) → IsUnique d → lookup k (erase k d) ≡ none
  lookup-erase_self k [] u = refl
  lookup-erase_self k ((i, w) ∷ d) u = ground (arith, lookup-erase_self k d u.1)

  -- What is erased is another key.
  pub lookup-erase_ne :
      (i : ℕ) (rest : Dict V) {j : ℕ} → j ≢ i → lookup j (erase i rest) ≡ lookup j rest
  lookup-erase_ne i [] h = refl
  lookup-erase_ne i ((n, y) ∷ rest) {j} h = ground (arith, lookup-erase_ne i rest {j = j} h)

  pub insert-IsUnique : (k : ℕ) (v : V) (d : Dict V) → IsUnique d → IsUnique (insert k v d)
  insert-IsUnique k v [] u = (refl, tt)
  insert-IsUnique k v ((i, w) ∷ d) u =
      ground (arith, insert-IsUnique k v d u.1, lookup-insert i k v d)

  pub erase-IsUnique : (k : ℕ) (d : Dict V) → IsUnique d → IsUnique (erase k d)
  erase-IsUnique k [] u = tt
  erase-IsUnique k ((i, w) ∷ d) u = elim (Bool-cases (k == i)) [
    | inl e ↦ rw e u.1
    | inr e ↦ rw e (lookup-erase_ne k d (ground arith) ∙ u.0, erase-IsUnique k d u.1)
  ]

  -- Nothing is erased that is not there.
  pub erase-absent : (k : ℕ) (d : Dict V) → lookup k d ≡ none → erase k d ≡ d
  erase-absent k [] e = refl
  erase-absent k ((i, w) ∷ d) e = ground (arith, erase-absent k d)

  pub erase-insert_new :
      (k : ℕ) (v : V) (d : Dict V) → lookup k d ≡ none → erase k (insert k v d) ≡ d
  erase-insert_new k v [] e = ground arith
  erase-insert_new k v ((i, w) ∷ d) e = ground (arith, erase-insert_new k v d)

  pub insert-insert : (k : ℕ) (v w : V) (d : Dict V) → insert k w (insert k v d) ≡ insert k w d
  insert-insert k v w [] = ground arith
  insert-insert k v w ((i, x) ∷ d) = ground (arith, insert-insert k v w d)

  pub length-insert_old :
      (k : ℕ) (v w : V) (d : Dict V) → lookup k d ≡ some w → length (insert k v d) ≡ length d
  length-insert_old k v w [] e = cc
  length-insert_old k v w ((i, x) ∷ d) e = ground (arith, length-insert_old k v w d)

  pub length-insert_new :
      (k : ℕ) (v : V) (d : Dict V) → lookup k d ≡ none → length (insert k v d) ≡ suc (length d)
  length-insert_new k v [] e = refl
  length-insert_new k v ((i, x) ∷ d) e = ground (arith, length-insert_new k v d)

module _ {ℓ κ} {V : Type ℓ} (P : ℕ → V → Type κ) where
  pub Entries-lookup : (k : ℕ) (v : V) (d : Dict V) → Entries P d → lookup k d ≡ some v → P k v
  Entries-lookup k v [] h e = cc
  Entries-lookup k v ((i, w) ∷ d) h e = ground (arith, Entries-lookup k v d h.1, h.0)

  pub Entries-insert : (k : ℕ) (v : V) (d : Dict V) → Entries P d → P k v → Entries P (insert k v d)
  Entries-insert k v [] h p = (p, tt)
  Entries-insert k v ((i, w) ∷ d) h p = ground (arith, Entries-insert k v d h.1 p)

  pub Entries-erase : (k : ℕ) (d : Dict V) → Entries P d → Entries P (erase k d)
  Entries-erase k [] h = tt
  Entries-erase k ((i, w) ∷ d) h = ground (arith, Entries-erase k d h.1)
