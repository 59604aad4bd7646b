-- ===== src/Deadlock/Walks.antt =====
-- Walks in a component, and the path on the stack of `find_cycle`.
use amr_fleet_system.Prelude.{
  ℕ, ◌==◌, pos, Bool, true, false, ◌||◌, ◌≡◌, ◌≢◌, refl, sym, ap, ◌∙◌, inl, inr, List, [], ◌∷◌,
  ◌++◌, filter, member, All, arith, Bool-cases, lex_lt,
}
use amr_fleet_system.Prelude.Sorting.{sorted_by, insert_sorted}
use amr_fleet_system.Allocation.Fairness.{Distinct}
use amr_fleet_system.Deadlock.Cycles.{Adjacency, targets, children, Frames, path_onto}

member-insert_sorted :
    (x y : ℕ) (ys : List ℕ)
    → member x (insert_sorted (λ k. pos k ∷ []) y ys) ≡ (x == y || member x ys)
unfolding insert_sorted
member-insert_sorted x y [] = refl
member-insert_sorted x y (z ∷ zs) = elim (Bool-cases (lex_lt (pos z ∷ []) (pos y ∷ []))) [
  | inl e ↦ rw e (ground (arith, member-insert_sorted x y zs))
  | inr e ↦ rw e refl
]

member-sorted_by : (x : ℕ) (ys : List ℕ) → member x (sorted_by (λ k. pos k ∷ []) ys) ≡ member x ys
unfolding sorted_by
member-sorted_by x [] = refl
member-sorted_by x (y ∷ ys) =
    cc (member-insert_sorted x y (sorted_by (λ k. pos k ∷ []) ys), member-sorted_by x ys)

member-filter :
    (x : ℕ) (p : ℕ → Bool) (ys : List ℕ)
    → member x (filter p ys) ≡ true
    → (p x ≡ true) × (member x ys ≡ true)
member-filter x p [] e = cc
member-filter x p (y ∷ ys) e = ground (arith, member-filter x p ys)

member-filter_both :
    (x : ℕ) (p : ℕ → Bool) (ys : List ℕ)
    → p x ≡ true
    → member x ys ≡ true
    → member x (filter p ys) ≡ true
member-filter_both x p [] fits e = cc
member-filter_both x p (y ∷ ys) fits e = ground (arith, member-filter_both x p ys)

module _ (adj : Adjacency) (members : List ℕ) where
  -- A child is a member that an edge leads to.
  abbrev pub IsEdge : ℕ → ℕ → Type 0
  IsEdge v u = (member u members ≡ true) × (member u (targets v adj) ≡ true)

  pub children-IsEdge : (v u : ℕ) → member u (children adj members v) ≡ true → IsEdge v u
  unfolding children
  children-IsEdge v u e =
      member-filter u (λ x. member x members) (targets v adj)
        (sym (member-sorted_by u (filter (λ x. member x members) (targets v adj))) ∙ e)

  pub IsEdge-children : (v u : ℕ) → IsEdge v u → member u (children adj members v) ≡ true
  unfolding children
  IsEdge-children v u (a, b) =
      member-sorted_by u (filter (λ x. member x members) (targets v adj))
      ∙ member-filter_both u (λ x. member x members) (targets v adj) a b

  -- Consecutive nodes are joined by edges.
  abbrev pub IsWalk : List ℕ → Type 0
  IsWalk [] = Unit
  IsWalk (v ∷ []) = Unit
  IsWalk (v ∷ u ∷ us) = IsEdge v u × IsWalk (u ∷ us)

  module _ (start : ℕ) where
    abbrev pub Below : ℕ → Frames → Type 0
    Below v [] = v ≡ start
    Below v ((u, left) ∷ frames) = IsEdge u v

    -- Each node on the stack is a child of the one below it, and what is left of its children are edges.
    abbrev pub Chain : Frames → Type 0
    Chain [] = Unit
    Chain ((v, left) ∷ frames) = All (IsEdge v) left × Below v frames × Chain frames

    pub path_onto-IsWalk :
        (frames : Frames) (v : ℕ) (acc : List ℕ)
        → Below v frames
        → Chain frames
        → IsWalk (v ∷ acc)
        → IsWalk (path_onto frames (v ∷ acc))
          × ((more : List ℕ) × (path_onto frames (v ∷ acc) ≡ start ∷ more))
    path_onto-IsWalk [] v acc below chain h = (h, (acc, ap (λ x. x ∷ acc) below))
    path_onto-IsWalk ((u, left) ∷ frames) v acc below chain h =
        path_onto-IsWalk frames u (v ∷ acc) chain.1 chain.2 (below, h)

abbrev pub nodes_of : Frames → List ℕ
nodes_of [] = []
nodes_of ((v, left) ∷ frames) = v ∷ nodes_of frames

pub path_onto-append :
    (frames : Frames) (acc more : List ℕ)
    → path_onto frames (acc ++ more) ≡ path_onto frames acc ++ more
path_onto-append [] acc more = refl
path_onto-append ((v, left) ∷ frames) acc more = path_onto-append frames (v ∷ acc) more

apart_cons :
    (v : ℕ) (acc xs : List ℕ)
    → member v xs ≡ false
    → All (λ x. member x acc ≡ false) xs
    → All (λ x. member x (v ∷ acc) ≡ false) xs
apart_cons v acc [] absent h = tt
apart_cons v acc (x ∷ xs) absent h = ground (arith, apart_cons v acc xs)

pub path_onto-Distinct :
    (frames : Frames) (acc : List ℕ)
    → Distinct (nodes_of frames)
    → Distinct acc
    → All (λ x. member x acc ≡ false) (nodes_of frames)
    → Distinct (path_onto frames acc)
path_onto-Distinct [] acc h d apart = d
path_onto-Distinct ((v, left) ∷ frames) acc h d apart =
    path_onto-Distinct frames (v ∷ acc) h.1 (apart.0, d)
      (apart_cons v acc (nodes_of frames) h.0 apart.1)

pub apart_nil : (xs : List ℕ) → All (λ x. member x [] ≡ false) xs
apart_nil [] = tt
apart_nil (x ∷ xs) = (refl, apart_nil xs)

pub unseen-absent :
    (u : ℕ) (seen xs : List ℕ)
    → member u seen ≡ false
    → All (λ x. member x seen ≡ true) xs
    → member u xs ≡ false
unseen-absent u seen [] new h = refl
unseen-absent u seen (x ∷ xs) new h =
    let other : u ≢ x = λ same. cc (ap (λ y. member y seen) same, h.0) in
    ground (arith, unseen-absent u seen xs new h.1)

pub seen_more :
    (u : ℕ) (seen xs : List ℕ)
    → All (λ x. member x seen ≡ true) xs
    → All (λ x. member x (u ∷ seen) ≡ true) xs
seen_more u seen [] h = tt
seen_more u seen (x ∷ xs) h = (ground arith, seen_more u seen xs h.1)

pub each_member : (xs : List ℕ) → All (λ x. member x xs ≡ true) xs
each_member [] = tt
each_member (x ∷ xs) = (ground arith, seen_more x xs xs (each_member xs))
