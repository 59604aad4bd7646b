-- ===== src/Deadlock/Cycles.antt =====
-- `find_cycle` of deadlock.py. The loop runs on fuel, and `none` is the end of the fuel.
use amr_fleet_system.Prelude.{
  ℕ, zero, suc, ◌+◌, ◌==◌, pos, Option, none, some, List, [], ◌∷◌, filter, length, member,
  if◌then◌else◌,
}
use amr_fleet_system.Prelude.Dict.{Dict, lookup}
use amr_fleet_system.Prelude.Sorting.{sorted_by}
use amr_fleet_system.Deadlock.Confirmer.{sorted_set}

abbrev pub Adjacency : Type 0
Adjacency = Dict (List ℕ)

-- `adj.get(v, ())`
abbrev pub targets : ℕ → Adjacency → List ℕ
targets v adj = elim (lookup v adj) [ none ↦ [] | some us ↦ us ]

-- `sorted(u for u in adj.get(v, ()) if u in members)`
unfoldable pub children : Adjacency → List ℕ → ℕ → List ℕ
children adj members v =
    sorted_by (λ k. pos k ∷ []) (filter (λ u. member u members) (targets v adj))

-- `path` and `iters`, the last first: the nodes on the stack, with the children that are left of each
abbrev pub Frames : Type 0
Frames = List (ℕ × List ℕ)

-- `list(path)`, before what is already there
abbrev pub path_onto : Frames → List ℕ → List ℕ
path_onto [] acc = acc
path_onto ((v, left) ∷ frames) acc = path_onto frames (v ∷ acc)

module _ (adj : Adjacency) (members : List ℕ) (start : ℕ) where
  -- The `while`, with `seen`
  unfoldable pub walk : ℕ → List ℕ → Frames → Option (List ℕ)
  walk zero seen frames = none
  walk (suc n) seen [] = some []
  walk (suc n) seen ((v, []) ∷ frames) = walk n seen frames
  walk (suc n) seen ((v, u ∷ left) ∷ frames) =
      let skip_it = walk n seen ((v, left) ∷ frames) in
      let enter = walk n (u ∷ seen) ((u, children adj members u) ∷ (v, left) ∷ frames) in
      if u == start
      then some (path_onto ((v, left) ∷ frames) [])
      else if member u seen
      then skip_it
      else enter

-- What the nodes cost: one step for each, and one for each child.
abbrev pub cost : Adjacency → List ℕ → List ℕ → ℕ
cost adj members [] = 0
cost adj members (v ∷ vs) = suc (length (children adj members v)) + cost adj members vs

abbrev pub cycle_in : Adjacency → List ℕ → Option (List ℕ)
cycle_in adj [] = some []
cycle_in adj (v ∷ []) = some []
cycle_in adj (start ∷ v ∷ vs) =
    let members = start ∷ v ∷ vs in
    walk adj members start (suc (cost adj members members)) (start ∷ [])
      ((start, children adj members start) ∷ [])

unfoldable pub find_cycle : Adjacency → List ℕ → Option (List ℕ)
unfolding walk children sorted_set
find_cycle adj component = cycle_in adj (sorted_set component)
