-- ===== src/Deadlock/SimpleCycle.antt =====
-- What `find_cycle` gives.
use amr_fleet_system.Prelude.{
  ℕ, zero, suc, ◌+◌, ◌≤◌, ◌<◌, ◌==◌, Bool, true, false, ◌&&◌, ◌||◌, ◌≡◌, refl, subst, ap, inl, inr,
  ◌⊎◌, Option, some, List, [], ◌∷◌, ◌++◌, length, member, All, All-imp, arith, Bool-cases,
  if◌then◌else◌,
}
use amr_fleet_system.Allocation.Fairness.{Distinct}
use amr_fleet_system.Deadlock.Confirmer.{sorted_set}
use amr_fleet_system.Deadlock.Cycles.{
  Adjacency, children, Frames, path_onto, walk, cost, cycle_in, find_cycle,
}
use amr_fleet_system.Deadlock.Walks.{
  Below, Chain, IsEdge, IsEdge-children, IsWalk, apart_nil, children-IsEdge, each_member, nodes_of,
  path_onto-Distinct, path_onto-IsWalk, path_onto-append, seen_more, unseen-absent,
}

module _ (adj : Adjacency) (members : List ℕ) where
  abbrev weight : ℕ → ℕ
  weight v = suc (length (children adj members v))

  -- The cost of the nodes that are not seen yet
  abbrev unseen_cost : List ℕ → List ℕ → ℕ
  unseen_cost seen [] = 0
  unseen_cost seen (v ∷ vs) =
      if member v seen then unseen_cost seen vs else weight v + unseen_cost seen vs

  unseen_cost-cons : (u : ℕ) (seen vs : List ℕ) → unseen_cost (u ∷ seen) vs ≤ unseen_cost seen vs
  unseen_cost-cons u seen [] = omega arith
  unseen_cost-cons u seen (v ∷ vs) = ground (arith, unseen_cost-cons u seen vs)

  unseen_cost-enter :
      (u : ℕ) (seen vs : List ℕ)
      → member u vs ≡ true
      → member u seen ≡ false
      → weight u + unseen_cost (u ∷ seen) vs ≤ unseen_cost seen vs
  unseen_cost-enter u seen [] there new = cc
  unseen_cost-enter u seen (v ∷ vs) there new =
      ground (arith, unseen_cost-enter u seen vs, unseen_cost-cons u seen vs)

  unseen_cost-all : (vs : List ℕ) → unseen_cost [] vs ≡ cost adj members vs
  unseen_cost-all [] = refl
  unseen_cost-all (v ∷ vs) = ap (λ n. weight v + n) (unseen_cost-all vs)

  abbrev frames_cost : Frames → ℕ
  frames_cost [] = 0
  frames_cost ((v, left) ∷ frames) = suc (length left) + frames_cost frames

  module _ (start : ℕ) where
    -- A child that the stack has still to look at
    abbrev owed : ℕ → ℕ → Frames → Bool
    owed v u [] = false
    owed v u ((w, left) ∷ frames) = v == w && member u left || owed v u frames

    -- Each child of a seen node is seen and not the start, or has still to be looked at.
    abbrev IsSettled : List ℕ → Frames → Type 0
    IsSettled seen frames =
        (v u : ℕ)
        → member v seen ≡ true
        → member u (children adj members v) ≡ true
        → (((u == start) ≡ false) × (member u seen ≡ true)) ⊎ (owed v u frames ≡ true)

    settled-pop :
        (seen : List ℕ) (w : ℕ) (frames : Frames)
        → IsSettled seen ((w, []) ∷ frames)
        → IsSettled seen frames
    settled-pop seen w frames h v u a b = ground (arith, h v u a b)

    settled-skip :
        (seen : List ℕ) (w x : ℕ) (left : List ℕ) (frames : Frames)
        → (x == start) ≡ false
        → member x seen ≡ true
        → IsSettled seen ((w, x ∷ left) ∷ frames)
        → IsSettled seen ((w, left) ∷ frames)
    settled-skip seen w x left frames on old h v u a b = ground (arith, h v u a b)

    settled-enter :
        (seen : List ℕ) (w x : ℕ) (left : List ℕ) (frames : Frames)
        → (x == start) ≡ false
        → IsSettled seen ((w, x ∷ left) ∷ frames)
        → IsSettled (x ∷ seen) ((x, children adj members x) ∷ (w, left) ∷ frames)
    settled-enter seen w x left frames on h v u a b = elim (Bool-cases (v == x)) [
      | inl same ↦ inr (ground (arith, b))
      | inr other ↦ ground (arith, h v u (ground arith) b)
    ]

    record IsStack (seen : List ℕ) (frames : Frames) : Type 0 where
      chain : Chain adj members start frames
      distinct : Distinct (nodes_of frames)
      in_seen : All (λ x. member x seen ≡ true) (nodes_of frames)
      rooted : member start seen ≡ true
      settled : IsSettled seen frames

    -- Everything that the start leads to is seen, and does not lead back.
    abbrev IsOver : Type 0
    IsOver = (seen : List ℕ) × (member start seen ≡ true) × IsSettled seen []

    -- No cycle, or one that starts at `start` and comes back to it, with no node twice.
    abbrev IsSimple : List ℕ → Type 0
    IsSimple c =
        ((c ≡ []) × IsOver)
        ⊎ (((more : List ℕ) × (c ≡ start ∷ more))
            × Distinct c
            × IsWalk adj members (c ++ start ∷ []))

    abbrev Gives : Option (List ℕ) → Type 0
    Gives o = (c : List ℕ) × (o ≡ some c) × IsSimple c

    closed :
        (v : ℕ) (left : List ℕ) (frames : Frames)
        → IsEdge adj members v start
        → Below adj members start v frames
        → Chain adj members start frames
        → Distinct (nodes_of ((v, left) ∷ frames))
        → IsSimple (path_onto ((v, left) ∷ frames) [])
    closed v left frames edge below chain distinct =
        let (walks, again) =
          path_onto-IsWalk adj members start frames v (start ∷ []) below chain (edge, tt) in
        let (walks', first) = path_onto-IsWalk adj members start frames v [] below chain tt in
        inr (
          first,
          path_onto-Distinct ((v, left) ∷ frames) [] distinct tt
              (apart_nil (nodes_of ((v, left) ∷ frames))),
          subst (IsWalk adj members) (path_onto-append frames (v ∷ []) (start ∷ [])) walks,
        )

    children_are_edges :
        (v : ℕ) (us : List ℕ)
        → All (λ u. member u (children adj members v) ≡ true) us
        → All (IsEdge adj members v) us
    children_are_edges v us h =
        All-imp (λ u. member u (children adj members v) ≡ true) (IsEdge adj members v) us
          (children-IsEdge adj members v) h

    walk-Gives :
        (n : ℕ) (seen : List ℕ) (frames : Frames)
        → IsStack seen frames
        → frames_cost frames + unseen_cost seen members < n
        → Gives (walk adj members start n seen frames)
    unfolding walk
    walk-Gives zero seen frames s enough = ground arith
    walk-Gives (suc n) seen [] s enough = ([], refl, inl (refl, (seen, s.rooted, s.settled)))
    walk-Gives (suc n) seen ((v, []) ∷ frames) s enough =
        walk-Gives n seen frames
          (record {
            chain = s.chain.2;
            distinct = s.distinct.1;
            in_seen = s.in_seen.1;
            rooted = s.rooted;
            settled = settled-pop seen v frames s.settled;
          })
          (omega arith)
    walk-Gives (suc n) seen ((v, u ∷ left) ∷ frames) s enough =
        let edge = s.chain.0.0 in
        let chain : Chain adj members start ((v, left) ∷ frames) =
          (s.chain.0.1, s.chain.1, s.chain.2) in
        elim (Bool-cases (u == start)) [
          | inl back ↦ rw back (
            _,
            refl,
            closed v left frames (subst (IsEdge adj members v) (ground arith) edge) s.chain.1
                s.chain.2 s.distinct,
          )
          | inr on ↦ elim (Bool-cases (member u seen)) [
            | inl old ↦
                rw (on, old)
                  (walk-Gives n seen ((v, left) ∷ frames)
                    (record {
                      chain = chain;
                      distinct = s.distinct;
                      in_seen = s.in_seen;
                      rooted = s.rooted;
                      settled = settled-skip seen v u left frames on old s.settled;
                    })
                    (omega arith))
            | inr new ↦
                rw (on, new)
                  (walk-Gives n (u ∷ seen) ((u, children adj members u) ∷ (v, left) ∷ frames)
                    (record {
                      chain = (
                        children_are_edges u (children adj members u)
                            (each_member (children adj members u)),
                        edge,
                        chain,
                      );
                      distinct =
                          (unseen-absent u seen (v ∷ nodes_of frames) new s.in_seen, s.distinct);
                      in_seen = (ground arith, seen_more u seen (v ∷ nodes_of frames) s.in_seen);
                      rooted = ground (arith, s.rooted);
                      settled = settled-enter seen v u left frames on s.settled;
                    })
                    (omega (arith, unseen_cost-enter u seen members edge.0 new)))
          ]
        ]

    no_way_back :
        (seen : List ℕ) (v : ℕ) (us : List ℕ)
        → IsSettled seen []
        → member v seen ≡ true
        → ¬ IsWalk adj members (v ∷ us ++ start ∷ [])
    no_way_back seen v [] h here walks =
        ground (arith, h v start here (IsEdge-children adj members v start walks.0))
    no_way_back seen v (u ∷ us) h here walks =
        elim (h v u here (IsEdge-children adj members v u walks.0)) [
          | inl (other, there) ↦ no_way_back seen u us h there walks.1
          | inr never ↦ cc
        ]

-- The nodes of a component, from the least on; a cycle is looked for from the least one.
abbrev pub IsAnswer : Adjacency → List ℕ → List ℕ → Type 0
IsAnswer adj [] c = c ≡ []
IsAnswer adj (v ∷ []) c = c ≡ []
IsAnswer adj (start ∷ v ∷ vs) c =
    ((c ≡ []) × ((us : List ℕ) → ¬ IsWalk adj (start ∷ v ∷ vs) (start ∷ us ++ start ∷ [])))
    ⊎ (((more : List ℕ) × (c ≡ start ∷ more))
        × Distinct c
        × IsWalk adj (start ∷ v ∷ vs) (c ++ start ∷ []))

cycle_in-IsAnswer :
    (adj : Adjacency) (members : List ℕ)
    → (c : List ℕ) × (cycle_in adj members ≡ some c) × IsAnswer adj members c
cycle_in-IsAnswer adj [] = ([], refl, refl)
cycle_in-IsAnswer adj (v ∷ []) = ([], refl, refl)
cycle_in-IsAnswer adj (start ∷ v ∷ vs) =
    let ms = start ∷ v ∷ vs in
    let kids = children adj ms start in
    let (c, found, simple) =
      walk-Gives adj ms start (suc (cost adj ms ms)) (start ∷ []) ((start, kids) ∷ [])
        (record {
          chain = (children_are_edges adj ms start start kids (each_member kids), refl, tt);
          distinct = (refl, tt);
          in_seen = (ground arith, tt);
          rooted = ground arith;
          settled = λ x u a b. inr (ground (arith, b));
        })
        (omega (
          arith,
          unseen_cost-enter adj ms start [] ms (ground arith) refl,
          unseen_cost-all adj ms,
        )) in
    (
      c,
      found,
      elim simple [
        | inl (empty, (seen, here, settled)) ↦
            inl (empty, λ us. no_way_back adj ms start seen start us settled here)
        | inr cycle ↦ inr cycle
      ],
    )

-- `find_cycle` ends, and with fewer than two nodes in the component gives nothing. Else it gives a cycle
-- through the least node: it starts there, has no node twice, and each node has an edge to the next and
-- the last one to the first, all in the component. It gives nothing only if no walk in the component
-- leads from the least node back to it.
pub find_cycle-IsAnswer :
    (adj : Adjacency) (component : List ℕ)
    → (c : List ℕ) × (find_cycle adj component ≡ some c) × IsAnswer adj (sorted_set component) c
unfolding find_cycle
find_cycle-IsAnswer adj component = cycle_in-IsAnswer adj (sorted_set component)
