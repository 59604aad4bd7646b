-- ===== src/Deadlock/Waiting.antt =====
-- The wait-for graph over any additions.
use amr_fleet_system.Prelude.{
  ℕ, true, ◌==◌, ◌≡◌, ◌≢◌, ◌⊎◌, sym, subst, inl, inr, some, List, [], ◌∷◌, arith, Bool-cases,
}
use amr_fleet_system.Prelude.Dict.{Dict, lookup, contains, insert, lookup-insert}
use amr_fleet_system.Deadlock.{Reason, Graph, successors_in, add_node, keep_first, add_edge}

-- A robot waits for others only, and each that it waits for is a node.
abbrev pub IsGraph : Graph → Type 0
IsGraph g =
    (src dst : ℕ) (why : Reason)
    → lookup dst (successors_in src g) ≡ some why
    → (src ≢ dst) × (contains dst g ≡ true)

pub data Addition : Type 0 where
  node : ℕ → Addition
  edge : (src dst : ℕ) (why : Reason) → Addition

abbrev pub apply : Addition → Graph → Graph
apply (node n) g = add_node n g
apply (edge src dst why) g = add_edge src dst why g

abbrev pub build : List Addition → Graph → Graph
build [] g = g
build (a ∷ rest) g = build rest (apply a g)

contains-insert :
    (j k : ℕ) (ds : Dict Reason) (g : Graph)
    → contains j g ≡ true
    → contains j (insert k ds g) ≡ true
contains-insert j k ds g has = ground (arith, lookup-insert j k ds g)

add_node-IsGraph : (n : ℕ) (g : Graph) → IsGraph g → IsGraph (add_node n g)
unfolding add_node
add_node-IsGraph n g h src dst why e = elim (Bool-cases (contains n g)) [
  | inl known ↦ rw known (h src dst why (rw known at e))
  | inr new ↦
      let e' : lookup dst (successors_in src (insert n [] g)) ≡ some why = rw new at e in
      let old : lookup dst (successors_in src g) ≡ some why =
        ground (arith, lookup-insert src n [] g) in
      let (ne, there) = h src dst why old in rw new (ne, contains-insert dst n [] g there)
]

add_node-contains : (n : ℕ) (g : Graph) → contains n (add_node n g) ≡ true
unfolding add_node
add_node-contains n g = ground (arith, lookup-insert n n [] g)

keep_first-lookup :
    (dst b : ℕ) (r why : Reason) (ds : Dict Reason)
    → lookup dst (keep_first b r ds) ≡ some why
    → (dst ≡ b) ⊎ (lookup dst ds ≡ some why)
keep_first-lookup dst b r why ds e = elim (Bool-cases (contains b ds)) [
  | inl known ↦ inr (rw known at e)
  | inr new ↦ elim (Bool-cases (dst == b)) [
    | inl same ↦ inl (ground arith)
    | inr other ↦
        let e' : lookup dst (insert b r ds) ≡ some why = rw new at e in
        inr (ground (arith, lookup-insert dst b r ds))
  ]
]

add_edge-IsGraph : (a b : ℕ) (r : Reason) (g : Graph) → IsGraph g → IsGraph (add_edge a b r g)
unfolding add_edge
add_edge-IsGraph a b r g h src dst why e =
    let g' = add_node b g in
    let h' = add_node-IsGraph b g h in
    let ds = keep_first b r (successors_in a g') in
    elim (Bool-cases (a == b)) [
      | inl same ↦ rw same (h' src dst why (rw same at e))
      | inr other ↦
          let e' : lookup dst (successors_in src (insert a ds g')) ≡ some why = rw other at e in
          elim (Bool-cases (src == a)) [
            | inr elsewhere ↦
                let old : lookup dst (successors_in src g') ≡ some why =
                  ground (arith, lookup-insert src a ds g') in
                let (ne, there) = h' src dst why old in
                rw other (ne, contains-insert dst a ds g' there)
            | inl here ↦
                let at_a : src ≡ a = ground arith in
                let kept : lookup dst ds ≡ some why = ground (arith, lookup-insert src a ds g') in
                elim (keep_first-lookup dst b r why (successors_in a g') kept) [
                  | inl is_b ↦
                      let there : contains dst g' ≡ true =
                        subst (λ x. contains x g' ≡ true) (sym is_b) (add_node-contains b g) in
                      rw other (ground arith, contains-insert dst a ds g' there)
                  | inr old ↦
                      let (ne, there) = h' a dst why old in
                      rw other
                        (subst (λ x. x ≢ dst) (sym at_a) ne, contains-insert dst a ds g' there)
                ]
          ]
    ]

apply-IsGraph : (a : Addition) (g : Graph) → IsGraph g → IsGraph (apply a g)
apply-IsGraph (node n) g h = add_node-IsGraph n g h
apply-IsGraph (edge src dst why) g h = add_edge-IsGraph src dst why g h

build_from-IsGraph :
    (additions : List Addition) (g : Graph) → IsGraph g → IsGraph (build additions g)
build_from-IsGraph [] g h = h
build_from-IsGraph (a ∷ rest) g h = build_from-IsGraph rest (apply a g) (apply-IsGraph a g h)

-- However a wait-for graph is built from nothing, no robot in it waits for itself, and each robot that
-- another one waits for is a node.
build-IsGraph : (additions : List Addition) → IsGraph (build additions [])
build-IsGraph additions = build_from-IsGraph additions [] (λ src dst why e. cc)
