-- ===== src/Traffic/Chains.antt =====
-- `_leads_to` finds every node that the chain leads to, and an edge that it allows closes no cycle.
use amr_fleet_system.Prelude.{
  ℕ, zero, suc, ◌≤◌, ◌<◌, true, false, ◌==◌, ◌≡◌, refl, sym, ◌≢◌, ◌⊎◌, inl, inr, none, some, List,
  [], ◌∷◌, length, member, arith, Bool-cases, if_rule, if◌then◌else◌,
}
use amr_fleet_system.Prelude.Dict.{Dict, lookup, insert, lookup-insert}
use amr_fleet_system.Traffic.{walk, leads_to}

-- From a node along the chain to another.
pub data Leads (chain : Dict ℕ) : ℕ → ℕ → Type 0 where
  here : {a : ℕ} → Leads chain a a
  there : {a b c : ℕ} → lookup a chain ≡ some b → Leads chain b c → Leads chain a c

Leads-trans : {chain : Dict ℕ} {a b c : ℕ} → Leads chain a b → Leads chain b c → Leads chain a c
Leads-trans here m = m
Leads-trans (there e l) m = there e (Leads-trans l m)

-- The keys that have not been seen.
unseen : List ℕ → Dict ℕ → ℕ
unseen seen [] = 0
unseen seen ((k, v) ∷ rest) = if member k seen then unseen seen rest else suc (unseen seen rest)

unseen-le-length : (seen : List ℕ) (chain : Dict ℕ) → unseen seen chain ≤ length chain
unfolding unseen
unseen-le-length seen [] = omega arith
unseen-le-length seen ((k, v) ∷ rest) = ground (arith, unseen-le-length seen rest)

unseen_mono :
    (node : ℕ) (seen : List ℕ) (chain : Dict ℕ) → unseen (node ∷ seen) chain ≤ unseen seen chain
unfolding unseen
unseen_mono node seen [] = omega arith
unseen_mono node seen ((k, v) ∷ rest) = ground (arith, unseen_mono node seen rest)

unseen_less :
    (node next : ℕ) (seen : List ℕ) (chain : Dict ℕ)
    → lookup node chain ≡ some next
    → member node seen ≡ false
    → unseen (node ∷ seen) chain < unseen seen chain
unfolding unseen
unseen_less node next seen [] e new = cc
unseen_less node next seen ((k, v) ∷ rest) e new =
    ground (arith, unseen_less node next seen rest, unseen_mono node seen rest)

-- What has been seen is not the target, and leads to what has been seen or to the node.
abbrev IsTrail : List ℕ → Dict ℕ → ℕ → ℕ → Type 0
IsTrail seen chain target node =
    (s : ℕ)
    → member s seen ≡ true
    → (s ≢ target) × ((b : ℕ) → lookup s chain ≡ some b → (member b seen ≡ true) ⊎ (b ≡ node))

-- A trail that has come back to itself never meets the target.
closed_trail :
    {chain : Dict ℕ} (seen : List ℕ) (target node : ℕ) {a : ℕ}
    → IsTrail seen chain target node
    → member node seen ≡ true
    → member a seen ≡ true
    → ¬ Leads chain a target
closed_trail seen target node trail back at here = (trail target at).0 refl
closed_trail seen target node trail back at (there {a} {b} e l) = elim ((trail a at).1 b e) [
  | inl inside ↦ closed_trail seen target node trail back inside l
  | inr same ↦ closed_trail seen target node trail back (rw same back) l
]

Leads-cases :
    {chain : Dict ℕ} {a c : ℕ}
    → Leads chain a c
    → (a ≡ c) ⊎ ((b : ℕ) × (lookup a chain ≡ some b) × Leads chain b c)
Leads-cases here = inl refl
Leads-cases (there e l) = inr (_, e, l)

IsTrail-grows :
    (seen : List ℕ) (chain : Dict ℕ) (target node next : ℕ)
    → IsTrail seen chain target node
    → node ≢ target
    → lookup node chain ≡ some next
    → IsTrail (node ∷ seen) chain target next
IsTrail-grows seen chain target node next trail other e s inside = elim (Bool-cases (s == node)) [
  | inl same ↦ (
    (λ t. other (ground arith)),
    λ b e'. let s_is : s ≡ node = ground arith in inr (ground (arith, s_is)),
  )
  | inr older ↦
      let (apart, on) = trail s (ground arith) in
      (
        apart,
        λ b e'. elim (on b e') [ inl further ↦ inl (ground arith) | inr same ↦ inl (ground arith) ],
      )
]

walk_complete :
    (n : ℕ) (seen : List ℕ) (chain : Dict ℕ) (target node : ℕ)
    → unseen seen chain < n
    → IsTrail seen chain target node
    → Leads chain node target
    → walk n seen chain target node ≡ true
unfolding walk
walk_complete zero seen chain target node fuel trail l = absurd (omega arith)
walk_complete (suc n) seen chain target node fuel trail l =
    if_rule (λ b. b ≡ true) (member node seen) _ _
      (λ back. absurd (closed_trail seen target node trail back back l))
      (λ new.
        if_rule (λ b. b ≡ true) (node == target) _ _ (λ found. refl)
          (λ other. elim (Leads-cases l) [
            | inl same ↦ ground arith
            | inr (next, e, rest) ↦ rw e (
                walk_complete n (node ∷ seen) chain target next
                  (omega (arith, fuel, unseen_less node next seen chain e new))
                  (IsTrail-grows seen chain target node next trail (λ same. ground arith) e) rest)
          ]))

-- What the chain leads to is found: the fuel of the walk is enough.
leads_to_complete :
    (chain : Dict ℕ) (start target : ℕ)
    → Leads chain start target
    → leads_to chain start target ≡ true
unfolding leads_to
leads_to_complete chain start target l =
    walk_complete (suc (length chain)) [] chain target start
      (omega (arith, unseen-le-length [] chain)) (λ s e. absurd cc) l

-- No edge of the chain leads back to where it starts.
abbrev pub IsAcyclic : Dict ℕ → Type 0
IsAcyclic chain = (a b : ℕ) → lookup a chain ≡ some b → ¬ Leads chain b a

-- A way with the new edge is an old one, or comes to the edge and goes on from it.
Leads-insert :
    (chain : Dict ℕ) (y o : ℕ)
    → lookup y chain ≡ none
    → {u v : ℕ} → Leads (insert y o chain) u v
    → Leads chain u v ⊎ (Leads chain u y × Leads chain o v)
Leads-insert chain y o new here = inl here
Leads-insert chain y o new (there {a} {b} e l) = elim (Bool-cases (a == y)) [
  | inl same ↦
      let a_is : a ≡ y = ground arith in
      let b_is : o ≡ b = ground (arith, lookup-insert a y o chain) in
      elim (Leads-insert chain y o new l) [
        | inl old ↦ inr (rw a_is here, rw b_is old)
        | inr (to, on) ↦ inr (rw a_is here, on)
      ]
  | inr other ↦
      let e' : lookup a chain ≡ some b = ground (arith, lookup-insert a y o chain) in
      elim (Leads-insert chain y o new l) [
        | inl old ↦ inl (there e' old)
        | inr (to, on) ↦ inr (there e' to, on)
      ]
]

pub insert-IsAcyclic :
    (chain : Dict ℕ) (y o : ℕ)
    → IsAcyclic chain
    → lookup y chain ≡ none
    → leads_to chain o y ≡ false
    → IsAcyclic (insert y o chain)
insert-IsAcyclic chain y o acyclic new apart a b e l =
    let never : ¬ Leads chain o y = λ m. let found = leads_to_complete chain o y m in absurd cc in
    elim (Bool-cases (a == y)) [
      | inl same ↦
          let a_is : a ≡ y = ground arith in
          let b_is : b ≡ o = ground (arith, lookup-insert a y o chain) in
          elim (Leads-insert chain y o new l) [
            | inl old ↦ never (rw (sym b_is, sym a_is) old)
            | inr (to, on) ↦ never (rw (sym b_is) to)
          ]
      | inr other ↦
          let e' : lookup a chain ≡ some b = ground (arith, lookup-insert a y o chain) in
          elim (Leads-insert chain y o new l) [
            | inl old ↦ acyclic a b e' old
            | inr (to, on) ↦ never (Leads-trans on (there e' to))
          ]
    ]
