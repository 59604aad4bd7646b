-- ===== src/Fleet/Ends.antt =====
-- That the loop of `_allocate_round` ends.
use amr_fleet_system.Prelude.{
  ℕ, zero, suc, ◌≤◌, ◌<◌, ℤ, ◌≤ℤ◌, true, false, ◌≡◌, refl, ◌∙◌, inl, inr, ◌⊎◌, Option, none, some,
  sym, subst, length, List, [], ◌∷◌, All, All-imp, arith, Bool-cases,
}
use amr_fleet_system.Prelude.Dict.{Dict, keys, values, IsUnique}
use amr_fleet_system.Fleet.State.{Fleet, World, round_begins, bind_rule}
use amr_fleet_system.Fleet.Rounds.{
  chosen, dispatch, dispatch_all, allocate_once, rounds, at_round, allocate_round,
}
use amr_fleet_system.Fleet.Candidates.{chosen-is_rested}
use amr_fleet_system.Fleet.Rest.{rested_at, count, count-keys, Kept, Kept-refl}
use amr_fleet_system.Fleet.Sending.{StaysOut, Called, dispatch-Called}

abbrev AllRested : ℤ → Fleet → List ℕ → Type 0
AllRested now f robots = All (λ x. rested_at now x f.robots ≡ true) robots

-- What a round leaves: no robot more is rested, and one less if another round is asked for.
pub record Progress (now : ℤ) (f f' : Fleet) : Type 0 where
  pub params : f'.params ≡ f.params
  pub unique : IsUnique f.robots → IsUnique f'.robots
  pub fewer : count now f'.robots ≤ count now f.robots
  pub step :
      (f'.realloc_requested ≡ f.realloc_requested) ⊎ (count now f'.robots < count now f.robots)

Kept-Progress : (now : ℤ) (f f' : Fleet) → Kept now f f' → Progress now f f'
Kept-Progress now f f' k = record {
  params = k.params;
  unique = k.unique;
  fewer = omega (arith, k.counted);
  step = inl k.requested;
}

module _ (w : World) (last : ℤ) where
  -- Whatever is sent, no robot more is rested afterwards.
  abbrev Fewer : Fleet → Fleet → Type 0
  Fewer f f' =
      (f'.params ≡ f.params)
      × (IsUnique f.robots → IsUnique f'.robots)
      × (count last f'.robots ≤ count last f.robots)

  Called-Fewer : (robot : ℕ) (f g : Fleet) → Called w last robot f g → Fewer f g
  Called-Fewer robot f g (inl k) = (k.params, k.unique, omega (arith, k.counted))
  Called-Fewer robot f g (inr t) = (t.params, t.unique, t.fewer)

  dispatch_all-Fewer :
      (calls : Dict ℕ) (f : Fleet) → StaysOut w last f.params → Fewer f (dispatch_all w calls f).1
  unfolding dispatch_all
  dispatch_all-Fewer [] f wait = (refl, (λ u. u), omega arith)
  dispatch_all-Fewer ((task, robot) ∷ calls) f wait =
      let g = (dispatch w task robot f).1 in
      let (params, unique, fewer) =
        Called-Fewer robot f g (dispatch-Called w last task robot f wait) in
      bind_rule (Fewer f) (dispatch w task robot) (λ _. dispatch_all w calls) f
        (λ e. (params, unique, fewer))
        (λ u e.
          let (params', unique', fewer') = dispatch_all-Fewer calls g (ground (arith, params)) in
          (params' ∙ params, (λ v. unique' (unique v)), omega arith))

  dispatch_all-Progress :
      (calls : Dict ℕ) (f : Fleet)
      → StaysOut w last f.params
      → AllRested last f (values calls)
      → Progress last f (dispatch_all w calls f).1
  unfolding dispatch_all
  dispatch_all-Progress [] f wait rested = Kept-Progress last f f (Kept-refl last f)
  dispatch_all-Progress ((task, robot) ∷ calls) f wait rested =
      let g = (dispatch w task robot f).1 in
      elim (dispatch-Called w last task robot f wait) [
        | inl k ↦
            bind_rule (Progress last f) (dispatch w task robot) (λ _. dispatch_all w calls) f
              (λ e. Kept-Progress last f g k)
              (λ u e. Progress-after f g _ k (
                dispatch_all-Progress calls g (subst (StaysOut w last) (sym k.params) wait) (
                  All-imp (λ x. rested_at last x f.robots ≡ true)
                    (λ x. rested_at last x g.robots ≡ true) (values calls) (λ x h. k.rested x ∙ h)
                    rested.1)))
        | inr t ↦
            bind_rule (Progress last f) (dispatch w task robot) (λ _. dispatch_all w calls) f
              (λ e. Tired-Progress f g t.params t.unique (t.left_out rested.0))
              (λ u e.
                let (params', unique', fewer') =
                  dispatch_all-Fewer calls g (subst (StaysOut w last) (sym t.params) wait) in
                let less = t.left_out rested.0 in
                Tired-Progress f _ (params' ∙ t.params) (λ v. unique' (t.unique v)) (omega arith))
      ]
    where
      Progress-after : (f g h : Fleet) → Kept last f g → Progress last g h → Progress last f h
      Progress-after f g h k p = record {
        params = p.params ∙ k.params;
        unique = λ u. p.unique (k.unique u);
        fewer = omega (arith, k.counted, p.fewer);
        step = elim p.step [
          | inl same ↦ inl (same ∙ k.requested)
          | inr less ↦ inr (omega (arith, k.counted))
        ];
      }

      Tired-Progress :
          (f h : Fleet)
          → h.params ≡ f.params
          → (IsUnique f.robots → IsUnique h.robots)
          → count last h.robots < count last f.robots
          → Progress last f h
      Tired-Progress f h params unique less = record {
        params = params;
        unique = unique;
        fewer = omega arith;
        step = inr less;
      }

  allocate_once-Progress :
      (f : Fleet)
      → ((k : ℕ) → w.clock round_begins k ≤ℤ last)
      → StaysOut w last f.params
      → IsUnique f.robots
      → Progress last f (allocate_once w f).1
  unfolding allocate_once
  allocate_once-Progress f early wait u =
      dispatch_all-Progress (chosen (at_round w f) f) f wait
        (chosen-is_rested (at_round w f) f last (early f.next_id) u)

  -- It is over with an exception, or with no round asked for.
  abbrev Over : Option (Unit {0}) × Fleet → Type 0
  Over (r, g) = (r ≡ none) ⊎ (g.realloc_requested ≡ false)

  rounds-idle : (n : ℕ) (f : Fleet) → f.realloc_requested ≡ false → Over (rounds n w f)
  unfolding rounds
  rounds-idle zero f idle = inr idle
  rounds-idle (suc n) f idle = simp idle (inr refl)

  rounds-Over :
      (n : ℕ) (f : Fleet)
      → ((k : ℕ) → w.clock round_begins k ≤ℤ last)
      → StaysOut w last f.params
      → IsUnique f.robots
      → count last f.robots < n
      → Over (rounds n w f)
  unfolding rounds
  rounds-Over zero f early wait u enough = ground arith
  rounds-Over (suc n) f early wait u enough =
      let g : Fleet = record f { realloc_requested = false } in
      let h = (allocate_once w g).1 in
      let p = allocate_once-Progress g early wait u in
      let rest : Over (rounds n w h) = elim p.step [
        | inl same ↦ rounds-idle n h same
        | inr less ↦
            rounds-Over n h early (subst (StaysOut w last) (sym p.params) wait) (p.unique u)
              (omega arith)
      ] in
      elim (Bool-cases f.realloc_requested) [
        | inr idle ↦ simp idle (inr refl)
        | inl asked ↦ simp asked (go (allocate_once w g).0 (allocate_once w g).1 rest)
      ]
    where
      go :
          (r : Option (Unit {0})) (h : Fleet)
          → Over (rounds n w h)
          → Over (elim r [ none ↦ (none, h) | some a ↦ rounds n w h ])
      go none h rest = inl refl
      go (some a) h rest = rest

  -- A call of `_allocate_round` outside a round ends after at most one round more than there are robots: it
  -- raises, or no further round is asked for. The clock may move in it, as long as no round begins after the
  -- last time, and a robot that is left out in it stays so until after the last time.
  pub allocate_round_ends :
      (f : Fleet)
      → f.allocating ≡ false
      → ((k : ℕ) → w.clock round_begins k ≤ℤ last)
      → StaysOut w last f.params
      → IsUnique f.robots
      → length (keys f.robots) < w.max_rounds
      → ((allocate_round w f).0 ≡ none) ⊎ ((allocate_round w f).1.realloc_requested ≡ false)
  unfolding allocate_round
  allocate_round_ends f idle early wait u enough = rw idle (
      rounds-Over w.max_rounds (record f { allocating = true; realloc_requested = true }) early wait
        u (omega (arith, count-keys last f.robots)))
