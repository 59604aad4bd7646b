-- ===== src/Zones/Exclusion.antt =====
-- Who may hold one zone at the same time.
use amr_fleet_system.Prelude.{
  ℕ, ℤ, ◌+ℤ◌, ◌*ℤ◌, ltb_ℤ, Bool, true, false, not, ◌&&◌, ◌||◌, ◌==◌, ◌≡◌, refl, ◌≢◌, sym, ap, subst,
  ◌∙◌, inl, inr, none, some, List, [], ◌∷◌, All, All-imp, arith, Bool-cases, if◌then◌else◌,
}
use amr_fleet_system.Prelude.Dict.{Dict, lookup, insert, lookup-insert}
use amr_fleet_system.Zones.{
  Direction, Holders, without, holders_in, held, alike, all_alike, is_empty, follows, compatible,
  put, put_all, direction_in,
}

-- Two robots in one zone: it is one that is followed through, and they go the same way.
abbrev pub Together : Dict Bool → ℤ → ℕ → Direction → Direction → Type 0
Together same_dir cos zone d e = (follows zone same_dir ≡ true) × (alike cos d e ≡ true)

abbrev pub IsExclusive : Dict Bool → ℤ → Holders → Type 0
IsExclusive same_dir cos hs =
    (zone r s : ℕ) (d e : Direction)
    → held zone r hs ≡ some d
    → held zone s hs ≡ some e
    → r ≢ s
    → Together same_dir cos zone d e

mul_comm : (a b : ℤ) → a *ℤ b ≡ b *ℤ a
unfolding ◌*ℤ◌
mul_comm a b = grind arith

alike_sym : (cos : ℤ) (d e : Direction) → alike cos d e ≡ true → alike cos e d ≡ true
alike_sym cos none none h = h
alike_sym cos none (some b) h = cc
alike_sym cos (some a) none h = cc
alike_sym cos (some a) (some b) h =
    subst (λ x. not (ltb_ℤ x cos) ≡ true)
      (ap (λ x. x +ℤ a.1 *ℤ b.1) (mul_comm a.0 b.0) ∙ ap (λ x. b.0 *ℤ a.0 +ℤ x) (mul_comm a.1 b.1))
      h

pub lookup-without : (k j : ℕ) (d : Dict Direction) → k ≢ j → lookup j (without k d) ≡ lookup j d
lookup-without k j [] h = refl
lookup-without k j ((i, x) ∷ d) h = ground (arith, lookup-without k j d h)

without-insert :
    (k : ℕ) (e : Direction) (d : Dict Direction) → without k (insert k e d) ≡ without k d
without-insert k e [] = ground arith
without-insert k e ((i, x) ∷ d) = ground (arith, without-insert k e d)

all_alike-lookup :
    (cos : ℤ) (k : ℕ) (d e : Direction) (others : Dict Direction)
    → all_alike cos others e ≡ true
    → lookup k others ≡ some d
    → alike cos d e ≡ true
all_alike-lookup cos k d e [] h found = cc
all_alike-lookup cos k d e ((i, x) ∷ others) h found =
    ground (arith, all_alike-lookup cos k d e others)

pub held-put :
    (z k zone robot : ℕ) (e : Direction) (hs : Holders)
    → held z k (put zone robot e hs)
      ≡ (if z == zone then (if k == robot then some e else held z k hs) else held z k hs)
held-put z k zone robot e hs = ground (
  arith,
  lookup-insert z zone (insert robot e (holders_in zone hs)) hs,
  lookup-insert k robot e (holders_in zone hs),
)

not_empty :
    (k : ℕ) (d : Direction) (others : Dict Direction)
    → lookup k others ≡ some d
    → is_empty others ≡ false
not_empty k d [] found = cc
not_empty k d (o ∷ os) found = refl

and_true : (a b : Bool) → (a && b) ≡ true → (a ≡ true) × (b ≡ true)
and_true a b h = ground arith

compatible-Together :
    (same_dir : Dict Bool) (cos : ℤ) (hs : Holders) (zone robot k : ℕ) (d e : Direction)
    → compatible same_dir cos hs zone robot e ≡ true
    → held zone k hs ≡ some d
    → robot ≢ k
    → Together same_dir cos zone d e
unfolding compatible
compatible-Together same_dir cos hs zone robot k d e ok found ne =
    let others = without robot (holders_in zone hs) in
    let there : lookup k others ≡ some d = lookup-without robot k (holders_in zone hs) ne ∙ found in
    let (same, way) = and_true (follows zone same_dir) (all_alike cos others e) (
      subst (λ b. (b || (follows zone same_dir && all_alike cos others e)) ≡ true)
        (not_empty k d others there) ok) in
    (same, all_alike-lookup cos k d e others way there)

module _ (same_dir : Dict Bool) (cos : ℤ) where
  -- Fewer tokens are no conflict.
  pub fewer-IsExclusive :
      (hs hs' : Holders)
      → ((z r : ℕ) (d : Direction) → held z r hs' ≡ some d → held z r hs ≡ some d)
      → IsExclusive same_dir cos hs
      → IsExclusive same_dir cos hs'
  fewer-IsExclusive hs hs' fewer h z r s d e at_r at_s ne =
      h z r s d e (fewer z r d at_r) (fewer z s e at_s) ne

  pub put-IsExclusive :
      (hs : Holders) (zone robot : ℕ) (e : Direction)
      → compatible same_dir cos hs zone robot e ≡ true
      → IsExclusive same_dir cos hs
      → IsExclusive same_dir cos (put zone robot e hs)
  put-IsExclusive hs zone robot e ok h z r s d f at_r at_s ne =
      let old_r = sym (held-put z r zone robot e hs) ∙ at_r in
      let old_s = sym (held-put z s zone robot e hs) ∙ at_s in
      elim (Bool-cases (z == zone)) [
        | inr other ↦ h z r s d f (rw other at old_r) (rw other at old_s) ne
        | inl here ↦ elim (Bool-cases (r == robot)) [
          | inl new_r ↦ elim (Bool-cases (s == robot)) [
            | inl new_s ↦ absurd (ne (ground arith))
            | inr old ↦
                let same_zone : zone ≡ z = ground arith in
                let is_e : e ≡ d = ground arith in
                let (same, way) =
                  compatible-Together same_dir cos hs zone robot s f e ok (ground arith)
                    (ground arith) in
                subst (λ w. Together same_dir cos w d f) same_zone
                  (subst (λ x. Together same_dir cos zone x f) is_e (same, alike_sym cos f e way))
          ]
          | inr old ↦ elim (Bool-cases (s == robot)) [
            | inl new_s ↦
                let same_zone : zone ≡ z = ground arith in
                let is_e : e ≡ f = ground arith in
                subst (λ w. Together same_dir cos w d f) same_zone
                  (subst (λ x. Together same_dir cos zone d x) is_e
                    (compatible-Together same_dir cos hs zone robot r d e ok (ground arith)
                      (ground arith)))
            | inr old' ↦ h z r s d f (rw (here, old) at old_r) (rw (here, old') at old_s) ne
          ]
        ]
      ]

  compatible-put :
      (hs : Holders) (z zone robot : ℕ) (d e : Direction)
      → compatible same_dir cos (put zone robot e hs) z robot d
        ≡ compatible same_dir cos hs z robot d
  unfolding compatible
  compatible-put hs z zone robot d e =
      let others : without robot (holders_in z (put zone robot e hs))
          ≡ without robot (holders_in z hs) =
        ground (
          arith,
          lookup-insert z zone (insert robot e (holders_in zone hs)) hs,
          without-insert robot e (holders_in zone hs),
        ) in
      ap (λ o. is_empty o || (follows z same_dir && all_alike cos o d)) others

  -- A batch of zones that are all compatible before.
  pub put_all-IsExclusive :
      (zones : List ℕ) (robot : ℕ) (ds : Dict Direction) (hs : Holders)
      → All (λ z. compatible same_dir cos hs z robot (direction_in z ds) ≡ true) zones
      → IsExclusive same_dir cos hs
      → IsExclusive same_dir cos (put_all zones robot ds hs)
  put_all-IsExclusive [] robot ds hs ok h = h
  put_all-IsExclusive (z ∷ zs) robot ds hs ok h =
      put_all-IsExclusive zs robot ds (put z robot (direction_in z ds) hs)
        (All-imp (λ x. compatible same_dir cos hs x robot (direction_in x ds) ≡ true)
          (λ x.
            compatible same_dir cos (put z robot (direction_in z ds) hs) x robot (direction_in x ds)
            ≡ true)
          zs (λ x fits. compatible-put hs x z robot (direction_in x ds) (direction_in z ds) ∙ fits)
          ok.1)
        (put-IsExclusive hs z robot (direction_in z ds) ok.0 h)

  -- A zone that is entered in the table without a robot.
  pub setdefault-IsExclusive :
      (hs : Holders) (zone : ℕ)
      → IsExclusive same_dir cos hs
      → IsExclusive same_dir cos (insert zone (holders_in zone hs) hs)
  setdefault-IsExclusive hs zone h =
      fewer-IsExclusive hs (insert zone (holders_in zone hs) hs)
        (λ z r d at_r. ground (arith, lookup-insert z zone (holders_in zone hs) hs)) h
