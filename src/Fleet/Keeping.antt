-- ===== src/Fleet/Keeping.antt =====
-- Actions that keep a property of the robots and the calls.
use amr_fleet_system.Prelude.{
  ℕ, ℤ, Bool, true, false, ◌≡◌, refl, sym, subst, inl, inr, Option, none, some, List, [], ◌∷◌,
  Bool-cases, Option-cases, if◌then◌else◌,
}
use amr_fleet_system.Prelude.Dict.{lookup}
use amr_fleet_system.TaskState.{Action}
use amr_fleet_system.Fleet.State.{
  Robot, Dispatch, Fleet, World, Do, bind_rule, pure, raise, gets, ◌>>=◌, modify, on_machine, each,
  robot_at, set_robot, alert, Level, AlertName, guarded,
}
use amr_fleet_system.Fleet.Tasks.{clear_inflight}
use amr_fleet_system.Fleet.Rounds.{
  abort_dispatch, backed_off, note_sent, send_found, send, request_round, deliver,
}
use amr_fleet_system.Fleet.Calls.{Property, Closed}

abbrev pub Holds : Property → Fleet → Type 0
Holds Q f = Q f.robots f.inflight

-- Whether it raises or not.
pub record Keeps (Q : Property) {A : Type 0} (act : Do A) : Type 0 where
  pub kept : (f : Fleet) → Holds Q f → Holds Q (act f).1

module _ {Q : Property} where
  pub bind-Keeps :
      {A B : Type 0} {act : Do A} {k : A → Do B}
      → Keeps Q act
      → ((a : A) → Keeps Q (k a))
      → Keeps Q (act >>= k)
  bind-Keeps {A} {B} {act} {k} p q = record { kept = λ f h. go (act f).0 (act f).1 (p.kept f h) }
    where
      go :
          (r : Option A) (g : Fleet)
          → Holds Q g
          → Holds Q (elim r as (λ x. Option B × Fleet) [ none ↦ (none, g) | some a ↦ k a g ]).1
      go none g h = h
      go (some a) g h = (q a).kept g h

  pub if-Keeps :
      {A : Type 0} (b : Bool) {x y : Do A} → Keeps Q x → Keeps Q y → Keeps Q (if b then x else y)
  if-Keeps true p q = p
  if-Keeps false p q = q

  pub pure-Keeps : {A : Type 0} (a : A) → Keeps Q (pure a)
  pure-Keeps a = record { kept = λ f h. h }

  pub raise-Keeps : {A : Type 0} → Keeps Q (raise {A = A})
  raise-Keeps = record { kept = λ f h. h }

  pub gets-Keeps : {A : Type 0} (g : Fleet → A) → Keeps Q (gets g)
  gets-Keeps g = record { kept = λ f h. h }

  pub on_machine-Keeps : {A : Type 0} (act : Action A) → Keeps Q (on_machine act)
  on_machine-Keeps act = record { kept = λ f h. h }

  pub alert-Keeps :
      (level : Level) (name : AlertName) (robot task : ℕ) → Keeps Q (alert level name robot task)
  alert-Keeps level name robot task = record { kept = λ f h. h }

  pub robot_at-Keeps : (robot : ℕ) → Keeps Q (robot_at robot)
  robot_at-Keeps robot = record { kept = λ f h. h }

  pub modify-Keeps :
      (g : Fleet → Fleet) → ((f : Fleet) → Holds Q f → Holds Q (g f)) → Keeps Q (modify g)
  modify-Keeps g h = record { kept = h }

  -- Fields that are neither robots nor calls are written.
  pub request_round-Keeps : Keeps Q request_round
  request_round-Keeps = record { kept = λ f h. h }

  pub each-Keeps :
      {A : Type 0} (body : A → Do (Unit {0})) (xs : List A)
      → ((a : A) → Keeps Q (body a))
      → Keeps Q (each body xs)
  unfolding each
  each-Keeps body [] h = record { kept = λ f p. p }
  each-Keeps body (x ∷ xs) h = bind-Keeps (h x) (λ u. each-Keeps body xs h)

  pub guarded-Holds :
      (act : Do (Unit {0})) (f : Fleet) → Keeps Q act → Holds Q f → Holds Q (guarded act f)
  guarded-Holds act f k h = go (act f).0 (act f).1 (k.kept f h)
    where
      go :
          (r : Option (Unit {0})) (g : Fleet)
          → Holds Q g
          → Holds Q (elim r as (λ x. Fleet) [ some _ ↦ g | none ↦ guarded raise g ])
      go none g h = h
      go (some u) g h = h

pub ruleset keeping = (
  bind-Keeps, if-Keeps, pure-Keeps, gets-Keeps, raise-Keeps, on_machine-Keeps, alert-Keeps,
  robot_at-Keeps, modify-Keeps,
)

module _ {Q : Property} (c : Closed Q) where
  pub set_robot-Keeps :
      (k : ℕ) (g : Robot → Robot)
      → ((r : Robot) → (g r).inflight ≡ r.inflight)
      → Keeps Q (set_robot k g)
  set_robot-Keeps k g same = record {
    kept = λ f h. elim (Option-cases (lookup k f.robots)) [
      | inl e ↦ rw (e, set_robot) h
      | inr (r, e) ↦ rw (e, set_robot) (c.write k r (g r) f.robots f.inflight e (same r) h)
    ];
  }

  pub clear_inflight-Keeps : (task : ℕ) → Keeps Q (clear_inflight task)
  unfolding clear_inflight
  clear_inflight-Keeps task = record {
    kept = λ f h. elim (Option-cases (lookup task f.inflight)) [
      | inl e ↦ rw (e, clear_inflight) h
      | inr (d, e) ↦ elim (Option-cases (lookup d.robot_id f.robots)) [
        | inl gone ↦ rw (e, clear_inflight, gone, set_robot) (c.drop task f.robots f.inflight h)
        | inr (r, at) ↦
            rw (e, clear_inflight, at, set_robot) (c.clear task d r f.robots f.inflight e at h)
      ]
    ];
  }

  backed_off-Holds :
      (w : World) (robot : ℕ) (f : Fleet) → Holds Q f → Holds Q (backed_off w robot f)
  backed_off-Holds w robot f h = elim (Option-cases (lookup robot f.robots)) [
    | inl e ↦ rw (e, backed_off) h
    | inr (r, e) ↦ rw (e, backed_off) (c.write robot r _ f.robots f.inflight e refl h)
  ]

  pub abort_dispatch-Keeps :
      (then_round : Do (Unit {0})) (w : World) (task robot : ℕ)
      → Keeps Q then_round
      → Keeps Q (abort_dispatch then_round w task robot)
  unfolding abort_dispatch
  abort_dispatch-Keeps then_round w task robot next =
      bind-Keeps (clear_inflight-Keeps task)
        (λ u. bind-Keeps (modify-Keeps (backed_off w robot) (backed_off-Holds w robot)) (λ v. next))

  send_found-Keeps :
      (then_round : Do (Unit {0})) (w : World) (task : ℕ) (d : Dispatch) (f : Fleet)
      → Keeps Q then_round
      → lookup task f.inflight ≡ some d
      → Holds Q f
      → Holds Q (send_found then_round w task (some d) f).1
  unfolding send_found
  send_found-Keeps then_round w task d f next found h = elim (Option-cases d.future) [
    | inr (n, e) ↦ rw e h
    | inl e ↦ elim (Bool-cases (w.ready d.robot_id)) [
      | inl ready ↦
          rw (e, ready)
            (bind_rule (Holds Q) (robot_at d.robot_id) (λ r. modify (note_sent task d)) f
              (λ gone. h) (λ r there. c.rewrite task d _ f.robots f.inflight found refl h))
      | inr missing ↦
          rw (e, missing)
            (bind_rule (Holds Q) (robot_at d.robot_id)
              (λ r. abort_dispatch then_round w task d.robot_id) f (λ gone. h)
              (λ r there. (abort_dispatch-Keeps then_round w task d.robot_id next).kept f h))
    ]
  ]

  pub send-Keeps :
      (then_round : Do (Unit {0})) (w : World) (task : ℕ)
      → Keeps Q then_round
      → Keeps Q (send then_round w task)
  unfolding send
  send-Keeps then_round w task next = record {
    kept = λ f h. elim (Option-cases (lookup task f.inflight)) [
      | inl e ↦
          subst (λ o. Holds Q (send_found then_round w task o f).1) (sym e) (unfold send_found in h)
      | inr (d, e) ↦
          subst (λ o. Holds Q (send_found then_round w task o f).1) (sym e)
            (send_found-Keeps then_round w task d f next e h)
    ];
  }

  pub deliver-Keeps :
      (w : World) (task robot : ℕ) (delay : Option ℤ) → Keeps Q (deliver w task robot delay)
  unfolding deliver
  deliver-Keeps w task robot none = search keeping
  deliver-Keeps w task robot (some delay) = search (keeping, request_round-Keeps, send-Keeps)
