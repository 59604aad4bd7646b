-- ===== src/Fleet/Sending.antt =====
-- What a call that is sent in a round leaves: it is on its way, or its robot is left out for a while.
use amr_fleet_system.Prelude.{
  ℕ, ◌+◌, ℤ, ◌+ℤ◌, ◌<ℤ◌, true, false, ◌≡◌, refl, sym, subst, inl, inr, ◌⊎◌, Option, none, some,
  arith, Bool-cases, Option-cases,
}
use amr_fleet_system.Prelude.Dict.{lookup, insert, contains, lookup-insert_self, insert-IsUnique}
use amr_fleet_system.Latency.{enabled}
use amr_fleet_system.Fleet.State.{
  Robot, Dispatch, Fleet, World, Params, call_aborted, bind_rule, modify, robot_at, ◌>>◌, set_robot,
}
use amr_fleet_system.Fleet.Tasks.{clear_inflight}
use amr_fleet_system.Fleet.Rounds.{
  request_round, abort_dispatch, backed_off, note_sent, send_found, send, reserve, deliver,
  dispatch, new_dispatch, drawn, sampled,
}
use amr_fleet_system.Fleet.Rest.{
  is_rested, rested_at, count-insert_le, count-insert_lt, Kept, Tired, Kept-refl, Kept-trans,
  Kept-Tired, set_robot-Kept, clear_inflight-Kept,
}

-- A robot that is left out at any moment of the callback stays so until after the last time.
abbrev pub StaysOut : World → ℤ → Params → Type 0
StaysOut w last p = (k : ℕ) → last <ℤ w.clock call_aborted k +ℤ p.reject_backoff

module _ (w : World) (last : ℤ) where
  -- A robot is left out, if it is one, and a round is asked for.
  backed_off-Tired :
      (robot : ℕ) (f : Fleet)
      → StaysOut w last f.params
      → Tired last robot f (record (backed_off w robot f) { realloc_requested = true })
  backed_off-Tired robot f wait = elim (Option-cases (lookup robot f.robots)) [
    | inl e ↦
        rw (e, backed_off)
          (record {
            params = refl;
            requested = refl;
            fewer = omega arith;
            left_out = λ rested. cc;
            unique = λ u. u;
          })
    | inr (r, e) ↦
        let r' : Robot = record r {
          backoff_until = w.clock call_aborted f.next_id +ℤ f.params.reject_backoff;
        } in
        let tired : is_rested last r' ≡ false = ground (arith, wait f.next_id) in
        rw (e, backed_off)
          (record {
            params = refl;
            requested = refl;
            fewer = count-insert_le last robot r r' f.robots e tired;
            left_out = λ rested.
                count-insert_lt last robot r r' f.robots e tired (rw (e, rested_at) at rested);
            unique = insert-IsUnique robot r' f.robots;
          })
  ]

  abbrev pub Called : ℕ → Fleet → Fleet → Type 0
  Called robot f f' = Kept last f f' ⊎ Tired last robot f f'

  abort-Called :
      (task robot : ℕ) (f : Fleet)
      → StaysOut w last f.params
      → Called robot f (abort_dispatch request_round w task robot f).1
  unfolding abort_dispatch
  abort-Called task robot f wait =
      let kept = clear_inflight-Kept last task f in
      let g = (clear_inflight task f).1 in
      let wait' : StaysOut w last g.params = subst (StaysOut w last) (sym kept.params) wait in
      bind_rule (Called robot f) (clear_inflight task)
        (λ _. modify (backed_off w robot) >> request_round) f (λ e. inl kept)
        (λ u e. inr (Kept-Tired last robot f g _ kept (backed_off-Tired robot g wait')))

  note_sent-Kept : (task : ℕ) (d : Dispatch) (f : Fleet) → Kept last f (note_sent task d f)
  note_sent-Kept task d f = record {
    params = refl;
    requested = refl;
    rested = λ k. refl;
    counted = refl;
    unique = λ u. u;
  }

  send_found-Called :
      (task : ℕ) (d : Dispatch) (f : Fleet)
      → StaysOut w last f.params
      → Called d.robot_id f (send_found request_round w task (some d) f).1
  unfolding send_found
  send_found-Called task d f wait = elim (Option-cases d.future) [
    | inr (n, e) ↦ rw e (inl (Kept-refl last f))
    | inl e ↦ elim (Bool-cases (w.ready d.robot_id)) [
      | inl ready ↦
          rw (e, ready)
            (bind_rule (Called d.robot_id f) (robot_at d.robot_id) (λ r. modify (note_sent task d))
              f (λ gone. inl (Kept-refl last f)) (λ r there. inl (note_sent-Kept task d f)))
      | inr missing ↦
          rw (e, missing)
            (bind_rule (Called d.robot_id f) (robot_at d.robot_id)
              (λ r. abort_dispatch request_round w task d.robot_id) f
              (λ gone. inl (Kept-refl last f)) (λ r there. abort-Called task d.robot_id f wait))
    ]
  ]

  send-Called :
      (task : ℕ) (d : Dispatch) (f : Fleet)
      → lookup task f.inflight ≡ some d
      → StaysOut w last f.params
      → Called d.robot_id f (send request_round w task f).1
  unfolding send
  send-Called task d f found wait =
      subst (λ o. Called d.robot_id f (send_found request_round w task o f).1) (sym found)
        (send_found-Called task d f wait)

  reserve-Kept :
      (task robot : ℕ) (delay : Option ℤ) (f : Fleet) → Kept last f (reserve w task robot delay f).1
  unfolding reserve
  reserve-Kept task robot delay f =
      let g : Fleet = record f {
        inflight = insert task (new_dispatch w f robot delay) f.inflight;
        next_id = f.next_id + 1;
      } in
      Kept-trans last f g _
        (record {
          params = refl;
          requested = refl;
          rested = λ k. refl;
          counted = refl;
          unique = λ u. u;
        })
        (set_robot-Kept last robot (λ r. record r { inflight = some task }) g (λ r. refl))

  reserve-found :
      (task robot : ℕ) (delay : Option ℤ) (f : Fleet)
      → lookup task (reserve w task robot delay f).1.inflight ≡ some (new_dispatch w f robot delay)
  unfolding reserve
  reserve-found task robot delay f = elim (Option-cases (lookup robot f.robots)) [
    | inl e ↦ rw (e, set_robot) (lookup-insert_self task (new_dispatch w f robot delay) f.inflight)
    | inr (r, e) ↦
        rw (e, set_robot) (lookup-insert_self task (new_dispatch w f robot delay) f.inflight)
  ]

  deliver-Called :
      (task robot : ℕ) (delay : Option ℤ) (d : Dispatch) (f : Fleet)
      → lookup task f.inflight ≡ some d
      → d.robot_id ≡ robot
      → StaysOut w last f.params
      → Called robot f (deliver w task robot delay f).1
  unfolding deliver
  deliver-Called task robot none d f found same wait = inl (Kept-refl last f)
  deliver-Called task robot (some delay) d f found same wait =
      elim (Bool-cases (enabled f.latency)) [
        | inl queued ↦ rw queued (
            inl (record {
              params = refl;
              requested = refl;
              rested = λ k. refl;
              counted = refl;
              unique = λ u. u;
            }))
        | inr direct ↦ rw direct (
            subst (λ k. Called k f (send request_round w task f).1) same
              (send-Called task d f found wait))
      ]

  Called-trans : (robot : ℕ) (f g h : Fleet) → Kept last f g → Called robot g h → Called robot f h
  Called-trans robot f g h a (inl b) = inl (Kept-trans last f g h a b)
  Called-trans robot f g h a (inr b) = inr (Kept-Tired last robot f g h a b)

  reserved-Called :
      (task robot : ℕ) (delay : Option ℤ) (f : Fleet)
      → StaysOut w last f.params
      → Called robot f ((reserve w task robot delay >> deliver w task robot delay) f).1
  reserved-Called task robot delay f wait =
      let kept = reserve-Kept task robot delay f in
      let g = (reserve w task robot delay f).1 in
      bind_rule (Called robot f) (reserve w task robot delay) (λ _. deliver w task robot delay) f
        (λ e. inl kept)
        (λ u e. Called-trans robot f g _ kept (
          deliver-Called task robot delay (new_dispatch w f robot delay) g
            (reserve-found task robot delay f) refl
            (subst (StaysOut w last) (sym kept.params) wait)))

  -- What a call does to the rest of the robots.
  pub dispatch-Called :
      (task robot : ℕ) (f : Fleet)
      → StaysOut w last f.params
      → Called robot f (dispatch w task robot f).1
  unfolding dispatch
  dispatch-Called task robot f wait = elim (Bool-cases (contains task f.scheduler.tasks)) [
    | inr unknown ↦ rw unknown (inl (Kept-refl last f))
    | inl known ↦
        let g = (sampled w f).1 in
        let same : Kept last f g = record {
          params = refl;
          requested = refl;
          rested = λ k. refl;
          counted = refl;
          unique = λ u. u;
        } in
        rw known (Called-trans robot f g _ same (reserved-Called task robot (drawn w f).0 g wait))
  ]
