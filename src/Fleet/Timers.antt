-- ===== src/Fleet/Timers.antt =====
-- The callbacks of requests and timers keep the agreement of robots and calls.
use amr_fleet_system.Prelude.{
  ℕ, ltb_ℤ, Bool, true, false, not, ◌||◌, ◌≡◌, refl, sym, subst, inl, inr, Option, none, some, List,
  [], ◌∷◌, Bool-cases, Option-cases, if◌then◌else◌,
}
use amr_fleet_system.Prelude.Dict.{lookup}
use amr_fleet_system.TaskState.{Machine, TaskRecord, check_deadlines, counts}
use amr_fleet_system.Kpi.{KpiTracker, snapshot}
use amr_fleet_system.Latency
use amr_fleet_system.Latency.{DelayQueue}
use amr_fleet_system.Fleet.State.{
  Dispatch, Fleet, World, ◌>>=◌, set_robot, skip, modify, gets, robot_at, guarded, warn,
  deadline_missed_alert,
}
use amr_fleet_system.Fleet.Rounds.{is_none, abort_dispatch, allocate_round, send}
use amr_fleet_system.Fleet.Callbacks.{
  reject_task, request_batch_allocation, Request, invalid, valid, on_task_request,
  handle_assign_task, on_outbox_timer, on_batch_timer, denies, check_unanswered, check_found,
  check_timeout, check_dispatch_timeouts, on_allocation_timer, call_lost, task_lost, lose_robot,
  check_robot, check_task, check_deadline_alerts, check_liveness, check_overdue, on_status_timer,
  on_traffic_event, same_call, is_answered,
}
use amr_fleet_system.Fleet.Calls.{Agree, Agree-rewrite}
use amr_fleet_system.Fleet.Keeping.{
  Holds, bind-Keeps, gets-Keeps, pure-Keeps, modify-Keeps, keeping, alert-Keeps, each-Keeps,
  guarded-Holds,
}
use amr_fleet_system.Fleet.Agreement.{allocate_round-Keeps}
use amr_fleet_system.Fleet.Handlers.{
  KeepsCalls, written, aborted, sent, kpi_robot-Keeps, fail_task-Keeps, admit-Keeps,
}

reject_task-Keeps : (task : ℕ) → KeepsCalls (reject_task task)
reject_task-Keeps task = search keeping

request_batch-Keeps : (w : World) → KeepsCalls (request_batch_allocation w)
unfolding request_batch_allocation
request_batch-Keeps w = search (keeping, allocate_round-Keeps) depth 12

pub on_task_request-Keeps : (w : World) (r : Request) → KeepsCalls (on_task_request w r)
unfolding on_task_request
on_task_request-Keeps w (invalid task) = reject_task-Keeps task
on_task_request-Keeps w (valid spec) =
    search (keeping, reject_task-Keeps, admit-Keeps, request_batch-Keeps) depth 12

pub handle_assign_task-Keeps : (w : World) (r : Request) → KeepsCalls (handle_assign_task w r)
unfolding handle_assign_task
handle_assign_task-Keeps w (invalid task) = search (keeping, reject_task-Keeps)
handle_assign_task-Keeps w (valid spec) =
    search (keeping, reject_task-Keeps, admit-Keeps, allocate_round-Keeps) depth 16

popped :
    {A : Type 0} (g : Fleet → A × DelayQueue ℕ)
    → KeepsCalls (λ f. (some (g f).0, record f { outbox = (g f).1 }))
popped g = record { kept = λ f h. h }

window_popped :
    {A : Type 0} (g : Fleet → A × DelayQueue ℕ)
    → KeepsCalls (λ f. (some (g f).0, record f { batch_trigger = (g f).1 }))
window_popped g = record { kept = λ f h. h }

released : (w : World) (task : ℕ) → KeepsCalls (modify (guarded (send (allocate_round w) w task)))
released w task =
    modify-Keeps _ (λ f h. guarded-Holds (send (allocate_round w) w task) f (sent w task) h)

opened : (w : World) → KeepsCalls (modify (guarded (allocate_round w)))
opened w = modify-Keeps _ (λ f h. guarded-Holds (allocate_round w) f (allocate_round-Keeps w) h)

pub on_outbox_timer-Keeps : (w : World) → KeepsCalls (on_outbox_timer w)
unfolding on_outbox_timer
on_outbox_timer-Keeps w =
    bind-Keeps (popped (λ f. Latency.pop_ready w.now f.outbox))
      (λ tasks. each-Keeps _ tasks (released w))

pub on_batch_timer-Keeps : (w : World) → KeepsCalls (on_batch_timer w)
unfolding on_batch_timer
on_batch_timer-Keeps w =
    bind-Keeps (window_popped (λ f. Latency.pop_ready w.now f.batch_trigger))
      (λ items. each-Keeps _ items (λ item. opened w))

check_unanswered-Holds :
    (w : World) (task : ℕ) (d : Dispatch) (f : Fleet)
    → lookup task f.inflight ≡ some d
    → Holds Agree f
    → Holds Agree (check_unanswered w task d f).1
unfolding check_unanswered
check_unanswered-Holds w task d f found h = elim (Bool-cases d.unconfirmed) [
  | inr new ↦ simp new (Agree-rewrite task d _ f.robots f.inflight found refl h)
  | inl old ↦ simp old ((waits w task d).kept f h)
]
  where
    waits :
        (w : World) (task : ℕ) (d : Dispatch)
        → KeepsCalls (do
          r ← robot_at d.robot_id
          reconcile ← gets (λ f. f.params.assign_reconcile)
          if denies reconcile task d r
              then abort_dispatch (allocate_round w) w task d.robot_id
              else skip)
    waits w task d = search (keeping, aborted)

check_found-Holds :
    (w : World) (task : ℕ) (old d : Dispatch) (f : Fleet)
    → lookup task f.inflight ≡ some d
    → Holds Agree f
    → Holds Agree (check_found w task old (some d) f).1
unfolding check_found
check_found-Holds w task old d f found h =
    elim (Bool-cases (not (same_call old (some d)) || not (ltb_ℤ d.timeout_at w.now))) [
      | inl early ↦ simp early h
      | inr late ↦ elim (Bool-cases (is_none d.future)) [
        | inl unsent ↦ simp (late, unsent) ((aborted w task d.robot_id).kept f h)
        | inr out ↦ elim (Bool-cases (is_answered w d.future)) [
          | inl done ↦ simp (late, out, done) h
          | inr open_call ↦ simp (late, out, open_call) (check_unanswered-Holds w task d f found h)
        ]
      ]
    ]

check_timeout-Keeps : (w : World) (entry : ℕ × Dispatch) → KeepsCalls (check_timeout w entry)
unfolding check_timeout
check_timeout-Keeps w (task, old) = record {
  kept = λ f h. elim (Option-cases (lookup task f.inflight)) [
    | inl e ↦
        subst (λ o. Holds Agree (check_found w task old o f).1) (sym e) (unfold check_found in h)
    | inr (d, e) ↦
        subst (λ o. Holds Agree (check_found w task old o f).1) (sym e)
          (check_found-Holds w task old d f e h)
  ];
}

check_timeouts-Keeps : (w : World) → KeepsCalls (check_dispatch_timeouts w)
unfolding check_dispatch_timeouts
check_timeouts-Keeps w =
    bind-Keeps (gets-Keeps _) (λ calls. each-Keeps (check_timeout w) calls (check_timeout-Keeps w))

pub on_allocation_timer-Keeps : (w : World) → KeepsCalls (on_allocation_timer w)
unfolding on_allocation_timer
on_allocation_timer-Keeps w = search (keeping, check_timeouts-Keeps, allocate_round-Keeps)

call_lost-Keeps : (w : World) (robot : ℕ) (o : Option ℕ) → KeepsCalls (call_lost w robot o)
unfolding call_lost
call_lost-Keeps w robot none = pure-Keeps tt
call_lost-Keeps w robot (some task) = aborted w task robot

task_lost-Keeps : (w : World) (robot : ℕ) (o : Option TaskRecord) → KeepsCalls (task_lost w robot o)
unfolding task_lost
task_lost-Keeps w robot none = pure-Keeps tt
task_lost-Keeps w robot (some r) = fail_task-Keeps w r.spec.task_id "robot_lost" robot

lost_now : (robot : ℕ) → KeepsCalls (set_robot robot (λ r. record r { lost = true }))
lost_now robot = written robot _ (λ r. refl)

lose_robot-Keeps : (w : World) (robot : ℕ) → KeepsCalls (lose_robot w robot)
unfolding lose_robot
lose_robot-Keeps w robot =
    search (keeping, lost_now, kpi_robot-Keeps, call_lost-Keeps, task_lost-Keeps) depth 16

check_robot-Keeps : (w : World) (robot : ℕ) → KeepsCalls (check_robot w robot)
unfolding check_robot
check_robot-Keeps w robot = search (keeping, lose_robot-Keeps)

check_task-Keeps : (w : World) (r : TaskRecord) → KeepsCalls (check_task w r)
unfolding check_task
check_task-Keeps w r = search (keeping, fail_task-Keeps)

missed_read :
    {A : Type 0} (g : Fleet → A × Machine)
    → KeepsCalls (λ f. (some (g f).0, record f { sm = (g f).1 }))
missed_read g = record { kept = λ f h. h }

check_deadline_alerts-Keeps : (w : World) → KeepsCalls (check_deadline_alerts w)
unfolding check_deadline_alerts
check_deadline_alerts-Keeps w =
    bind-Keeps (missed_read (λ f. check_deadlines w.now f.sm)) (λ missed.
      each-Keeps _ missed (λ r. alert-Keeps warn deadline_missed_alert r.robot_id r.spec.task_id))

snapped :
    {A : Type 0} (g : Fleet → A × KpiTracker)
    → KeepsCalls (λ f. (some (g f).0, record f { kpi = (g f).1 }))
snapped g = record { kept = λ f h. h }

check_liveness-Keeps : (w : World) → KeepsCalls (check_liveness w)
unfolding check_liveness
check_liveness-Keeps w =
    bind-Keeps (gets-Keeps _) (λ robots. each-Keeps (check_robot w) robots (check_robot-Keeps w))

check_overdue-Keeps : (w : World) → KeepsCalls (check_overdue w)
unfolding check_overdue
check_overdue-Keeps w =
    bind-Keeps (gets-Keeps _) (λ running. each-Keeps (check_task w) running (check_task-Keeps w))

pub on_status_timer-Keeps : (w : World) → KeepsCalls (on_status_timer w)
unfolding on_status_timer
on_status_timer-Keeps w = bind-Keeps (check_liveness-Keeps w) (λ u.
    bind-Keeps (check_deadline_alerts-Keeps w) (λ v.
      bind-Keeps (check_overdue-Keeps w)
        (λ x. snapped (λ f. snapshot w.now (some (counts f.sm)) f.kpi))))

pub on_traffic_event-Holds :
    (events : List Bool) (f : Fleet) → Holds Agree f → Holds Agree (on_traffic_event events f)
unfolding on_traffic_event
on_traffic_event-Holds [] f h = h
on_traffic_event-Holds (true ∷ events) f h = on_traffic_event-Holds events _ h
on_traffic_event-Holds (false ∷ events) f h = on_traffic_event-Holds events f h
