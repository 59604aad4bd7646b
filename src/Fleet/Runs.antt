-- ===== src/Fleet/Runs.antt =====
-- Whatever callbacks run, in whatever order, no robot is called for two tasks.
use amr_fleet_system.Prelude.{ℕ, ℤ, Bool, ◌≡◌, ap, inl, inr, some, List, [], ◌∷◌, arith, Bool-cases}
use amr_fleet_system.Prelude.Dict.{lookup, contains, insert-IsUnique}
use amr_fleet_system.Task.{Status}
use amr_fleet_system.Fleet.State.{RobotState, Dispatch, Fleet, World, Do, ◌>>◌, skip, guarded}
use amr_fleet_system.Fleet.Reports.{Answer, on_robot_state, on_task_status, on_assign_response}
use amr_fleet_system.Fleet.Callbacks.{
  new_robot, add_robot, Request, on_task_request, handle_assign_task, on_outbox_timer,
  on_batch_timer, on_allocation_timer, on_status_timer, on_traffic_event,
}
use amr_fleet_system.Fleet.Calls.{Agree, call_of, call_of-insert}
use amr_fleet_system.Fleet.Keeping.{Holds, bind-Keeps, pure-Keeps, guarded-Holds}
use amr_fleet_system.Fleet.Handlers.{KeepsCalls, on_assign_response-Keeps}
use amr_fleet_system.Fleet.Events.{on_robot_state-Keeps, on_task_status-Keeps}
use amr_fleet_system.Fleet.Timers.{
  on_task_request-Keeps, handle_assign_task-Keeps, on_outbox_timer-Keeps, on_batch_timer-Keeps,
  on_allocation_timer-Keeps, on_status_timer-Keeps, on_traffic_event-Holds,
}

-- What the node is called for.
pub data Event : Type 0 where
  discovered : (long_ago : ℤ) (robot : ℕ) → Event
  requested : Request → Event
  service_called : Request → Event
  robot_seen : (robot : ℕ) → RobotState → Event
  task_reported : (robot task : ℕ) → Status → Event
  answered : (task robot future : ℕ) → Answer → Event
  outbox_due window_over allocation_due status_due : Event
  traffic : List Bool → Event

-- An exception in a callback is caught, and the node goes on.
abbrev dropped : {A : Type 0} → Do A → Do (Unit {0})
dropped act = act >> skip

abbrev pub handle : World → Event → Fleet → Fleet
handle w (discovered long_ago robot) f = add_robot long_ago robot f
handle w (requested r) f = guarded (on_task_request w r) f
handle w (service_called r) f = guarded (dropped (handle_assign_task w r)) f
handle w (robot_seen robot st) f = guarded (on_robot_state w robot st) f
handle w (task_reported robot task s) f = guarded (on_task_status w robot task s) f
handle w (answered task robot future a) f = guarded (on_assign_response w task robot future a) f
handle w outbox_due f = guarded (on_outbox_timer w) f
handle w window_over f = guarded (on_batch_timer w) f
handle w allocation_due f = guarded (on_allocation_timer w) f
handle w status_due f = guarded (dropped (on_status_timer w)) f
handle w (traffic events) f = on_traffic_event events f

abbrev pub run : List (World × Event) → Fleet → Fleet
run [] f = f
run ((w, e) ∷ es) f = run es (handle w e f)

added-Holds :
    (long_ago : ℤ) (robot : ℕ) (f : Fleet)
    → Holds Agree f
    → Holds Agree (add_robot long_ago robot f)
unfolding add_robot
added-Holds long_ago robot f h = elim (Bool-cases (contains robot f.robots)) [
  | inl known ↦ simp known h
  | inr new ↦ simp new (record {
    robots_unique = insert-IsUnique robot (new_robot long_ago) f.robots h.robots_unique;
    calls_unique = h.calls_unique;
    called = λ t d e.
        ground
          (arith, h.called t d e, call_of-insert d.robot_id robot (new_robot long_ago) f.robots);
  })
]

caught :
    {A : Type 0} (act : Do A) (f : Fleet)
    → KeepsCalls act
    → Holds Agree f
    → Holds Agree (guarded (dropped act) f)
caught act f k h = guarded-Holds (dropped act) f (bind-Keeps k (λ a. pure-Keeps tt)) h

handle-Holds : (w : World) (e : Event) (f : Fleet) → Holds Agree f → Holds Agree (handle w e f)
handle-Holds w (discovered long_ago robot) f h = added-Holds long_ago robot f h
handle-Holds w (requested r) f h =
    guarded-Holds (on_task_request w r) f (on_task_request-Keeps w r) h
handle-Holds w (service_called r) f h =
    caught (handle_assign_task w r) f (handle_assign_task-Keeps w r) h
handle-Holds w (robot_seen robot st) f h =
    guarded-Holds (on_robot_state w robot st) f (on_robot_state-Keeps w robot st) h
handle-Holds w (task_reported robot task s) f h =
    guarded-Holds (on_task_status w robot task s) f (on_task_status-Keeps w robot task s) h
handle-Holds w (answered task robot future a) f h =
    guarded-Holds (on_assign_response w task robot future a) f
      (on_assign_response-Keeps w task robot future a) h
handle-Holds w outbox_due f h = guarded-Holds (on_outbox_timer w) f (on_outbox_timer-Keeps w) h
handle-Holds w window_over f h = guarded-Holds (on_batch_timer w) f (on_batch_timer-Keeps w) h
handle-Holds w allocation_due f h =
    guarded-Holds (on_allocation_timer w) f (on_allocation_timer-Keeps w) h
handle-Holds w status_due f h = caught (on_status_timer w) f (on_status_timer-Keeps w) h
handle-Holds w (traffic events) f h = on_traffic_event-Holds events f h

run-Holds : (es : List (World × Event)) (f : Fleet) → Holds Agree f → Holds Agree (run es f)
run-Holds [] f h = h
run-Holds ((w, e) ∷ es) f h = run-Holds es (handle w e f) (handle-Holds w e f h)

-- A node with no robots and no calls yet.
abbrev pub IsFresh : Fleet → Type 0
IsFresh f = (f.robots ≡ []) × (f.inflight ≡ [])

fresh-Holds : (f : Fleet) → IsFresh f → Holds Agree f
fresh-Holds f (no_robots, no_calls) = record {
  robots_unique = rw no_robots tt;
  calls_unique = rw no_calls tt;
  called = λ t d e. cc (e, ap (lookup t) no_calls);
}

-- Whatever callbacks run on a fresh node, in whatever order and with exceptions in any of them, each call
-- in flight is the one that its robot is reserved for, so that no robot is called for two tasks at once.
pub run-one_call :
    (es : List (World × Event)) (f : Fleet)
    → IsFresh f
    → let g = run es f in
      (t u : ℕ) (d e : Dispatch)
      → lookup t g.inflight ≡ some d
      → lookup u g.inflight ≡ some e
      → (call_of d.robot_id g.robots ≡ some t) × (d.robot_id ≡ e.robot_id → t ≡ u)
run-one_call es f fresh t u d e first second =
    let h = run-Holds es f (fresh-Holds f fresh) in
    (h.called t d first, λ same. cc (h.called t d first, h.called u e second, same))
