-- ===== src/Fleet/Rounds.antt =====
-- Rounds of allocation, and the calls that they send.
use amr_fleet_system.Prelude.{
  ℕ, zero, suc, ◌+◌, ℤ, pos, ◌+ℤ◌, ◌-ℤ◌, ltb_ℤ, Bool, true, false, not, ◌&&◌, ◌||◌, ◌==◌, Option,
  none, some, List, [], ◌∷◌, ◌++◌, filter, if◌then◌else◌,
}
use amr_fleet_system.Prelude.Dict.{Dict, lookup, contains, insert}
use amr_fleet_system.Task.{TaskSpec}
use amr_fleet_system.TaskState.{active_task_of}
use amr_fleet_system.Scheduler
use amr_fleet_system.Kpi.{status_idle}
use amr_fleet_system.Latency
use amr_fleet_system.Latency.{LatencyModel, sample, enabled}
use amr_fleet_system.Allocation.{RobotInfo, select_batch, allocate}
use amr_fleet_system.Fleet.State.{
  RobotState, Robot, Dispatch, Fleet, World, call_made, call_queued, call_aborted, round_begins, Do,
  raise, gets, ◌>>=◌, ◌>>◌, skip, modify, robot_at, set_robot,
}
use amr_fleet_system.Fleet.Tasks.{has_task, clear_inflight}

abbrev pub is_none : {A : Type 0} → Option A → Bool
is_none none = true
is_none (some a) = false

-- Whether a robot can take a task now, by its last message: a valid position, idle, and nothing to do.
abbrev pub is_free : Robot → RobotState → Bool
is_free r s = not r.lost && is_none r.inflight && s.status == status_idle && s.current_task_id == 0

abbrev pub candidate_of : World → Fleet → ℕ → Robot → List RobotInfo
candidate_of w f robot r = elim r.state [
  | none ↦ []
  | some s ↦ elim s.position [
    | none ↦ []
    | some (x, y) ↦
        if ltb_ℤ f.params.robot_state_timeout (w.now -ℤ r.last_seen)
          || ltb_ℤ w.now r.backoff_until
          || not (is_free r s)
          || has_task (active_task_of robot f.sm)
        then []
        else record { robot_id = robot; x = x; y = y; load = r.load; available = true } ∷ []
  ]
]

abbrev pub candidates_in : World → Fleet → Dict Robot → List RobotInfo
candidates_in w f [] = []
candidates_in w f ((robot, r) ∷ rest) = candidate_of w f robot r ++ candidates_in w f rest

-- `_candidates`
unfoldable pub candidates : World → Fleet → List RobotInfo
candidates w f = candidates_in w f f.robots

-- `_abort_dispatch`: the robot is left out for a while; `then_round` is the `_allocate_round` at its end.
abbrev pub backed_off : World → ℕ → Fleet → Fleet
backed_off w robot f = elim (lookup robot f.robots) [
  | none ↦ f
  | some r ↦ record f {
    robots =
        insert robot
          (record r { backoff_until = w.clock call_aborted f.next_id +ℤ f.params.reject_backoff })
          f.robots;
  }
]

unfoldable pub abort_dispatch : Do (Unit {0}) → World → ℕ → ℕ → Do (Unit {0})
abort_dispatch then_round w task robot = do
  clear_inflight task
  modify (backed_off w robot)
  then_round

-- `self._sent.setdefault(task_id, {})[robot] = time`
abbrev pub sent_to : ℕ → Dict (Dict ℤ) → Dict ℤ
sent_to task sent = elim (lookup task sent) [ none ↦ [] | some robots ↦ robots ]

abbrev pub note_sent : ℕ → Dispatch → Fleet → Fleet
note_sent task d f = record f {
  sent = insert task (insert d.robot_id d.command_time (sent_to task f.sent)) f.sent;
  inflight = insert task (record d { future = some f.next_id }) f.inflight;
  next_id = f.next_id + 1;
}

-- `_send`, for the call that is found: it goes out once, if the robot's service is there.
unfoldable pub send_found : Do (Unit {0}) → World → ℕ → Option Dispatch → Do (Unit {0})
unfolding abort_dispatch
send_found then_round w task none = skip
send_found then_round w task (some d) = if not (is_none d.future) then skip else do
  r ← robot_at d.robot_id
  if not (w.ready d.robot_id)
      then abort_dispatch then_round w task d.robot_id
      else modify (note_sent task d)

unfoldable pub send : Do (Unit {0}) → World → ℕ → Do (Unit {0})
send then_round w task f = send_found then_round w task (lookup task f.inflight) f

-- What `_allocate_round` does while a round is going on: it asks for another one.
abbrev pub request_round : Do (Unit {0})
request_round = modify (λ f. record f { realloc_requested = true })

-- `self._latency.sample()`
abbrev pub drawn : World → Fleet → Option ℤ × LatencyModel
drawn w f =
    let (drop_draw, delay_draw) = w.draws (f.latency.sent + f.latency.dropped) in
    sample w.uniform drop_draw delay_draw f.latency

abbrev pub sampled : World → Do (Option ℤ)
sampled w f = let (delay, latency) = drawn w f in (some delay, record f { latency = latency })

abbrev pub or_zero : Option ℤ → ℤ
or_zero none = pos 0
or_zero (some d) = d

abbrev pub new_dispatch : World → Fleet → ℕ → Option ℤ → Dispatch
new_dispatch w f robot delay = record {
  identity = f.next_id;
  robot_id = robot;
  command_time = w.clock call_made f.next_id;
  timeout_at = w.clock call_made f.next_id +ℤ or_zero delay +ℤ f.params.assign_timeout_s;
  delay_s = delay;
  future = none;
  unconfirmed = false;
}

-- `_dispatch`
unfoldable pub reserve : World → ℕ → ℕ → Option ℤ → Do (Unit {0})
reserve w task robot delay = do
  modify (λ f. record f {
    inflight = insert task (new_dispatch w f robot delay) f.inflight;
    next_id = f.next_id + 1;
  })
  set_robot robot (λ r. record r { inflight = some task })

unfoldable pub deliver : World → ℕ → ℕ → Option ℤ → Do (Unit {0})
deliver w task robot none = skip
deliver w task robot (some delay) = do
  queued ← gets (λ f. enabled f.latency)
  if queued
      then modify (λ f. record f {
        outbox = (Latency.push task (w.clock call_queued f.next_id) delay (some robot) f.outbox).1;
      })
      else send request_round w task

unfoldable pub dispatch : World → ℕ → ℕ → Do (Unit {0})
unfolding reserve deliver
dispatch w task robot = do
  queued ← gets (λ f. contains task f.scheduler.tasks)
  if not queued
      then raise
      else do delay ← sampled w; reserve w task robot delay; deliver w task robot delay

-- `_allocate_once`, without the log of the round
abbrev pub waiting : World → Fleet → List TaskSpec
waiting w f =
    filter (λ t. not (contains t.task_id f.inflight)) (Scheduler.ordered w.now f.scheduler)

abbrev pub chosen : World → Fleet → Dict ℕ
chosen w f =
    (allocate w.strategy
      (select_batch (waiting w f) (candidates w f) f.params.allocation_batch_size)
      (candidates w f)).assignments

unfoldable pub dispatch_all : World → Dict ℕ → Do (Unit {0})
unfolding dispatch
dispatch_all w [] = skip
dispatch_all w ((task, robot) ∷ rest) =
    let more = dispatch_all w rest in dispatch w task robot >> more

-- What a round that begins now sees.
abbrev pub at_round : World → Fleet → World
at_round w f = record w { now = w.clock round_begins f.next_id }

-- With no robot or no task, the batch or the assignments are empty, and nothing is sent.
unfoldable pub allocate_once : World → Do (Unit {0})
unfolding dispatch_all
allocate_once w = do assignments ← gets (λ f. chosen (at_round w f) f); dispatch_all w assignments

-- The `while` of `_allocate_round`, for at most so many rounds.
unfoldable pub rounds : ℕ → World → Do (Unit {0})
rounds zero w = skip
rounds (suc n) w =
    let rest = rounds n w in
    do
      requested ← gets (λ f. f.realloc_requested)
      if not requested
          then skip
          else do modify (λ f. record f { realloc_requested = false }); allocate_once w; rest

-- `finally: self._allocating = False`
abbrev pub finally_idle : Do (Unit {0}) → Do (Unit {0})
finally_idle act f = let (r, f') = act f in (r, record f' { allocating = false })

-- `_allocate_round`
unfoldable pub allocate_round : World → Do (Unit {0})
unfolding rounds
allocate_round w f =
    if f.allocating
    then request_round f
    else finally_idle (rounds w.max_rounds w)
        (record f { allocating = true; realloc_requested = true })
