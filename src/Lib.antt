-- ===== src/Lib.antt =====
-- Verification of the fleet management of amr-fleet-system, the Python package
-- src/amr_fleet/amr_fleet.
--
-- The program. A fleet manager receives transport tasks, keeps them in a queue, assigns them in rounds
-- to the robots that are free, sends the assignments over links with simulated delays, and follows each
-- task in a state machine that writes a log. The parts meet as follows: the scheduler orders the
-- waiting task descriptions; `select_batch` takes the tasks of a round from that order and `allocate`
-- assigns them to robots; each assignment waits in a `DelayQueue` until it is sent; the answers of the
-- robots call `start`, `complete`, `fail` and `retry` of `TaskStateMachine`. `KpiTracker` hears of
-- completions and robot states. On the way a robot asks the traffic manager for the zones ahead, and
-- `ZoneTokenManager` decides in cycles who may enter. A deadlock that is confirmed becomes an incident of
-- `IncidentManager`, which sends one robot to a pocket or around; one of two robots whose ways cross
-- outside of the zones yields to the other. `_compose` makes the robots' commands from all of these.
--
-- Files.
--   Task: the task descriptions of task_schema.py (`TaskSpec`, `Pose2D`, the statuses) and
--     `is_deadline_missed` of scheduler.py.
--   TaskState: task_state.py. Types has records, events and the table of allowed transitions; Log the
--     task log and its files; Methods `TaskStateMachine`, whose operations return the state and either
--     a value or an exception, so that an exception thrown half-way keeps what was done before.
--     Replay and Runs are about sequences of calls, Validity about records, Attempts about starts and
--     failures, Outcomes about single calls, LogFiles and Accounts about the log, Queries about what the machine answers.
--   Schema: the checks of task_schema.py, `parse_deadline`, `check_spec` and `from_dict`; Rules and
--     Deadlines are about what they accept.
--   Messages: task_msg.py, the conversion of descriptions to messages and back. Times is about times,
--     RoundTrip about descriptions.
--   Fleet: fleet_manager_node.py, `FleetManagerNode`. State has the node's state and actions on it, Tasks
--     what happens as a task comes in, starts or fails, Rounds the rounds of allocation and the calls,
--     Reports what robots report, Callbacks the requests and timers. Rest, Sending, Candidates and Ends are
--     about the loop of `_allocate_round`; Calls, Keeping, Agreement, Handlers, Events, Timers and Runs
--     about the calls in flight.
--   Scheduler: scheduler.py. Order is about the sort key, Queue about the queue.
--   Allocation: allocation.py. Robots has robots and distances, Strategies the two greedy strategies,
--     Batch `select_batch`, Rounds `allocate`, Evaluation `evaluate_assignment`; Fairness, Greedy,
--     BatchLimits and Trips are about them.
--   Latency: latency.py. Range has the range of delays and `LatencyModel`, Queue `DelayQueue`; Fifo,
--     Drain and Delays are about them.
--   Kpi: kpi.py, `KpiTracker`, and `map_status` of robot_status.py. Window is about the throughput, Busy
--     about the utilization.
--   Zones: traffic_zones.py, `ZoneTokenManager`. Tokens has compatibility and the operations outside of
--     a cycle, Update the five steps of `update`; Exclusion is about sharing a zone, Modes about
--     changes of the set of zones, Safety about all calls, Keeping about the tokens that a cycle leaves with their robots.
--   Deadlock: deadlock.py, `WaitForGraph` and `StallDetector`, `CycleConfirmer` in Confirmer and
--     `find_cycle` in Cycles. Waiting is about the graph, Stalls and Watching about the reports of stalls, Confirming
--     about confirmed candidates, Walks and SimpleCycle about the cycle that is found.
--   Resolution: traffic_resolution.py, `IncidentManager`. Types has the incidents, the view of a cycle and the
--     `Geometry`; Passing the judgements and the extent of the keepout mask; Strategies the begin and the end
--     of a strategy; Ladder `_start_yield`, `_start_alt` and `_next_victim`; Manager `step`, Opening `open` and
--     `commands`. Settling, Falling, Stepping, Ways, Storing, Sweeping and Steps follow a cycle, Opens and Runs all runs;
--     Rungs and Climbing are about the order of the strategies, Orders about the commands, Refusals about the
--     first victim and the cooldown.
--   Traffic: traffic_manager.py. Crossing has `_crossing_holds` and `_leads_to`, Composing `_compose`, Watching
--     `_token_watch`. Chains and Holding are about circles of robots that yield, Pinning about robots that are
--     not to be stopped, Commands about the commands, Alerts about repeated alerts.
--   Prelude: lists, integers, dicts in insertion order, Python's order of tuples, and sorting.
--   A module Tests holds concrete inputs.
--
-- Conventions. Times, distances, weights and priorities are exact integers, each in one fixed unit; the
-- source's floats round, and that is not modelled. Identifiers are numbers; 0 is the empty one where
-- the source tests for it. A dict is a list of keys and values in insertion order. `none` or a value of
-- an error type stands for an exception. Parameters: `hypot` and `divide` for the floating-point
-- functions, `uniform` and the draws of the random generator, the strategy of a round, the disk that
-- takes or refuses a log line, and whether a listener is there. The listener of the state machine, the
-- fleet manager's `_on_task_event`, does not touch the machine, so it runs after the method returns its
-- event. A callback of the fleet manager reads the clock as it begins; a round of allocation reads it anew as
-- it begins and as each of its calls is made, queued and given up, and two such readings of one kind are told
-- apart by the number of calls so far. The `while` of `_allocate_round` runs for at most `max_rounds` rounds, any
-- number; one more than there are robots is enough when a robot that is left out stays so until the last round
-- has begun, since each further round is asked for by a robot that is left out from then on. The `while` of
-- `find_cycle` has as much fuel as there are nodes and edges in the component. Every other loop runs over
-- a list. `_next_victim` and `_start_yield` call each other, on as much fuel as the incident has victims; the
-- result with a pocket or a mask or an end shows that it is enough. Where the source has one incident object in
-- the dictionary and in a variable, the changed incident is written back after its step. In Resolution
-- lengths are in millimetres, and what numpy and scipy compute on paths, grids and trajectories is a
-- parameter, of which nothing is assumed. The `while` of `_leads_to` has one round more than there are links.
--
-- Not modelled. The text of log lines and messages beyond the fields they show; the reading of JSON,
-- YAML and dates, the JSON validator and the regular expressions of task_schema.py; the allocation
-- log, the changes of parameters and the published robot list of the fleet manager; the Hungarian
-- algorithm, the registry of strategies and the measured times in allocation.py; on the traffic side
-- the zone map, the strongly connected components, the search for pockets and the drawing of masks; the
-- rest of the traffic manager's cycle, which is the views, the lost robots and the stalls; the other nodes;
-- the other packages, which are ROS nodes, numerical code on numpy, C++ plugins, launch files and
-- generators.
pub mod Prelude
pub mod Task
pub mod Schema
pub mod Messages
pub mod TaskState
pub mod Scheduler
pub mod Allocation
pub mod Latency
pub mod Kpi
pub mod Zones
pub mod Deadlock
pub mod Fleet
pub mod Resolution
pub mod Traffic
