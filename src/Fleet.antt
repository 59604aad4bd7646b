-- ===== src/Fleet.antt =====
-- src/amr_fleet/amr_fleet/fleet_manager_node.py: `FleetManagerNode`, which joins the task state machine,
-- the scheduler, allocation, the delay queue and the indicators. A callback is an action on the node's
-- state that may raise; `guarded` is `_guarded`.
mod State
mod Tasks
mod Rounds
mod Reports
mod Callbacks
pub mod Rest
pub mod Sending
pub mod Candidates
pub mod Ends
pub mod Calls
pub mod Keeping
pub mod Agreement
pub mod Handlers
pub mod Events
pub mod Timers
pub mod Runs
pub mod Tests
unfoldable pub use State.*
unfoldable pub use Tasks.*
unfoldable pub use Rounds.*
unfoldable pub use Reports.*
unfoldable pub use Callbacks.*
