-- ===== src/TaskState.antt =====
-- src/amr_fleet/amr_fleet/task_state.py: `TaskStateMachine`, its records, events and log.
mod Types
mod Log
mod Methods
pub mod Validity
pub mod Replay
pub mod Runs
pub mod Attempts
pub mod Outcomes
pub mod LogFiles
pub mod Accounts
pub mod Queries
pub mod Tests
unfoldable pub use Types.*
unfoldable pub use Log.*
unfoldable pub use Methods.*
