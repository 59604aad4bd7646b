-- ===== src/Resolution.antt =====
-- src/amr_fleet/amr_fleet/traffic_resolution.py: `IncidentManager`, which opens an incident for a confirmed
-- deadlock and leads it through the strategies until it is resolved or given up. The numerical work on
-- paths, grids and masks is a parameter, the `Geometry`.
mod Types
mod Passing
mod Strategies
mod Ladder
mod Manager
mod Opening
pub mod Settling
pub mod Falling
pub mod Stepping
pub mod Ways
pub mod Storing
pub mod Sweeping
pub mod Steps
pub mod Opens
pub mod Runs
pub mod Orders
pub mod Rungs
pub mod Climbing
pub mod Refusals
pub mod Tests
unfoldable pub use Types.*
unfoldable pub use Passing.*
unfoldable pub use Strategies.*
unfoldable pub use Ladder.*
unfoldable pub use Manager.*
unfoldable pub use Opening.*
