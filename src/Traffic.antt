-- ===== src/Traffic.antt =====
-- src/amr_fleet/amr_fleet/traffic_manager.py: `_crossing_holds` of `TrafficManager`, which stops one of two
-- robots whose ways cross. Lengths are in millimetres.
mod Crossing
mod Composing
mod Watching
pub mod Chains
pub mod Holding
pub mod Pinning
pub mod Commands
pub mod Alerts
pub mod Tests
unfoldable pub use Crossing.*
unfoldable pub use Composing.*
unfoldable pub use Watching.*
