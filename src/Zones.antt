-- ===== src/Zones.antt =====
-- src/amr_fleet/amr_fleet/traffic_zones.py: `ZoneTokenManager`, which gives robots the tokens to enter
-- zones. Directions are vectors of exact integers, and the bound on a product of two is one too.
mod Tokens
mod Update
pub mod Exclusion
pub mod Keeping
pub mod Modes
pub mod Safety
pub mod Tests
unfoldable pub use Tokens.*
unfoldable pub use Update.*
