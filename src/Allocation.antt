-- ===== src/Allocation.antt =====
-- src/amr_fleet/amr_fleet/allocation.py: which waiting task goes to which free robot. A strategy maps
-- tasks and robots to a dict from task to robot; `hypot` is the math library's, and `divide` the
-- division of floats.
mod Robots
mod Strategies
mod Batch
mod Rounds
mod Evaluation
pub mod Greedy
pub mod Fairness
pub mod Trips
pub mod BatchLimits
pub mod Tests
unfoldable pub use Robots.*
unfoldable pub use Strategies.*
unfoldable pub use Batch.*
unfoldable pub use Rounds.*
unfoldable pub use Evaluation.*
