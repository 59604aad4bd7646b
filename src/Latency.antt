-- ===== src/Latency.antt =====
-- src/amr_fleet/amr_fleet/latency.py: the delays of messages and `DelayQueue`. Times are exact integers
-- in one unit; the random numbers come from outside.
mod Range
mod Queue
pub mod Fifo
pub mod Delays
pub mod Drain
pub mod Tests
unfoldable pub use Range.*
unfoldable pub use Queue.*
