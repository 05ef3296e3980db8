-- ===== src/Executor.antt =====
-- src/executor and include/arbitrage/executor: the two legs of an arbitrage, their recovery, and
-- the tracker of the orders on the way.
pub mod ClientId
pub mod Tracker
pub mod Number
pub mod Text
mod Tests
pub mod Dual
pub mod Order
pub mod RecoveryQueue
pub mod Result
pub mod Stats
pub mod Recovery
