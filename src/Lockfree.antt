-- ===== src/Lockfree.antt =====
-- include/arbitrage/common/lockfree_queue.hpp: the queues between the threads of one process.
pub mod Mpsc
pub mod Spsc
pub mod ZeroCopy
