-- ===== src/Ipc.antt =====
-- include/arbitrage/ipc: the structures that two processes share in a memory segment.
pub mod Header
pub mod Spsc
pub mod OrderChannel
pub mod Ring
pub mod Latest
