-- ===== src/Infra.antt =====
-- src/infra: the TCP server's protocol.
pub mod Frames
pub mod Session
pub mod Receive
pub mod Shutdown
