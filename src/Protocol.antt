-- ===== src/Protocol.antt =====
-- The wire protocol, pkg/protocol.
pub mod Frame
pub mod Codec
pub mod Window
pub mod WriteQueue
pub mod Udp
pub mod Stream
pub mod Mux
