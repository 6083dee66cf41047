-- ===== src/Protocol/Mux.antt =====
-- pkg/protocol/mux_session.go: many streams over one connection.
pub mod Table
pub mod Session
pub mod Drain
pub mod Loops
pub mod Transfer
pub mod ServiceList
pub mod Handlers
pub mod Run
pub mod Opens
pub mod Resets
