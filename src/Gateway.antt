-- ===== src/Gateway.antt =====
-- The router between a direct PTY and an embedded tmux control stream (src/tmux_gateway.rs).
pub mod Router
pub mod Iteration
pub mod Rounds
pub mod Items
pub mod Streaming
pub mod Lifecycle
pub mod Contract
pub mod Totality
pub mod Transparency
pub mod Detection
pub mod Shutdown
