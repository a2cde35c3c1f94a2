-- ===== src/Control.antt =====
-- The streaming parser of the tmux control protocol (src/tmux_control.rs): its data, the records
-- of the protocol, the parser itself, and the theorems about it.
pub mod Data
pub mod Fields
pub mod Octal
pub mod Records
pub mod Parser
