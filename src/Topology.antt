-- ===== src/Topology.antt =====
-- src/tmux_model.rs: the sessions, windows and panes of a connection.
pub mod Maps
pub mod Text
pub mod Outcomes
pub mod Data
pub mod Lexer
pub mod Records
pub mod Inventory
pub mod Bindings
pub mod Replace
pub mod Commands
pub mod Notifications
pub mod Notify
pub mod Coherence
pub mod Queries
pub mod Locations
pub mod Numbers
pub mod Quoting
