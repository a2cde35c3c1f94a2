-- ===== src/Hierarchy.antt =====
-- The ownership of nested tmux connections (src/tmux_lifecycle.rs).
pub mod Origins
pub mod Connections
pub mod Depth
pub mod Insertion
pub mod Keys
pub mod Descent
pub mod Removal
pub mod Roots
