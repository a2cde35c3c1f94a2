-- ===== src/Clipboard.antt =====
-- The internal clipboard ring and the writes for the terminal's clipboard (src/clipboard.rs).
pub mod Ring
pub mod Base64
pub mod Names
pub mod System
