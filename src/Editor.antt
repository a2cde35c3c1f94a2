-- ===== src/Editor.antt =====
-- The line editor of the command prompt (src/line_editor.rs).
pub mod Text
pub mod History
pub mod Input
pub mod Boundaries
pub mod Edits
pub mod Recall
pub mod Draft
