-- ===== src/Edit.antt =====
-- Safe edits of files (omnicode_core/edit).
pub mod Folders
pub mod Lines
pub mod Patch
