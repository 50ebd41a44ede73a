-- ===== src/Index.antt =====
-- The incremental index: which files of a folder an index has yet to take in (omnicode_core/index).
pub mod Tracker
