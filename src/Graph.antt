-- ===== src/Graph.antt =====
-- The call graph (omnicode_core/graph).
pub mod Impact
pub mod Inheritance
