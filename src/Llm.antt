-- ===== src/Llm.antt =====
-- Language models (omnicode/llm).
pub mod Router
