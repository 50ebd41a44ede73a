-- ===== src/Search.antt =====
-- Semantic search: the chunks of files with their vectors (omnicode/search).
pub mod Faiss
pub mod Vectors
pub mod Metadata
pub mod Prepared
pub mod Engine
pub mod Batch
