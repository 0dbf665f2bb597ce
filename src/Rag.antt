-- ===== src/Rag.antt =====
-- internal/rag: documents, their chunks, and the retrieval engine.
pub mod Document
pub mod Chunks
pub mod Engine
pub mod Embedder
pub mod Loader
