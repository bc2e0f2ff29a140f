-- ===== src/Rag.antt =====
-- Retrieval over documents: backend/app/rag/.
pub mod Chunking
pub mod Extraction
