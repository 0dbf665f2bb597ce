-- ===== src/Llm.antt =====
-- internal/llm: the analysis of incidents by retrieved context and language models.
pub mod Result
pub mod Cache
pub mod Analyzer
pub mod Prompt
