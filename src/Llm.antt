-- ===== src/Llm.antt =====
-- backend/pkg/llm: the assembly of a model's stream into content blocks.
pub mod Stream
