-- ===== src/Retrieval.antt =====
-- backend/src/app/retrieval/weaviate.py: the vector store, one shard for each tenant.
pub mod Weaviate
