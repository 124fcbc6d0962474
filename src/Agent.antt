-- ===== src/Agent.antt =====
-- backend/src/app/agent and the retrieval that it calls: the answer with its verdict.
pub mod Schemas
pub mod Service
