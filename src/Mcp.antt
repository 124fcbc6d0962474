-- ===== src/Mcp.antt =====
-- backend/src/app/mcp: the external caller's door.
pub mod Tokens
pub mod Server
pub mod Tests
