-- ===== src/Core.antt =====
-- backend/src/app/core: errors, settings, bearer headers and origins.
pub mod Errors
pub mod Handlers
pub mod Settings
pub mod Bearer
pub mod Origins
pub mod Db
pub mod Logging
pub mod Observability
