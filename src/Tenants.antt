-- ===== src/Tenants.antt =====
-- backend/src/app/tenants: the owner door and the visitor door.
pub mod Contexts
pub mod WidgetKeys
pub mod RateLimit
pub mod Gate
pub mod OwnerAuth
pub mod WidgetRouter
pub mod Router
