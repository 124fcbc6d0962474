-- ===== src/Scripts.antt =====
-- backend/scripts: the seeding of the local stack, the checks of the running doors, and the
-- migrations.
pub mod SeedLocal
pub mod E2eDoors
pub mod ApplyMigrations
