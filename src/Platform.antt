-- ===== src/Platform.antt =====
-- internal/platform.
pub mod Migrations
pub mod Observability
