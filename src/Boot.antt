-- ===== src/Boot.antt =====
-- The boot package: the life of a service.
pub mod Components
pub mod Lifecycle
pub mod Config
pub mod Remote
pub mod Reload
pub mod Readiness
