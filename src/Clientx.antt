-- ===== src/Clientx.antt =====
-- The clientx package.
pub mod Grpc
pub mod Transport
pub mod Breaker
pub mod Retry
pub mod Http
