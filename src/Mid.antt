-- ===== src/Mid.antt =====
-- The mid package: HTTP and gRPC middleware.
pub mod RateLimit
pub mod Concurrency
