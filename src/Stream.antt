-- ===== src/Stream.antt =====
-- contrib/stream/redis: consumers of Redis streams.
pub mod Consumer
pub mod Group
pub mod Messages
pub mod Poll
pub mod DeadLetters
