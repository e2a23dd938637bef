-- ===== src/Log.antt =====
-- The real-time logging service, include/corerat/logging/.
pub mod Level
pub mod Logger
pub mod Stream
pub mod Sink
mod Tests
