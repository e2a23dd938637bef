-- ===== src/Platform.antt =====
-- The platform layer, include/corerat/platform/.
pub mod Duration
pub mod Owner
pub mod File
pub mod Thread
pub mod Time
pub mod Condition
