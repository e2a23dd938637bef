-- ===== src/Message.antt =====
-- The messaging layer, src/include/corerat/messaging.
pub mod Wire
pub mod Id
pub mod Registry
pub mod Sample
