-- ===== src/Evl.antt =====
-- include/corerat/ipc/evl/evl_backend.hpp: the mailboxes of one host.
pub mod Registry
pub mod Ring
pub mod Remote
pub mod Local
pub mod Public
pub mod Inband
pub mod Names
pub mod Lifecycle
pub mod Network
pub mod Receive
mod Tests
