-- ===== src/Tims.antt =====
-- include/corerat/ipc/tims and src/tims_backend.cpp: mailboxes over a TCP connection to a router.
pub mod Protocol
pub mod Socket
pub mod Mailbox
