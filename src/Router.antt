-- ===== src/Router.antt =====
-- The message routers, src/router/.
pub mod Registry
pub mod Options
pub mod Server
pub mod Tcp
pub mod Evl
