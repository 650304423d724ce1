-- ===== src/Server.antt =====
-- server/: the requests and their handlers.
pub mod Param
pub mod Handler
pub mod Rules
